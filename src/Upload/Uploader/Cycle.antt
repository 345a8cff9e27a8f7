-- ===== src/Upload/Uploader/Cycle.antt =====
-- A batch from the first request to its outcome, and the cycle around it:
-- src/gateway/upload/uploader.py.
use conversion_gateway.Prelude.{
  ltb, if◌then◌else◌, length, ◌<>◌, str_of, ℕ, ◌-◌, String, Bool, Option, none, some, List, [], ◌∷◌,
}
use conversion_gateway.Models.Status.{source_value, Source, salesforce, hubspot}
use conversion_gateway.Exec.{
  Exec, pure, gets, ◌>>=◌, ◌>>◌, count, for_each, World, dlq_depth, permanent_upload, poison_upload,
  Result, ok, err,
}
use conversion_gateway.Dlq.{open_depth}
use conversion_gateway.Upload.Classifier.{permanent, poison}
use conversion_gateway.Upload.Client.{BatchResult}
use conversion_gateway.Upload.Batcher.{add, flush_if_due, Batcher}
use conversion_gateway.Upload.Backoff.{call_with_retry, Tenacity}
use conversion_gateway.Upload.Uploader.Defs.{
  nothing_done, UploadClient, claim, on_retry, timed_upload, apply_result, dead_letter_all, Claimed,
  CycleReport, Settings,
}

-- What `upload_batch` does with the outcome of the retried request.
unfoldable pub settle_batch :
    List Claimed → ℕ → Result BatchResult × World → Result CycleReport × World
unfolding apply_result dead_letter_all
settle_batch batch now (ok rows, w) = apply_result now batch rows w
settle_batch batch now (err (permanent_upload reason), w) =
    dead_letter_all batch permanent ("permanent:" <> reason) reason reason now w
settle_batch batch now (err (poison_upload reason attempts), w) =
    dead_letter_all batch poison
      ("poison:" <> (reason <> (":after_" <> (str_of attempts <> "_attempts")))) reason
      ("gave up after " <> (str_of attempts <> (" attempts; last error " <> reason))) now w
settle_batch batch now (err e, w) = (err e, w)

-- `_refresh_dlq_depth`
unfoldable refresh_depth : Source → Exec (Unit {0})
refresh_depth source = do
  depth ← gets (λ w. open_depth (source_value source) w.db.dead_letters)
  count (dlq_depth (source_value source) depth)

unfoldable pub refresh_dlq_depth : Exec (Unit {0})
unfolding refresh_depth open_depth for_each
refresh_dlq_depth = for_each (salesforce ∷ hubspot ∷ []) refresh_depth

-- The loop of `run_once` over the claimed rows: the last batch that an item filled, if any.
unfoldable pub add_all :
    List Claimed
    → ℕ
    → Option (List Claimed)
    → Batcher Claimed
    → Option (List Claimed) × Batcher Claimed
unfolding add
add_all [] now batch b = (batch, b)
add_all (c ∷ cs) now batch b =
    let (full, b') = add c now b in
    add_all cs now (elim full [ some items ↦ some items | none ↦ batch ]) b'

-- `if batch is None: batch = flush_if_due(now)`
unfoldable pub or_due :
    ℕ → Option (List Claimed) × Batcher Claimed → Option (List Claimed) × Batcher Claimed
unfolding flush_if_due
or_due now (some items, b) = (some items, b)
or_due now (none, b) = flush_if_due now b

module _ (tenacity : Tenacity BatchResult) (client : UploadClient) (settings : Settings) where
  unfoldable pub upload_batch : (ℕ → String → ℕ) → List Claimed → ℕ → Exec CycleReport
  unfolding settle_batch call_with_retry timed_upload on_retry
  upload_batch clock batch now w = settle_batch batch now (
      call_with_retry tenacity settings.policy (timed_upload client batch) (on_retry batch clock) w)

  -- `if not batch: return CycleReport()`, and what follows it
  unfoldable pub send : (ℕ → String → ℕ) → ℕ → Option (List Claimed) → Exec CycleReport
  unfolding upload_batch refresh_dlq_depth
  send clock now none = pure nothing_done
  send clock now (some []) = pure nothing_done
  send clock now (some (c ∷ cs)) = do
    report ← upload_batch clock (c ∷ cs) now
    refresh_dlq_depth
    pure report

  unfoldable with_batcher :
      Batcher Claimed → Result CycleReport × World → Result CycleReport × Batcher Claimed × World
  with_batcher b (r, w) = (r, b, w)

  unfoldable pub sent :
      (ℕ → String → ℕ)
      → ℕ
      → Option (List Claimed) × Batcher Claimed
      → World
      → Result CycleReport × Batcher Claimed × World
  unfolding send with_batcher
  sent clock now (batch, b) w = with_batcher b (send clock now batch w)

  unfoldable pub batched :
      (ℕ → String → ℕ)
      → ℕ
      → Batcher Claimed
      → Result (List Claimed) × World
      → Result CycleReport × Batcher Claimed × World
  unfolding sent add_all or_due
  batched clock now b (err e, w) = (err e, b, w)
  batched clock now b (ok claimed, w) = sent clock now (or_due now (add_all claimed now none b)) w

  unfoldable pub claim_room : (String → Bool) → ℕ → Batcher Claimed → Exec (List Claimed)
  unfolding claim
  claim_room locked now b =
      if ltb 0 (b.max_size - length b.items)
      then claim settings locked now (b.max_size - length b.items)
      else pure []

  unfoldable pub run_once :
      (String → Bool)
      → (ℕ → String → ℕ)
      → ℕ
      → Batcher Claimed
      → World
      → Result CycleReport × Batcher Claimed × World
  unfolding claim_room batched
  run_once locked clock now b w = batched clock now b (claim_room locked now b w)

  unfoldable pub then_run :
      (Batcher Claimed → World → Result (Unit {0}) × Batcher Claimed × World)
      → Result CycleReport × Batcher Claimed × World
      → Result (Unit {0}) × Batcher Claimed × World
  then_run next (ok report, b, w) = next b w
  then_run next (err e, b, w) = (err e, b, w)

  -- `run`, where `stop` is set during the last of the cycles, one for each time in the list. The wait
  -- after an idle cycle only lets time pass.
  unfoldable pub run :
      (String → Bool)
      → (ℕ → ℕ → String → ℕ)
      → List ℕ
      → Batcher Claimed
      → World
      → Result (Unit {0}) × Batcher Claimed × World
  unfolding run_once then_run
  run locked clock [] b w = (ok tt, b, w)
  run locked clock (now ∷ times) b w =
      then_run (run locked clock times) (run_once locked (clock now) now b w)
