-- ===== src/Upload/Uploader/Counts.antt =====
-- The counts of a cycle of src/gateway/upload/uploader.py, and a response of the wrong length.
use conversion_gateway.Models.Status
use conversion_gateway.Prelude.{
  length, ◌<>◌, str_of, ℕ, suc, ◌+◌, String, ◌≡◌, refl, ap, subst, none, List, [], ◌∷◌, arith,
}
use conversion_gateway.Exec.{
  World, Error, illegal_transition, permanent_upload, poison_upload, value_error, Result, ok, err,
}
use conversion_gateway.Exec.Returns.{
  bind-returns, ok-injective, transaction-raises, Yields, Yields-pure, Yields-raise, Yields-if,
  Yields-transaction, Yields-bind,
}
use conversion_gateway.Ledger.{load, transition}
use conversion_gateway.Upload.Classifier.{
  classify_row_error, is_transient, FailureClass, permanent, poison,
}
use conversion_gateway.Upload.Client.{BatchResult, RowResult}
use conversion_gateway.Upload.Backoff.{Tenacity}
use conversion_gateway.Upload.Uploader.Defs.{
  nothing_done, UploadClient, code_of, apply_row, apply_rows, apply_result, dead_letter_all,
  Claimed, CycleReport, Settings,
}
use conversion_gateway.Upload.Uploader.Cycle.{settle_batch, upload_batch}

-- The events that a report accounts for.
abbrev pub total : CycleReport → ℕ
total r = r.uploaded + r.retry_later + r.dead_lettered

abbrev Counts : ℕ → CycleReport → Type 0
Counts n report = total report ≡ n

apply_row-Yields :
    (now : ℕ) (c : Claimed) (row : RowResult) → Yields (Counts 1) (apply_row now c row)
unfolding apply_row
apply_row-Yields now c row = Yields-bind (Counts 1) (load c.event_id) _ λ event.
    Yields-if (Counts 1) row.ok _ _
      (Yields-bind (Counts 1) (transition event.event_id Status.uploaded none now) _
        λ _. Yields-pure (Counts 1) (record nothing_done { uploaded = 1 }) refl)
      (Yields-if (Counts 1) (is_transient (classify_row_error (code_of row.error_code))) _ _
        (Yields-bind (Counts 1) _ _
          λ _. Yields-pure (Counts 1) (record nothing_done { retry_later = 1 }) refl)
        (Yields-bind (Counts 1) _ _
          λ _. Yields-pure (Counts 1) (record nothing_done { dead_lettered = 1 }) refl))

-- A report of the rows accounts for the whole batch, and there were as many rows.
abbrev Covers : List Claimed → BatchResult → CycleReport → Type 0
Covers batch rows report = (total report ≡ length batch) × (length rows ≡ length batch)

apply_rows-Covers :
    (now : ℕ) (batch : List Claimed) (rows : BatchResult)
    → Yields (Covers batch rows) (apply_rows now batch rows)
unfolding apply_rows
apply_rows-Covers now [] [] = Yields-pure (Covers [] []) nothing_done (refl, refl)
apply_rows-Covers now [] (r ∷ rs) = Yields-raise (Covers [] (r ∷ rs)) value_error
apply_rows-Covers now (c ∷ cs) [] = Yields-raise (Covers (c ∷ cs) []) value_error
apply_rows-Covers now (c ∷ cs) (r ∷ rs) = λ w report h.
    let (done, one, after) = bind-returns (apply_row now c r) _ report w h in
    let (rest, others, last) = bind-returns (apply_rows now cs rs) _ report _ after in
    let first = apply_row-Yields now c r w done one in
    let (sum, same) = apply_rows-Covers now cs rs _ rest others in
    let summed = ok-injective last in
    (subst (Counts (length (c ∷ cs))) summed (omega arith), ap suc same)

-- A response with more or fewer rows than the batch raises, and the transaction leaves the database
-- exactly as it was: no event of the batch moves.
pub apply_result-mismatch :
    (now : ℕ) (batch : List Claimed) (rows : BatchResult) (w : World)
    → ¬ (length rows ≡ length batch)
    → (e : Error) × ((apply_result now batch rows w).0 ≡ err e)
      × ((apply_result now batch rows w).1.db ≡ w.db)
unfolding apply_result
apply_result-mismatch now batch rows w differ =
    transaction-raises (apply_rows now batch rows) w
      λ report h. differ (apply_rows-Covers now batch rows w report h).1

dead_letter_all-Yields :
    (batch : List Claimed) (failure_class : FailureClass) (reason error_code error_message : String)
    (now : ℕ)
    → Yields
        (Counts (length batch))
        (dead_letter_all batch failure_class reason error_code error_message now)
unfolding dead_letter_all
dead_letter_all-Yields batch failure_class reason error_code error_message now =
    Yields-bind (Counts (length batch)) _ _ λ _.
      Yields-pure (Counts (length batch)) (record nothing_done { dead_lettered = length batch })
        (omega arith)

settle_batch-Counts :
    (batch : List Claimed) (now : ℕ) (o : Result BatchResult × World) (report : CycleReport)
    → (settle_batch batch now o).0 ≡ ok report
    → Counts (length batch) report
unfolding settle_batch apply_result
settle_batch-Counts batch now (ok rows, w) report h =
    (Yields-transaction (Covers batch rows) (apply_rows now batch rows)
      (apply_rows-Covers now batch rows) w report h).0
settle_batch-Counts batch now (err (permanent_upload reason), w) report h =
    dead_letter_all-Yields batch permanent ("permanent:" <> reason) reason reason now w report h
settle_batch-Counts batch now (err (poison_upload reason attempts), w) report h =
    dead_letter_all-Yields batch poison
      ("poison:" <> (reason <> (":after_" <> (str_of attempts <> "_attempts")))) reason
      ("gave up after " <> (str_of attempts <> (" attempts; last error " <> reason))) now w report h
settle_batch-Counts batch now (err (illegal_transition _ _ _), w) report h = cc
settle_batch-Counts batch now (err _, w) report h = cc

-- Whenever `upload_batch` returns a report, its three counts add up to the size of the batch.
pub upload_batch-total :
    (tenacity : Tenacity BatchResult) (client : UploadClient) (settings : Settings)
    (clock : ℕ → String → ℕ) (batch : List Claimed) (now : ℕ) (w : World) (report : CycleReport)
    → (upload_batch tenacity client settings clock batch now w).0 ≡ ok report
    → total report ≡ length batch
unfolding upload_batch
upload_batch-total tenacity client settings clock batch now w report h =
    settle_batch-Counts batch now _ report h
