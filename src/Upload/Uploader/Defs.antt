-- ===== src/Upload/Uploader/Defs.antt =====
-- The operations of `Uploader` in src/gateway/upload/uploader.py.
use conversion_gateway.Prelude.{
  ltb, if◌then◌else◌, length, is_some, ◌<>◌, is_blank, str_of, ℕ, ◌+◌, ◌-◌, String, code, Bool,
  Option, none, some, List, [], ◌∷◌, map, flatten, ◌==◌,
}
use conversion_gateway.Models.Status.{uploaded, failed_retryable}
use conversion_gateway.Models.Payload.{Conversion}
use conversion_gateway.Exec.{
  Exec, pure, raise, transaction, ◌>>=◌, ◌>>◌, count, for_each, for_collect, World,
  conversions_uploaded_total, upload_latency_seconds, ingest_to_upload_seconds, transient_upload,
  permanent_upload, value_error, Result, ok, err,
}
use conversion_gateway.Ledger.{get_event, load, transition, record_retry_attempt, claim_for_upload}
use conversion_gateway.Dlq.{unknown, dead_letter}
use conversion_gateway.Upload.Classifier.{
  classify_row_error, is_transient, FailureClass, partial, poison,
}
use conversion_gateway.Upload.Client.{BatchResult, RowResult}
use conversion_gateway.Upload.Conversion.{build_conversion}
use conversion_gateway.Upload.Backoff.{RetryPolicy}

pub record Claimed : Type 0 where
  pub event_id : String
  pub attempt_count : ℕ
  pub conversion : Conversion

pub record CycleReport : Type 0 where
  pub uploaded : ℕ
  pub retry_later : ℕ
  pub dead_lettered : ℕ

abbrev pub nothing_done : CycleReport
nothing_done = record { uploaded = 0; retry_later = 0; dead_lettered = 0 }

-- `UploadClient.upload`
abbrev pub UploadClient : Type 0
UploadClient = List Conversion → Exec BatchResult

pub record Settings : Type 0 where
  pub customer_id : String
  pub row_retry_after : ℕ
  pub stale_after : ℕ
  pub max_row_attempts : ℕ
  pub policy : RetryPolicy

-- One round of the loop of `claim`: nothing where the row is dead-lettered.
unfoldable pub claim_one : Settings → ℕ → String → Exec (List Claimed)
unfolding load dead_letter build_conversion
claim_one settings now event_id = do
  event ← load event_id
  conversion ← build_conversion event settings.customer_id
  if ltb settings.max_row_attempts event.attempt_count
      then (dead_letter event.event_id poison
            ("poison:row_attempt_ceiling:" <> str_of (event.attempt_count - 1))
            (some "row_attempt_ceiling") event.status_reason conversion now
          >> pure [])
      else pure (
          record {
            event_id = event.event_id;
            attempt_count = event.attempt_count;
            conversion = conversion;
          }
          ∷ [])

unfoldable pub claim : Settings → (String → Bool) → ℕ → ℕ → Exec (List Claimed)
unfolding claim_for_upload claim_one for_collect
claim settings locked now limit = transaction (
    claim_for_upload locked now limit settings.row_retry_after settings.stale_after >>= λ ids.
    for_collect ids (claim_one settings now) >>= λ found. pure (flatten found))

-- `_load`: the ids of the events that exist
unfoldable pub load_present : List String → Exec (List String)
unfolding get_event
load_present [] = pure []
load_present (id ∷ ids) = do
  found ← get_event id
  rest ← load_present ids
  pure (if is_some found then id ∷ rest else rest)

unfoldable pub retry_ids : String → (String → ℕ) → List String → Exec (Unit {0})
unfolding record_retry_attempt for_each
retry_ids reason now ids =
    for_each ids (λ id. record_retry_attempt id ("transient:" <> reason) (now id))

abbrev pub ids_of : List Claimed → List String
ids_of batch = map (λ (c : Claimed). c.event_id) batch

-- The `on_retry` of `upload_batch`, in a transaction of its own; `clock` is what `datetime.now`
-- gives for an event at an attempt.
unfoldable pub on_retry : List Claimed → (ℕ → String → ℕ) → String → ℕ → Exec (Unit {0})
unfolding load_present retry_ids
on_retry batch clock reason attempt =
    transaction (load_present (ids_of batch) >>= retry_ids reason (clock attempt))

-- The `timed_upload` of `upload_batch`; the measured time is left out.
unfoldable pub observed : Result BatchResult × World → Result BatchResult × World
observed (ok rows, w) = (ok rows, record w { metrics = upload_latency_seconds "ok" ∷ w.metrics })
observed (err (transient_upload reason), w) = (
  err (transient_upload reason),
  record w { metrics = upload_latency_seconds "transient" ∷ w.metrics },
)
observed (err (permanent_upload reason), w) = (
  err (permanent_upload reason),
  record w { metrics = upload_latency_seconds "permanent" ∷ w.metrics },
)
observed (err e, w) = (err e, w)

unfoldable pub timed_upload : UploadClient → List Claimed → Exec BatchResult
unfolding observed
timed_upload client batch w = observed (client (map (λ (c : Claimed). c.conversion) batch) w)

-- `row.error_code or "UNKNOWN"`
abbrev pub code_of : Option String → String
code_of none = "UNKNOWN"
code_of (some code) = if is_blank code then "UNKNOWN" else code

-- One round of the loop of `apply_result`, with what it adds to the counts.
unfoldable pub apply_row : ℕ → Claimed → RowResult → Exec CycleReport
unfolding load transition dead_letter classify_row_error
apply_row now claimed row = do
  event ← load claimed.event_id
  if row.ok
      then (do
        transition event.event_id uploaded none now
        count (conversions_uploaded_total event.source (unknown event.conversion_action))
        count (
            ingest_to_upload_seconds event.source (unknown event.conversion_action)
              (now - event.received_at))
        pure (record nothing_done { uploaded = 1 }))
      else if is_transient (classify_row_error (code_of row.error_code))
      then (transition event.event_id failed_retryable
            (some ("retryable_row:" <> code_of row.error_code)) now
          >> pure (record nothing_done { retry_later = 1 }))
      else (dead_letter event.event_id partial ("permanent_row:" <> code_of row.error_code)
            (some (code_of row.error_code)) row.message claimed.conversion now
          >> pure (record nothing_done { dead_lettered = 1 }))

abbrev pub plus : CycleReport → CycleReport → CycleReport
plus a b = record {
  uploaded = a.uploaded + b.uploaded;
  retry_later = a.retry_later + b.retry_later;
  dead_lettered = a.dead_lettered + b.dead_lettered;
}

-- `zip(batch, rows, strict=True)` raises where one runs out before the other.
unfoldable pub apply_rows : ℕ → List Claimed → BatchResult → Exec CycleReport
unfolding apply_row
apply_rows now [] [] = pure nothing_done
apply_rows now (c ∷ cs) (r ∷ rs) = do
  done ← apply_row now c r
  rest ← apply_rows now cs rs
  pure (plus done rest)
apply_rows now _ _ = raise value_error

unfoldable pub apply_result : ℕ → List Claimed → BatchResult → Exec CycleReport
unfolding apply_rows
apply_result now batch rows = transaction (apply_rows now batch rows)

-- `by_id`: one entry for each id, in the order of first insertion, the last value kept.
put_claim : Claimed → List Claimed → List Claimed
put_claim c [] = c ∷ []
put_claim c (x ∷ xs) = if x.event_id == c.event_id then c ∷ xs else x ∷ put_claim c xs

unfoldable pub by_id : List Claimed → List Claimed → List Claimed
unfolding put_claim
by_id table [] = table
by_id table (c ∷ cs) = by_id (put_claim c table) cs

-- One round of the loop of `_dead_letter_all`; an event that is not found was not loaded.
unfoldable pub dead_letter_claimed :
    FailureClass → String → String → String → ℕ → Claimed → Exec (Unit {0})
unfolding get_event dead_letter
dead_letter_claimed failure_class reason error_code error_message now claimed = do
  found ← get_event claimed.event_id
  if is_some found
      then dead_letter claimed.event_id failure_class reason (some error_code) (some error_message)
          claimed.conversion now
      else pure tt

unfoldable pub dead_letter_all :
    List Claimed → FailureClass → String → String → String → ℕ → Exec CycleReport
unfolding dead_letter_claimed for_each by_id
dead_letter_all batch failure_class reason error_code error_message now =
    transaction (
      for_each (by_id [] batch)
        (dead_letter_claimed failure_class reason error_code error_message now))
    >> pure (record nothing_done { dead_lettered = length batch })
