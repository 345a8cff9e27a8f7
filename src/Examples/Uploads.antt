-- ===== src/Examples/Uploads.antt =====
-- The uploader's and the dead-letter store's theorems at work, on one event.
use conversion_gateway.Models.Status
use conversion_gateway.Prelude.{
  length, ℕ, ◌+◌, ◌≤◌, String, ◌≡◌, refl, true, false, some, [], ◌∷◌, ◌++◌, arith,
}
use conversion_gateway.Models.Status.{uploading}
use conversion_gateway.Models.Rows.{Event}
use conversion_gateway.Exec.{
  Exec, pure, transaction, World, upload_latency_seconds, Error, transient_upload, transport_error,
  ok, err,
}
use conversion_gateway.Ledger.{find_event}
use conversion_gateway.Dlq.{find_dead_letter, accept, refuse, replay}
use conversion_gateway.Dlq.Replayed.{replay_message, reset, replay-once}
use conversion_gateway.Upload.Client.{BatchResult}
use conversion_gateway.Upload.Backoff.{call_with_retry}
use conversion_gateway.Upload.Backoff.Ceiling.{Ended, call_with_retry-Ended}
use conversion_gateway.Upload.Backoff.Attempts.{call_with_retry-attempts}
use conversion_gateway.Upload.Uploader.{claim_one, apply_result, CycleReport, upload_batch}
use conversion_gateway.Upload.Uploader.Counts.{total, apply_result-mismatch, upload_batch-total}
use conversion_gateway.Examples.Data.{
  noon, row_in, world_of, world_in, dead_row, in_batch, three_attempts, settings, takes_all,
  times_out,
}
use conversion_gateway.Examples.Retrying.{loop, instant}
use conversion_gateway.Upload.Uploader.Settled.{Settled}
use conversion_gateway.Upload.Uploader.RowCeiling.{ClaimsRow, claim_one-ClaimsRow}
use conversion_gateway.Upload.Conversion.{conversion_row}

abbrev sending : World
sending = world_in uploading

apply_result-mismatch_example :
    (e : Error) × ((apply_result 30 (in_batch ∷ []) [] sending).0 ≡ err e)
    × ((apply_result 30 (in_batch ∷ []) [] sending).1.db ≡ sending.db)
apply_result-mismatch_example =
    apply_result-mismatch 30 (in_batch ∷ []) [] sending (λ h. omega (arith, h))

abbrev one_uploaded : CycleReport
one_uploaded = record { uploaded = 1; retry_later = 0; dead_lettered = 0 }

uploads_one :
    (upload_batch instant takes_all settings (λ k id. 30) (in_batch ∷ []) 30 sending).0
    ≡ ok one_uploaded
unfolding upload_batch loop
uploads_one = refl

upload_batch-total_example : total one_uploaded ≡ length (in_batch ∷ [])
upload_batch-total_example =
    upload_batch-total instant takes_all settings (λ k id. 30) (in_batch ∷ []) 30 sending
      one_uploaded uploads_one

abbrev no_hook : String → ℕ → Exec (Unit {0})
no_hook reason k = pure tt

call_with_retry-Ended_example :
    Ended three_attempts (call_with_retry instant three_attempts (times_out []) no_hook sending).0
call_with_retry-Ended_example =
    call_with_retry-Ended three_attempts (times_out []) no_hook (λ w. tt) (λ reason k w. tt) instant
      sending (omega arith)

-- A request that leaves a mark in the metrics.
abbrev marked_request : Exec BatchResult
marked_request w = (
  err (transient_upload "timeout"),
  record w { metrics = upload_latency_seconds "transient" ∷ w.metrics },
)

abbrev marks : World → ℕ
marks w = length w.metrics

call_with_retry-attempts_example :
    marks (call_with_retry instant three_attempts marked_request no_hook sending).1
    ≤ marks sending + three_attempts.max_attempts
call_with_retry-attempts_example =
    call_with_retry-attempts three_attempts marked_request no_hook marks (λ w. omega arith)
      (λ reason k w. omega arith) instant sending (omega arith)

abbrev dead_event : Event
dead_event = row_in Status.dead_lettered

abbrev buried : World
buried = world_of (dead_event ∷ []) (dead_row ∷ [])

listed : find_dead_letter 1 buried.db.dead_letters ≡ some dead_row
unfolding find_dead_letter
listed = refl

is_dead : find_event "e1" buried.db.events ≡ some dead_event
unfolding find_event
is_dead = refl

replay-once_example :
    (replay accept 1 40 buried ≡ (
      ok true,
      record (reset dead_row dead_event 40 buried) {
        published = [] ++ replay_message dead_event 40 ∷ [];
      },
    ))
    × (replay accept 1 50 (replay accept 1 40 buried).1 ≡ (ok false, (replay accept 1 40 buried).1))
    × (transaction (replay refuse 1 40) buried ≡ (err transport_error, buried))
replay-once_example = replay-once dead_row dead_event 40 buried listed refl is_dead refl accept 50

-- An event that has been claimed once too often for these settings.
abbrev often : Event
often = record (row_in uploading) { attempt_count = 6 }

abbrev often_claimed : World
often_claimed = world_of (often ∷ []) []

is_often : find_event "e1" often_claimed.db.events ≡ some often
unfolding find_event
is_often = refl

claim_one-ClaimsRow_example :
    ClaimsRow settings 30 often
      (conversion_row often "1" "signup" noon)
      often_claimed
      (claim_one settings 30 "e1" often_claimed)
claim_one-ClaimsRow_example =
    claim_one-ClaimsRow settings 30 often "signup" noon often_claimed is_often refl refl refl
