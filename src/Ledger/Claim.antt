-- ===== src/Ledger/Claim.antt =====
-- `claim_for_upload` and `find_stuck_queued`. Rows that another transaction holds locked are
-- skipped: `locked` says which. Rows of one `received_at` keep the order of the table, one of the
-- orders that the query may answer with.
use conversion_gateway.Prelude.{
  ltb, leb, if◌then◌else◌, take, select, order_by, ℕ, ◌+◌, String, Bool, false, ◌&&◌, ◌||◌, not,
  Option, none, some, List, map,
}
use conversion_gateway.Models.Status.{status_eq, queued, processed, uploading, failed_retryable}
use conversion_gateway.Models.Rows.{Event}
use conversion_gateway.Exec.{Exec, pure, gets, ◌>>=◌, ◌>>◌, for_each}
use conversion_gateway.Ledger.Table.{load, add_transition}
use conversion_gateway.Ledger.Operations.{transition, count_attempt}

-- `last_attempt_at <= now - wait`, false where the column is NULL
abbrev pub waited : Option ℕ → ℕ → ℕ → Bool
waited none wait now = false
waited (some at) wait now = leb (at + wait) now

abbrev pub is_eligible : ℕ → ℕ → ℕ → Event → Bool
is_eligible now retry_after stale_after e =
    status_eq e.status processed
    || (status_eq e.status failed_retryable && waited e.last_attempt_at retry_after now)
    || (status_eq e.status uploading && waited e.last_attempt_at stale_after now)

-- The rows that the query answers with.
unfoldable pub claimable : (String → Bool) → ℕ → ℕ → ℕ → ℕ → List Event → List Event
claimable locked now limit retry_after stale_after events = take limit (
    select (λ e. not (locked e.event_id))
      (order_by (λ e. e.received_at)
        (select (λ e. is_eligible now retry_after stale_after e) events)))

-- One round of the loop over the claimed rows.
unfoldable pub claim_row : ℕ → String → Exec (Unit {0})
unfolding transition count_attempt
claim_row now event_id = do
  event ← load event_id
  if not (status_eq event.status uploading)
      then transition event_id uploading none now
      else add_transition (record {
        event_id = event.event_id;
        from_status = some event.status;
        to_status = event.status;
        reason = some "reclaimed_stale";
        occurred_at = now;
      })
  count_attempt event_id now

unfoldable pub claim_for_upload : (String → Bool) → ℕ → ℕ → ℕ → ℕ → Exec (List String)
unfolding claim_row claimable for_each
claim_for_upload locked now limit retry_after stale_after = do
  events ← gets (λ w. claimable locked now limit retry_after stale_after w.db.events)
  let claimed = map (λ (e : Event). e.event_id) events
  for_each claimed (claim_row now)
  pure claimed

-- The events that are still QUEUED, oldest first.
unfoldable pub find_stuck_queued : ℕ → Exec (List Event)
find_stuck_queued older_than = gets (λ w.
    order_by (λ e. e.received_at)
      (select (λ e. status_eq e.status queued && ltb e.received_at older_than) w.db.events))
