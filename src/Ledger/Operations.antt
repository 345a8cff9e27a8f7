-- ===== src/Ledger/Operations.antt =====
-- `transition` and the operations that record an event's way through the pipeline.
use conversion_gateway.Prelude.{
  if◌then◌else◌, ℕ, ◌+◌, String, Bool, true, false, not, Option, none, some,
}
use conversion_gateway.Models.Status.{
  status_in, allowed_transitions, source_value, match_key_type_value, EventStatus, received,
  validated, rejected, queued, processed, uploading, failed_retryable,
}
use conversion_gateway.Consent.{consent_status_value, ConsentStatus}
use conversion_gateway.Models.Canonical.{match_key_type, CanonicalLeadEvent}
use conversion_gateway.Models.Rows.{HashedIdentifiers, Event, EventTransition}
use conversion_gateway.Exec.{
  Exec, pure, ◌>>=◌, ◌>>◌, modify, require, illegal_transition, data_error,
}
use conversion_gateway.Ledger.Table.{insert_event, get_event, load, save, add_transition}
use conversion_gateway.Models.Columns.{event_fits}

unfoldable pub transition : String → EventStatus → Option String → ℕ → Exec (Unit {0})
unfolding load save add_transition
transition event_id to_status reason now = do
  event ← load event_id
  require (status_in to_status (allowed_transitions event.status))
      (illegal_transition event.event_id event.status to_status)
  save (record event { status = to_status; status_reason = reason })
  add_transition (record {
    event_id = event.event_id;
    from_status = some event.status;
    to_status = to_status;
    reason = reason;
    occurred_at = now;
  })

-- INSERT … ON CONFLICT DO NOTHING: true if the row was written. Postgres casts the values to their
-- columns before it looks for a conflict.
insert_unless : Option Event → Event → Exec Bool
unfolding insert_event
insert_unless (some existing) row = pure false
insert_unless none row =
    modify (λ w. record w { db = record w.db { events = insert_event row w.db.events } })
    >> pure true

unfoldable insert_if_absent : Event → Exec Bool
unfolding insert_unless get_event event_fits
insert_if_absent row =
    require (event_fits row) data_error
    >> (get_event row.event_id >>= λ existing. insert_unless existing row)

-- The transition row that marks a row's creation.
abbrev pub creation : String → ℕ → EventTransition
creation event_id now = record {
  event_id = event_id;
  from_status = none;
  to_status = received;
  reason = none;
  occurred_at = now;
}

-- `_consent_value`
abbrev pub consent_value : Option ConsentStatus → Option String
consent_value none = none
consent_value (some status) = some (consent_status_value status)

-- The row that `record_validated` inserts: no field of it is raw PII.
abbrev pub validated_row : CanonicalLeadEvent → ℕ → Event
validated_row event now = record {
  event_id = event.event_id;
  source = source_value event.source;
  source_event_id = event.source_event_id;
  received_at = now;
  correlation_id = event.correlation_id;
  conversion_action = some event.conversion_action;
  conversion_time = some event.conversion_time;
  conversion_value = event.conversion_value;
  currency = event.currency;
  match_key_type = some (match_key_type_value (match_key_type event));
  click_id = event.click_id;
  hashed_identifiers = none;
  consent_ad_user_data = consent_value event.consent.ad_user_data;
  consent_ad_personalization = consent_value event.consent.ad_personalization;
  status = received;
  status_reason = none;
  attempt_count = 0;
  last_attempt_at = none;
}

-- The row that `record_rejected` inserts: what was not parsed is NULL.
abbrev pub rejected_row : String → String → String → ℕ → Event
rejected_row event_id source source_event_id now = record {
  event_id = event_id;
  source = source;
  source_event_id = source_event_id;
  received_at = now;
  correlation_id = none;
  conversion_action = none;
  conversion_time = none;
  conversion_value = none;
  currency = none;
  match_key_type = none;
  click_id = none;
  hashed_identifiers = none;
  consent_ad_user_data = none;
  consent_ad_personalization = none;
  status = received;
  status_reason = none;
  attempt_count = 0;
  last_attempt_at = none;
}

-- `record_validated` returns the new event's id, or `none` on a duplicate delivery.
unfoldable pub record_validated : CanonicalLeadEvent → ℕ → Exec (Option String)
unfolding insert_if_absent transition
record_validated event now = do
  inserted ← insert_if_absent (validated_row event now)
  if not inserted then pure none else do
    row ← load event.event_id
    add_transition (creation row.event_id now)
    transition row.event_id validated none now
    transition row.event_id queued none now
    pure (some row.event_id)

unfoldable pub record_rejected : String → String → String → String → ℕ → Exec (Option String)
unfolding insert_if_absent transition
record_rejected event_id source source_event_id reason now = do
  inserted ← insert_if_absent (rejected_row event_id source source_event_id now)
  if not inserted then pure none else do
    row ← load event_id
    add_transition (creation row.event_id now)
    transition row.event_id rejected (some reason) now
    pure (some row.event_id)

unfoldable pub record_processed : String → HashedIdentifiers → ℕ → Exec (Unit {0})
unfolding transition
record_processed event_id hashed_identifiers now = do
  event ← load event_id
  save (record event { hashed_identifiers = some hashed_identifiers })
  transition event_id processed none now

-- `event.attempt_count += 1` and `event.last_attempt_at = now`
unfoldable pub count_attempt : String → ℕ → Exec (Unit {0})
unfolding load save
count_attempt event_id now = do
  event ← load event_id
  save (record event { attempt_count = event.attempt_count + 1; last_attempt_at = some now })

unfoldable pub record_retry_attempt : String → String → ℕ → Exec (Unit {0})
unfolding transition count_attempt
record_retry_attempt event_id reason now = do
  transition event_id failed_retryable (some reason) now
  transition event_id uploading none now
  count_attempt event_id now
