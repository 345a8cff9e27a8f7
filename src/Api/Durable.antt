-- ===== src/Api/Durable.antt =====
-- `_ingest` of src/gateway/api/routes.py on a valid event: the answer, the row and the publish.
use conversion_gateway.Prelude.{ℕ, String, ◌≡◌, refl, true, false, none, some, ◌∷◌}
use conversion_gateway.Models.Status.{source_value, queued}
use conversion_gateway.Models.Rows.{Event}
use conversion_gateway.Models.Canonical.{CanonicalLeadEvent}
use conversion_gateway.Exec.{World, events_received_total, ok}
use conversion_gateway.Ledger.{find_event, validated_row}
use conversion_gateway.Ledger.Ingest.{
  record_validated_duplicate, queued_row, after_queueing, found_queued, record_validated_runs,
}
use conversion_gateway.Dlq.{Publisher}
use conversion_gateway.Api.Ingest.{
  or_own, accept_event, message_of, ingest_event, accepted_response,
}
use conversion_gateway.Models.Columns.{event_fits}

-- The event with the request's correlation id.
abbrev pub correlated : CanonicalLeadEvent → String → CanonicalLeadEvent
correlated event correlation_id = record event { correlation_id = some correlation_id }

accept_event-new :
    (event : CanonicalLeadEvent) (now : ℕ) (correlation_id : String) (w : World)
    → find_event event.event_id w.db.events ≡ none
    → event_fits (validated_row event now) ≡ true
    → accept_event event now correlation_id w ≡ (
      ok (true, accepted_response 202 event.event_id queued correlation_id),
      after_queueing event now w,
    )
unfolding accept_event
accept_event-new event now correlation_id w new fits =
    rw (record_validated_runs event now w new fits) (rw (found_queued event now w new) refl)

accept_event-duplicate :
    (event : CanonicalLeadEvent) (now : ℕ) (correlation_id : String) (old : Event) (w : World)
    → find_event event.event_id w.db.events ≡ some old
    → event_fits (validated_row event now) ≡ true
    → accept_event event now correlation_id w ≡ (
      ok (
        false,
        accepted_response 200 old.event_id old.status (or_own old.correlation_id correlation_id),
      ),
      w,
    )
unfolding accept_event
accept_event-duplicate event now correlation_id old w found fits =
    rw (record_validated_duplicate event now old w found fits) (rw found refl)

-- The world once the event is committed and counted.
abbrev pub counted : CanonicalLeadEvent → ℕ → World → World
counted event now w = record (after_queueing event now w) {
  metrics = events_received_total (source_value event.source) event.conversion_action ∷ w.metrics;
}

-- A valid event of an id that is new and whose row fits its columns, with any publisher, one that
-- raises included: the route answers 202 with the id, the QUEUED status and the request's
-- correlation id; the world that the publisher is given has the QUEUED row; and what the publisher
-- does to that world is all that follows.
pub ingest_event-new :
    (publish : Publisher) (event : CanonicalLeadEvent) (now : ℕ) (correlation_id : String)
    (w : World)
    → find_event event.event_id w.db.events ≡ none
    → event_fits (validated_row (correlated event correlation_id) now) ≡ true
    → let event' = correlated event correlation_id in
      let committed = counted event' now w in
      (ingest_event publish event now correlation_id w ≡ (
        ok (accepted_response 202 event.event_id queued correlation_id),
        (publish (message_of event' now correlation_id) committed).1,
      ))
      × (find_event event.event_id committed.db.events ≡ some (queued_row event' now))
unfolding ingest_event
ingest_event-new publish event now correlation_id w new fits =
    let event' = correlated event correlation_id in
    (rw (accept_event-new event' now correlation_id w new fits) refl, found_queued event' now w new)

-- A valid event of an id that is on the ledger, with values that fit the columns: the route answers
-- 200 with the id, the status and the correlation id of the row that is there, or the request's
-- where the row has none; it publishes nothing, counts nothing and leaves the ledger as it is.
pub ingest_event-duplicate :
    (publish : Publisher) (event : CanonicalLeadEvent) (now : ℕ) (correlation_id : String)
    (old : Event) (w : World)
    → find_event event.event_id w.db.events ≡ some old
    → event_fits (validated_row (correlated event correlation_id) now) ≡ true
    → ingest_event publish event now correlation_id w ≡ (
      ok (accepted_response 200 old.event_id old.status (or_own old.correlation_id correlation_id)),
      w,
    )
unfolding ingest_event
ingest_event-duplicate publish event now correlation_id old w found fits =
    rw
      (accept_event-duplicate (correlated event correlation_id) now correlation_id old w found fits)
      refl
