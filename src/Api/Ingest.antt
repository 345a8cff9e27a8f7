-- ===== src/Api/Ingest.antt =====
-- The ingest route: `_ingest` and `_reject` of src/gateway/api/routes.py, from the decoded and
-- validated body on, which pydantic gives. Log lines and response headers are left out.
use conversion_gateway.Prelude.{
  if◌then◌else◌, ◌<>◌, is_blank, left, join, ℕ, String, Bool, true, false, Option, none, some, List,
  [], ◌∷◌, map,
}
use conversion_gateway.Models.Status.{source_value, EventStatus, Source}
use conversion_gateway.Models.Message.{QueueMessage}
use conversion_gateway.Models.Canonical.{CanonicalLeadEvent}
use conversion_gateway.Exec.{
  Exec, pure, or_raise, transaction, ◌>>=◌, ◌>>◌, count, for_each, World, events_received_total,
  events_rejected_total, assertion_error, Result, ok,
}
use conversion_gateway.Ledger.{get_event, load, save, record_validated, record_rejected}
use conversion_gateway.Dlq.{Publisher}

pub data IngestResponse : Type 0 where
  accepted_response : ℕ → String → EventStatus → String → IngestResponse
  rejected_response : String → String → List (String × String) → IngestResponse

-- `existing.correlation_id or correlation_id`
abbrev pub or_own : Option String → String → String
or_own none own = own
or_own (some text) own = if is_blank text then own else text

-- The answer for a duplicate delivery, and for a new event.
unfoldable pub answer_for :
    CanonicalLeadEvent → String → Option String → Exec (Bool × IngestResponse)
unfolding get_event load
answer_for event correlation_id none = do
  found ← get_event event.event_id
  existing ← or_raise found assertion_error
  pure (
    false,
    accepted_response 200 existing.event_id existing.status
        (or_own existing.correlation_id correlation_id),
  )
answer_for event correlation_id (some id) = do
  row ← load id
  pure (true, accepted_response 202 row.event_id row.status correlation_id)

-- The transaction: whether the event is new, and the answer.
unfoldable pub accept_event : CanonicalLeadEvent → ℕ → String → Exec (Bool × IngestResponse)
unfolding record_validated answer_for
accept_event event now correlation_id =
    transaction (record_validated event now >>= answer_for event correlation_id)

abbrev pub message_of : CanonicalLeadEvent → ℕ → String → QueueMessage
message_of event now correlation_id = record {
  event_id = event.event_id;
  identifiers = event.identifiers;
  enqueued_at = now;
  correlation_id = some correlation_id;
}

-- `try: publisher.publish(…) except Exception`
abbrev swallowed : Result (Unit {0}) × World → Result (Unit {0}) × World
swallowed (r, w) = (ok tt, w)

-- What follows the commit.
unfoldable pub announce :
    Publisher → CanonicalLeadEvent → ℕ → String → Bool × IngestResponse → Exec IngestResponse
announce publish event now correlation_id (false, response) = pure response
announce publish event now correlation_id (true, response) = do
  count (events_received_total (source_value event.source) event.conversion_action)
  λ w. swallowed (publish (message_of event now correlation_id) w)
  pure response

-- `_ingest` of a body that is valid; `event` has no correlation id yet.
unfoldable pub ingest_event : Publisher → CanonicalLeadEvent → ℕ → String → Exec IngestResponse
unfolding accept_event announce
ingest_event publish event now correlation_id =
    let event' = record event { correlation_id = some correlation_id } in
    accept_event event' now correlation_id >>= announce publish event' now correlation_id

abbrev pub make_event_id : Source → String → String
make_event_id source source_event_id = source_value source <> (":" <> source_event_id)

-- `source_event_id`, or a key made of the body's digest
abbrev pub source_id_or : Option String → String → String
source_id_or none digest = "unparsed:" <> left 16 digest
source_id_or (some id) digest = id

abbrev pub error_text : String × String → String
error_text (field, reason) = reason <> (":" <> field)

unfoldable pub set_correlation : String → Option String → Exec (Unit {0})
unfolding load save
set_correlation correlation_id none = pure tt
set_correlation correlation_id (some id) =
    load id >>= λ row. save (record row { correlation_id = some correlation_id })

-- The transaction of `_reject`.
unfoldable pub record_rejection : Source → String → String → ℕ → String → Exec (Unit {0})
unfolding record_rejected set_correlation
record_rejection source source_event_id reason now correlation_id = transaction (
    record_rejected (make_event_id source source_event_id) (source_value source) source_event_id
      reason now
    >>= set_correlation correlation_id)

unfoldable pub count_error : Source → String × String → Exec (Unit {0})
count_error source (field, reason) =
    count (events_rejected_total (source_value source) "unknown" reason)

-- What `_reject` does after the commit.
unfoldable pub count_rejections :
    Source → List (String × String) → IngestResponse → Exec IngestResponse
unfolding count_error for_each
count_rejections source errors response =
    count (events_received_total (source_value source) "unknown")
    >> (for_each errors (count_error source) >> pure response)

-- `_reject`; `digest` is the body's SHA-256 in hex, an error is a field and a reason.
unfoldable pub reject :
    Source → String → Option String → List (String × String) → ℕ → String → Exec IngestResponse
unfolding record_rejection count_rejections left join
reject source digest source_event_id errors now correlation_id =
    let source_id = source_id_or source_event_id digest in
    record_rejection source source_id (left 512 (join ";" (map error_text errors))) now
      correlation_id
    >> count_rejections source errors
        (rejected_response (make_event_id source source_id) correlation_id errors)

-- What a body is: no JSON, JSON that the source's schema refuses, with the id that was read from it and
-- the errors, or an event.
pub data Body : Type 0 where
  not_json : Body
  invalid : Option String → List (String × String) → Body
  valid : CanonicalLeadEvent → Body

-- `_ingest`
unfoldable pub ingest : Publisher → Source → String → Body → ℕ → String → Exec IngestResponse
unfolding ingest_event reject
ingest publish source digest not_json now correlation_id =
    reject source digest none (("body", "malformed_json") ∷ []) now correlation_id
ingest publish source digest (invalid source_event_id errors) now correlation_id =
    reject source digest source_event_id errors now correlation_id
ingest publish source digest (valid event) now correlation_id =
    ingest_event publish event now correlation_id
