-- ===== src/Api/Routes.antt =====
-- The routes around the ingest: src/gateway/api/routes.py. A request is its path's source, its two
-- headers and its body. What FastAPI makes of an exception is an answer with 500; log lines, response
-- headers and the metrics page are left out.
use conversion_gateway.Ledger
use conversion_gateway.Prelude.{if◌then◌else◌, ℕ, String, Bool, Option, none, some, List, map, ◌==◌}
use conversion_gateway.Models.Status.{EventStatus, Source, salesforce, hubspot}
use conversion_gateway.Models.Rows.{Event, EventTransition}
use conversion_gateway.Exec.{Exec, pure, gets, ◌>>=◌}
use conversion_gateway.Ledger.{list_transitions}
use conversion_gateway.Dlq.{Publisher}
use conversion_gateway.Upload.Json.{Json}
use conversion_gateway.Api.Signature.{Bytes, verify, Primitives, SignatureFailure, Verdict, answer}
use conversion_gateway.Api.Ingest.{ingest, IngestResponse, Body, not_json, invalid, valid}
use conversion_gateway.Api.Schemas.{Validators}
use conversion_gateway.Api.Mappers.{
  parse_and_map, extract_source_event_id, rejection_reasons, Mapped, mapped, refused,
  unrepresentable,
}

pub record ApiSettings : Type 0 where
  pub webhook_secret_salesforce : String
  pub webhook_secret_hubspot : String
  pub webhook_timestamp_tolerance_seconds : ℕ

pub record Request : Type 0 where
  pub source : String
  pub timestamp_header : Option String
  pub signature_header : Option String
  pub body : Bytes

-- `json.loads`, with `none` for its ValueError, and SHA-256 in hex.
pub record Decoders : Type 0 where
  pub loads : Bytes → Option Json
  pub digest_hex : Bytes → String

pub data WebhookAnswer : Type 0 where
  ingested : IngestResponse → WebhookAnswer
  -- 404, 401 with the reason, 500
  unknown_source : WebhookAnswer
  unauthorized : SignatureFailure → WebhookAnswer
  server_error : WebhookAnswer

-- `Source(text)`, with `none` for the 404
unfoldable pub source_or_404 : String → Option Source
source_or_404 name =
    if name == "salesforce"
    then some salesforce
    else if name == "hubspot"
    then some hubspot
    else none

unfoldable pub secret_for : ApiSettings → Source → String
secret_for settings salesforce = settings.webhook_secret_salesforce
secret_for settings hubspot = settings.webhook_secret_hubspot

-- `verified_body`, with `none` where the body is let through
unfoldable pub stopped_by : Verdict → Option WebhookAnswer
stopped_by (answer none) = none
stopped_by (answer (some failure)) = some (unauthorized failure)
stopped_by _ = some server_error

module _ (prim : Primitives) (settings : ApiSettings) where
  unfoldable pub verdict_of : Request → ℕ → Source → Verdict
  unfolding secret_for verify
  verdict_of request clock source =
      verify prim (secret_for settings source) request.timestamp_header request.signature_header
        request.body clock settings.webhook_timestamp_tolerance_seconds

  module _ (validators : Validators) (decoders : Decoders) (publish : Publisher) where
    body_of : Source → Json → Mapped → Option Body
    unfolding extract_source_event_id rejection_reasons
    body_of source payload (mapped event) = some (valid event)
    body_of source payload (refused details) =
        some
          (invalid (extract_source_event_id validators source payload) (rejection_reasons details))
    body_of source payload unrepresentable = none

    unfoldable pub decoded : Source → Option Json → Option Body
    unfolding body_of parse_and_map
    decoded source none = some not_json
    decoded source (some payload) = body_of source payload (parse_and_map validators source payload)

    unfoldable pub ingested_body : Request → Source → ℕ → String → Option Body → Exec WebhookAnswer
    unfolding ingest
    ingested_body request source now correlation_id none = pure server_error
    ingested_body request source now correlation_id (some body) =
        ingest publish source (decoders.digest_hex request.body) body now correlation_id
        >>= λ response. pure (ingested response)

    unfoldable pub answered :
        Request → Source → ℕ → String → Option WebhookAnswer → Exec WebhookAnswer
    unfolding ingested_body decoded
    answered request source now correlation_id (some refusal) = pure refusal
    answered request source now correlation_id none =
        ingested_body request source now correlation_id
          (decoded source (decoders.loads request.body))

    unfoldable pub routed : Request → ℕ → ℕ → String → Option Source → Exec WebhookAnswer
    unfolding answered stopped_by verdict_of
    routed request clock now correlation_id none = pure unknown_source
    routed request clock now correlation_id (some source) =
        answered request source now correlation_id (stopped_by (verdict_of request clock source))

    -- `POST /webhooks/crm/{source}`; `clock` is `time.time()`, in microseconds, `now` the ledger's
    -- time.
    unfoldable pub post_webhook : Request → ℕ → ℕ → String → Exec WebhookAnswer
    unfolding routed source_or_404
    post_webhook request clock now correlation_id =
        routed request clock now correlation_id (source_or_404 request.source)

pub record TransitionResponse : Type 0 where
  pub from_status : Option EventStatus
  pub to_status : EventStatus
  pub reason : Option String
  pub occurred_at : ℕ

pub record EventResponse : Type 0 where
  pub event_id : String
  pub source : String
  pub status : EventStatus
  pub status_reason : Option String
  pub received_at : ℕ
  pub conversion_action : Option String
  pub match_key_type : Option String
  pub attempt_count : ℕ
  pub transitions : List TransitionResponse

abbrev pub transition_response : EventTransition → TransitionResponse
transition_response t = record {
  from_status = t.from_status;
  to_status = t.to_status;
  reason = t.reason;
  occurred_at = t.occurred_at;
}

abbrev pub event_response : Event → List EventTransition → EventResponse
event_response row transitions = record {
  event_id = row.event_id;
  source = row.source;
  status = row.status;
  status_reason = row.status_reason;
  received_at = row.received_at;
  conversion_action = row.conversion_action;
  match_key_type = row.match_key_type;
  attempt_count = row.attempt_count;
  transitions = map transition_response transitions;
}

-- `GET /events/{event_id}`, with `none` for the 404
unfoldable pub get_event : String → Exec (Option EventResponse)
unfolding Ledger.get_event list_transitions
get_event event_id = do
  found ← Ledger.get_event event_id
  transitions ← gets (λ w. list_transitions event_id w.db.transitions)
  pure (elim found [ some row ↦ some (event_response row transitions) | none ↦ none ])

-- `GET /healthz`
abbrev healthz : ℕ × String
healthz = (200, "ok")

-- `GET /readyz`: the status, and what is said of the process and the database.
unfoldable readyz : Bool → ℕ × (String × String)
readyz reachable = if reachable then (200, ("ok", "ok")) else (503, ("unavailable", "unreachable"))
