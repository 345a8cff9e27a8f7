-- ===== src/Examples/Webhooks.antt =====
-- The webhook's mappers and route at work, and the processes after it.
use conversion_gateway.Worker
use conversion_gateway.Upload.Uploader
use conversion_gateway.Prelude.{
  nat_eq, code, ◌≡◌, refl, ◌⊎◌, false, none, some, List, [], ◌∷◌, ◌++◌, map,
}
use conversion_gateway.Models.Status.{allowed_transitions, received, validated, queued, salesforce}
use conversion_gateway.Models.Message.{QueueMessage}
use conversion_gateway.Models.Canonical.{CanonicalLeadEvent}
use conversion_gateway.Consent.{granted}
use conversion_gateway.Exec.{World, ok}
use conversion_gateway.Ledger.{find_event, list_transitions}
use conversion_gateway.Dlq.{accept}
use conversion_gateway.Upload.Json.{empty_object}
use conversion_gateway.Api.Signature.{compute_signature, answer}
use conversion_gateway.Api.Ingest.{message_of, accepted_response}
use conversion_gateway.Api.Schemas.{
  SalesforceLead, SalesforceWebhook, Validators, aware, model, errors,
}
use conversion_gateway.Api.Mappers.{salesforce_event, parse_and_map, mapped}
use conversion_gateway.Api.Mapped.{IsMapped, parse_and_map-IsMapped}
use conversion_gateway.Api.Routes.{
  source_or_404, verdict_of, post_webhook, get_event, ApiSettings, Request, Decoders,
  TransitionResponse, EventResponse, ingested,
}
use conversion_gateway.Api.Gate.{IsSigned, post_webhook-IsSigned, post_webhook-get_event}
use conversion_gateway.Pipeline.{empty_world}
use conversion_gateway.Examples.Data.{plain_libs, noon, settings, takes_all}
use conversion_gateway.Examples.Requests.{toy, request}
use conversion_gateway.Models.Columns.{event_fits}
use conversion_gateway.Models.Rows.{Event, EventTransition}
use conversion_gateway.Ledger.Trail.{trail, current}
use conversion_gateway.Queue.{publish, memory_consumer, MemoryQueue}
use conversion_gateway.Upload.Uploader.{Claimed}
use conversion_gateway.Upload.Batcher.{Batcher}
use conversion_gateway.Examples.Parts.{direct, quiet_queue}
use conversion_gateway.Examples.Retrying.{instant}
use conversion_gateway.Pipeline.Processes.{Runs-keep_history, Run, Runs}

abbrev new_lead : SalesforceLead
new_lead = record {
  id = "l1";
  email = some "ann@example.com";
  phone = some "  ";
  first_name = none;
  last_name = none;
  street = none;
  city = none;
  state_code = none;
  postal_code = none;
  country_code = none;
  gclid = some "";
  consent_ad_user_data = some granted;
  consent_ad_personalization = some granted;
}

abbrev payload : SalesforceWebhook
payload = record {
  event_id = "s1";
  event_time = aware noon;
  conversion_action = "signup";
  amount = none;
  currency = none;
  lead = new_lead;
}

-- Validation that takes any JSON for the payload, and decoding of any body.
abbrev validators : Validators
validators = record {
  salesforce_model = λ j. model payload;
  hubspot_model = λ j. errors [];
  is_space = λ c. nat_eq (code c) 32;
}

abbrev decoders : Decoders
decoders = record { loads = λ b. some empty_object; digest_hex = λ b. "digest" }

abbrev secrets : ApiSettings
secrets = record {
  webhook_secret_salesforce = "key";
  webhook_secret_hubspot = "other";
  webhook_timestamp_tolerance_seconds = 5;
}

abbrev signed : Request
signed = record {
  source = "salesforce";
  timestamp_header = some "100";
  signature_header = some (compute_signature toy "key" "100" request);
  body = request;
}

abbrev event : CanonicalLeadEvent
event = salesforce_event validators payload noon

maps : parse_and_map validators salesforce empty_object ≡ mapped event
unfolding parse_and_map
maps = refl

lets_through : verdict_of toy secrets signed 101000000 salesforce ≡ answer none
unfolding verdict_of
lets_through = refl

is_known : source_or_404 "salesforce" ≡ some salesforce
unfolding source_or_404
is_known = refl

parse_and_map-IsMapped_example : IsMapped validators salesforce empty_object event
parse_and_map-IsMapped_example =
    parse_and_map-IsMapped validators salesforce empty_object event maps

post_webhook-IsSigned_example :
    ((post_webhook toy secrets validators decoders accept signed 101000000 5 "c" empty_world).1
      ≡ empty_world)
    ⊎ IsSigned toy secrets validators decoders accept signed 101000000
post_webhook-IsSigned_example =
    post_webhook-IsSigned toy secrets validators decoders accept signed 101000000 5 "c" empty_world

post_webhook-get_event_example :
    ((post_webhook toy secrets validators decoders accept signed 101000000 5 "c" empty_world).0
      ≡ ok (ingested (accepted_response 202 event.event_id queued "c")))
    × ((shown : EventResponse) × ((get_event event.event_id
            (post_webhook toy secrets validators decoders accept signed 101000000 5 "c"
              empty_world).1).0
          ≡ ok (some shown))
        × (shown.status ≡ queued)
        × (map (λ (t : TransitionResponse). t.to_status) shown.transitions
            ≡ received ∷ validated ∷ queued ∷ []))
unfolding find_event list_transitions event_fits salesforce_event
post_webhook-get_event_example =
    post_webhook-get_event toy secrets validators decoders accept (λ m w. refl) signed salesforce
      empty_object event 101000000 5 "c" empty_world is_known lets_through refl maps refl refl refl

-- The event comes in, and then the worker takes its message and the uploader runs twice.
abbrev after_webhook : World
after_webhook =
    (post_webhook toy secrets validators decoders accept signed 101000000 5 "c" empty_world).1

abbrev held : MemoryQueue QueueMessage
held = publish direct (message_of event 5 "c") quiet_queue

abbrev after_worker : World
after_worker =
    (Worker.run plain_libs (memory_consumer direct) 5 (50 ∷ 60 ∷ []) held after_webhook).2

abbrev claimed_batcher : Batcher Claimed
claimed_batcher = record { max_size = 2; max_wait = 0; items = []; oldest_at = none }

abbrev after_uploader : World
after_uploader =
    (Uploader.run instant takes_all settings (λ id. false) (λ now k id. now) (70 ∷ 80 ∷ [])
      claimed_batcher after_worker).2

Runs-keep_history_example :
    (trail (list_transitions event.event_id after_uploader.db.transitions)
      ≡ current (find_event event.event_id after_uploader.db.events))
    × ((later : List EventTransition) × (after_uploader.db.transitions
          ≡ after_webhook.db.transitions ++ later))
    × ((e : Event)
        → find_event event.event_id after_webhook.db.events ≡ some e
        → allowed_transitions e.status ≡ []
        → (e' : Event) × (find_event event.event_id after_uploader.db.events ≡ some e')
          × (e'.status ≡ e.status))
Runs-keep_history_example =
    Runs-keep_history plain_libs (memory_consumer direct) instant event.event_id
      (Runs.then_one Runs.none_yet (
        Run.webhook toy secrets validators decoders accept signed 101000000 5 "c" (λ m w. refl)
          refl))
      (Runs.then_one (Runs.then_one Runs.none_yet (Run.worker 5 (50 ∷ 60 ∷ []) held refl)) (
        Run.uploader takes_all settings (λ id. false) (λ now k id. now) (70 ∷ 80 ∷ [])
          claimed_batcher (λ conversions w. refl) refl))
