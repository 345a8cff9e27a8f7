-- ===== src/Pipeline/IngestRuns.antt =====
-- The webhook of src/gateway/api/routes.py as a path of the pipeline's steps.
use conversion_gateway.Api.Ingest
use conversion_gateway.Prelude.{
  left, join, ℕ, String, refl, Bool, true, false, Option, none, some, List, [], ◌∷◌, map,
}
use conversion_gateway.Models.Status.{source_value, Source}
use conversion_gateway.Models.Canonical.{CanonicalLeadEvent}
use conversion_gateway.Exec.{pure, ◌>>◌, count, for_each, World, events_received_total}
use conversion_gateway.Normalise.Libs.{Libs}
use conversion_gateway.Dlq.{Publisher}
use conversion_gateway.Api.Ingest.{
  accept_event, message_of, announce, ingest_event, make_event_id, source_id_or, error_text,
  record_rejection, count_error, count_rejections, IngestResponse, rejected_response, Body,
  not_json, invalid, valid,
}
use conversion_gateway.Pipeline.Steps.{IsQuiet, Step, Reach}
use conversion_gateway.Pipeline.Runs.{once, quietly, Reach-bind}
use conversion_gateway.Api.Routes.{
  source_or_404, stopped_by, verdict_of, decoded, ingested_body, answered, routed, post_webhook,
  ApiSettings, Request, Decoders, WebhookAnswer,
}
use conversion_gateway.Api.Schemas.{Validators}
use conversion_gateway.Api.Signature.{Primitives}

module _ (libs : Libs) where
  module _ (publish : Publisher) (quiet : IsQuiet publish) where
    announce-Reach :
        (event : CanonicalLeadEvent) (now : ℕ) (correlation_id : String)
        (answer : Bool × IngestResponse) (w : World)
        → Reach libs w (announce publish event now correlation_id answer w).1
    unfolding announce
    announce-Reach event now correlation_id (false, response) w = Reach.here
    announce-Reach event now correlation_id (true, response) w =
        quietly libs w _ (quiet (message_of event now correlation_id) _)

    ingest_event-Reach :
        (event : CanonicalLeadEvent) (now : ℕ) (correlation_id : String) (w : World)
        → Reach libs w (ingest_event publish event now correlation_id w).1
    unfolding ingest_event
    ingest_event-Reach event now correlation_id w =
        let event' = record event { correlation_id = some correlation_id } in
        Reach-bind libs (accept_event event' now correlation_id)
          (announce publish event' now correlation_id) w
          (once libs (Step.ingest event' now correlation_id refl))
          (announce-Reach event' now correlation_id)

  count_errors-Reach :
      (source : Source) (errors : List (String × String)) (w : World)
      → Reach libs w (for_each errors (count_error source) w).1
  unfolding for_each count_error
  count_errors-Reach source [] w = Reach.here
  count_errors-Reach source (e ∷ errors) w =
      Reach-bind libs (count_error source e) (λ _. for_each errors (count_error source)) w
        (quietly libs w _ refl) (λ _ v. count_errors-Reach source errors v)

  count_rejections-Reach :
      (source : Source) (errors : List (String × String)) (response : IngestResponse) (w : World)
      → Reach libs w (count_rejections source errors response w).1
  unfolding count_rejections
  count_rejections-Reach source errors response w =
      let counting = count (events_received_total (source_value source) "unknown") in
      let each = for_each errors (count_error source) in
      Reach-bind libs counting (λ _. each >> pure response) w (quietly libs w (counting w).1 refl)
        λ _ v.
          Reach-bind libs each (λ _. pure response) v (count_errors-Reach source errors v)
            λ _ u. Reach.here

  reject-Reach :
      (source : Source) (digest : String) (source_event_id : Option String)
      (errors : List (String × String)) (now : ℕ) (correlation_id : String) (w : World)
      → Reach libs w (Ingest.reject source digest source_event_id errors now correlation_id w).1
  unfolding Ingest.reject
  reject-Reach source digest source_event_id errors now correlation_id w =
      let source_id = source_id_or source_event_id digest in
      let reason = left 512 (join ";" (map error_text errors)) in
      let response = rejected_response (make_event_id source source_id) correlation_id errors in
      Reach-bind libs (record_rejection source source_id reason now correlation_id)
        (λ _. count_rejections source errors response) w
        (once libs (Step.reject source source_id reason now correlation_id refl))
        λ _ v. count_rejections-Reach source errors response v

  -- For a publisher that leaves the database alone, whatever else it does, the route is a path of the
  -- pipeline's steps, whatever the body is.
  ingest-Reach :
      (publish : Publisher)
      → IsQuiet publish
      → (source : Source) (digest : String) (body : Body) (now : ℕ) (correlation_id : String)
        (w : World)
      → Reach libs w (Ingest.ingest publish source digest body now correlation_id w).1
  unfolding Ingest.ingest
  ingest-Reach publish quiet source digest not_json now correlation_id w =
      reject-Reach source digest none (("body", "malformed_json") ∷ []) now correlation_id w
  ingest-Reach publish quiet source digest (invalid source_event_id errors) now correlation_id w =
      reject-Reach source digest source_event_id errors now correlation_id w
  ingest-Reach publish quiet source digest (valid event) now correlation_id w =
      ingest_event-Reach publish quiet event now correlation_id w

  module _ (prim : Primitives) (settings : ApiSettings) (validators : Validators)
      (decoders : Decoders) (publish : Publisher) (quiet : IsQuiet publish) where
    ingested_body-Reach :
        (request : Request) (source : Source) (now : ℕ) (correlation_id : String)
        (body : Option Body) (w : World)
        → Reach libs w
            (ingested_body prim settings validators decoders publish request source now
              correlation_id body w).1
    unfolding ingested_body
    ingested_body-Reach request source now correlation_id none w = Reach.here
    ingested_body-Reach request source now correlation_id (some body) w =
        Reach-bind libs
          (Ingest.ingest publish source (decoders.digest_hex request.body) body now correlation_id)
          _ w
          (ingest-Reach publish quiet source (decoders.digest_hex request.body) body now
            correlation_id w)
          λ _ u. Reach.here

    answered-Reach :
        (request : Request) (source : Source) (now : ℕ) (correlation_id : String)
        (refusal : Option WebhookAnswer) (w : World)
        → Reach libs w
            (answered prim settings validators decoders publish request source now correlation_id
              refusal w).1
    unfolding answered
    answered-Reach request source now correlation_id (some refusal) w = Reach.here
    answered-Reach request source now correlation_id none w =
        ingested_body-Reach request source now correlation_id
          (decoded prim settings validators decoders publish source (decoders.loads request.body)) w

    routed-Reach :
        (request : Request) (clock now : ℕ) (correlation_id : String) (source : Option Source)
        (w : World)
        → Reach libs w
            (routed prim settings validators decoders publish request clock now correlation_id
              source w).1
    unfolding routed
    routed-Reach request clock now correlation_id none w = Reach.here
    routed-Reach request clock now correlation_id (some source) w =
        answered-Reach request source now correlation_id
          (stopped_by (verdict_of prim settings request clock source)) w

    -- So is the whole webhook, whatever the request is.
    pub post_webhook-Reach :
        (request : Request) (clock now : ℕ) (correlation_id : String) (w : World)
        → Reach libs w
            (post_webhook prim settings validators decoders publish request clock now correlation_id
              w).1
    unfolding post_webhook
    post_webhook-Reach request clock now correlation_id w =
        routed-Reach request clock now correlation_id (source_or_404 request.source) w
