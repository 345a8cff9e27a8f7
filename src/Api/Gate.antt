-- ===== src/Api/Gate.antt =====
-- The webhook of src/gateway/api/routes.py as a whole: what it asks of a request, and what a good
-- one gets.
use conversion_gateway.Api.Ingest
use conversion_gateway.Prelude.{
  Option-cases, ℕ, String, ◌≡◌, refl, sym, ap, ◌∙◌, subst, ◌⊎◌, inl, inr, true, none, some, List,
  [], ◌∷◌, map,
}
use conversion_gateway.Models.Status.{received, validated, queued, Source}
use conversion_gateway.Models.Rows.{Event, EventTransition}
use conversion_gateway.Models.Canonical.{CanonicalLeadEvent}
use conversion_gateway.Exec.{Db, World, Result, ok}
use conversion_gateway.Ledger.{find_event, list_transitions, validated_row}
use conversion_gateway.Ledger.Ingest.{
  queued_row, after_queueing, found_queued, record_validated_runs, record_validated_new,
}
use conversion_gateway.Dlq.{unknown, Publisher}
use conversion_gateway.Upload.Json.{Json}
use conversion_gateway.Api.Signature.{Primitives, Verdict, answer}
use conversion_gateway.Api.Authentic.{IsAuthentic, verify-IsAuthentic}
use conversion_gateway.Api.Ingest.{message_of, accepted_response}
use conversion_gateway.Api.Durable.{correlated, counted, ingest_event-new}
use conversion_gateway.Api.Schemas.{Validators}
use conversion_gateway.Api.Mappers.{parse_and_map, mapped}
use conversion_gateway.Api.Routes.{
  source_or_404, secret_for, stopped_by, verdict_of, post_webhook, transition_response,
  event_response, get_event, ApiSettings, Request, Decoders, TransitionResponse, EventResponse,
  WebhookAnswer, ingested, unauthorized, server_error,
}
use conversion_gateway.Pipeline.{IsQuiet}
use conversion_gateway.Models.Columns.{event_fits}

response_statuses :
    (ts : List EventTransition)
    → map (λ (t : TransitionResponse). t.to_status) (map transition_response ts)
      ≡ map (λ (t : EventTransition). t.to_status) ts
response_statuses [] = refl
response_statuses (t ∷ ts) = ap (◌∷◌ t.to_status) (response_statuses ts)

-- What is shown of an event depends on the database alone.
shows :
    (id : String) (row : Event) (v committed : World)
    → committed.db ≡ v.db
    → find_event id committed.db.events ≡ some row
    → (get_event id v).0
      ≡ ok (some (event_response row (list_transitions id committed.db.transitions)))
unfolding get_event
shows id row v committed same found =
    let present = subst (λ (d : Db). find_event id d.events ≡ some row) same found in
    rw present (
      ap (λ (d : Db). ok (some (event_response row (list_transitions id d.transitions))))
        (sym same))

new_statuses :
    (event : CanonicalLeadEvent) (now : ℕ) (w : World)
    → find_event event.event_id w.db.events ≡ none
    → list_transitions event.event_id w.db.transitions ≡ []
    → event_fits (validated_row event now) ≡ true
    → map
        (λ (t : EventTransition). t.to_status)
        (list_transitions event.event_id (after_queueing event now w).db.transitions)
      ≡ received ∷ validated ∷ queued ∷ []
new_statuses event now w new silent fits =
    let (_, _, statuses) = record_validated_new event now w new silent fits in
    rw (record_validated_runs event now w new fits) at statuses

module _ (prim : Primitives) (settings : ApiSettings) (validators : Validators)
    (decoders : Decoders) (publish : Publisher) where
  -- The request is for a known source and signed under that source's secret.
  abbrev pub IsSigned : Request → ℕ → Type 0
  IsSigned request clock =
      (source : Source) × (timestamp signature : String) × (source_or_404 request.source
        ≡ some source)
      × (request.timestamp_header ≡ some timestamp)
      × (request.signature_header ≡ some signature)
      × IsAuthentic prim (secret_for settings source) timestamp signature request.body clock
          settings.webhook_timestamp_tolerance_seconds

  verdict-cases :
      (v : Verdict) → (v ≡ answer none) ⊎ ((a : WebhookAnswer) × (stopped_by v ≡ some a))
  unfolding stopped_by
  verdict-cases (answer none) = inl refl
  verdict-cases (answer (some failure)) = inr (unauthorized failure, refl)
  verdict-cases _ = inr (server_error, refl)

  -- Whatever is sent to the webhook: either nothing at all changes, neither the ledger nor the
  -- metrics nor the queue, or the source is known, and the request carries a timestamp within the
  -- tolerance and a signature that is the HMAC of that timestamp and the raw body under that
  -- source's own secret.
  pub post_webhook-IsSigned :
      (request : Request) (clock now : ℕ) (correlation_id : String) (w : World)
      → ((post_webhook prim settings validators decoders publish request clock now correlation_id
            w).1
          ≡ w)
        ⊎ IsSigned request clock
  unfolding verdict_of post_webhook
  post_webhook-IsSigned request clock now correlation_id w =
      elim (Option-cases (source_or_404 request.source)) [
        | inl unknown ↦ inl (rw (unknown, post_webhook) refl)
        | inr (source, known) ↦
            elim (verdict-cases (verdict_of prim settings request clock source)) [
              | inr (refusal, stopped) ↦ inl (rw (known, stopped, post_webhook) refl)
              | inl fine ↦
                  let (timestamp, signature, given, signed, authentic) =
                    verify-IsAuthentic prim (secret_for settings source) request.timestamp_header
                      request.signature_header request.body clock
                      settings.webhook_timestamp_tolerance_seconds fine in
                  inr (source, timestamp, signature, known, given, signed, authentic)
            ]
      ]

  post_webhook-accepted :
      (request : Request) (source : Source) (payload : Json) (event : CanonicalLeadEvent)
      (clock now : ℕ) (correlation_id : String) (w : World)
      → source_or_404 request.source ≡ some source
      → verdict_of prim settings request clock source ≡ answer none
      → decoders.loads request.body ≡ some payload
      → parse_and_map validators source payload ≡ mapped event
      → find_event event.event_id w.db.events ≡ none
      → event_fits (validated_row (correlated event correlation_id) now) ≡ true
      → let event' = correlated event correlation_id in
        post_webhook prim settings validators decoders publish request clock now correlation_id w
        ≡ (
          ok (ingested (accepted_response 202 event.event_id queued correlation_id)),
          (publish (message_of event' now correlation_id) (counted event' now w)).1,
        )
  unfolding stopped_by Ingest.ingest post_webhook
  post_webhook-accepted request source payload event clock now correlation_id w known fine read maps
        new fits =
      let (accepted, _) = ingest_event-new publish event now correlation_id w new fits in
      rw (known, fine, read, maps, accepted, post_webhook) refl

  -- A request for a known source that authentication lets through, whose body is JSON that maps to
  -- an event of an id that is new, with values that fit the columns, and with a publisher that
  -- leaves the database alone: the answer is 202 with the event's id, QUEUED and the correlation
  -- id, and `GET /events/{event_id}` then answers with the event, QUEUED, and its transitions
  -- RECEIVED, VALIDATED and QUEUED.
  pub post_webhook-get_event :
      IsQuiet publish
      → (request : Request) (source : Source) (payload : Json) (event : CanonicalLeadEvent)
        (clock now : ℕ) (correlation_id : String) (w : World)
      → source_or_404 request.source ≡ some source
      → verdict_of prim settings request clock source ≡ answer none
      → decoders.loads request.body ≡ some payload
      → parse_and_map validators source payload ≡ mapped event
      → find_event event.event_id w.db.events ≡ none
      → list_transitions event.event_id w.db.transitions ≡ []
      → event_fits (validated_row (correlated event correlation_id) now) ≡ true
      → let after =
          post_webhook prim settings validators decoders publish request clock now correlation_id
            w in
        (after.0 ≡ ok (ingested (accepted_response 202 event.event_id queued correlation_id)))
        × ((shown : EventResponse) × ((get_event event.event_id after.1).0 ≡ ok (some shown))
            × (shown.status ≡ queued)
            × (map (λ (t : TransitionResponse). t.to_status) shown.transitions
                ≡ received ∷ validated ∷ queued ∷ []))
  post_webhook-get_event quiet request source payload event clock now correlation_id w known fine
        read maps new silent fits =
      let event' = correlated event correlation_id in
      let committed = counted event' now w in
      let answers =
        post_webhook-accepted request source payload event clock now correlation_id w known fine
          read maps new fits in
      let kept = quiet (message_of event' now correlation_id) committed in
      let shown =
        event_response (queued_row event' now)
          (list_transitions event.event_id committed.db.transitions) in
      (
        ap (λ o. o.0) answers,
        (
          shown,
          ap (λ (o : Result WebhookAnswer × World). (get_event event.event_id o.1).0) answers
              ∙ shows event.event_id (queued_row event' now) _ committed (sym kept)
                  (found_queued event' now w new),
          refl,
          response_statuses (list_transitions event.event_id committed.db.transitions)
              ∙ new_statuses event' now w new silent fits,
        ),
      )
