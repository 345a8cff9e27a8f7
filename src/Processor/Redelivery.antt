-- ===== src/Processor/Redelivery.antt =====
-- Messages for an event after its first one, and the first message after ingest:
-- src/gateway/processor.py.
use conversion_gateway.Prelude.{
  Bool-cases, ℕ, ◌≡◌, refl, ap, ◌∙◌, inl, inr, true, false, Option, none, some, List, [], ◌∷◌,
}
use conversion_gateway.Models.Status.{status_eq, queued}
use conversion_gateway.Models.Rows.{HashedIdentifiers, Event}
use conversion_gateway.Models.Message.{RawIdentifiers, QueueMessage}
use conversion_gateway.Models.Canonical.{CanonicalLeadEvent}
use conversion_gateway.Consent.{evaluate_consent, ConsentSignals}
use conversion_gateway.Consent.FailClosed.{refused_reason}
use conversion_gateway.Exec.{World, ok}
use conversion_gateway.Normalise.Libs.{Libs}
use conversion_gateway.Normalise.Identifiers.{build_user_identifiers, FieldRejection}
use conversion_gateway.Ledger.{find_event, validated_row, record_validated}
use conversion_gateway.Ledger.Ingest.{
  queued_row, after_queueing, found_queued, record_validated_runs,
}
use conversion_gateway.Processor.{
  consent_from_row, counted_rejections, reusable, process_row, process_message, skipped_not_queued,
}
use conversion_gateway.Processor.Decision.{settled, identified, decide, process_message-decide}
use conversion_gateway.Processor.Gated.{consent_from_row-validated_row}
use conversion_gateway.Models.Columns.{event_fits}

module _ (libs : Libs) where
  skipped :
      (message : QueueMessage) (now : ℕ) (e : Event) (w : World)
      → find_event message.event_id w.db.events ≡ some e
      → status_eq e.status queued ≡ false
      → process_message libs message now w ≡ (ok skipped_not_queued, w)
  unfolding process_message process_row
  skipped message now e w found moved_on = rw (found, moved_on) refl

  settled-moved :
      (e : Event) (hashed : HashedIdentifiers) (rs : List FieldRejection)
      → status_eq (settled e hashed rs).1.status queued ≡ false
  settled-moved e hashed [] = refl
  settled-moved e hashed (r ∷ rs) = refl

  identified-moved :
      (reuse : Option HashedIdentifiers) (e : Event) (raw : RawIdentifiers)
      → status_eq (identified libs reuse e raw).1.status queued ≡ false
  identified-moved (some hashed) e raw = refl
  identified-moved none e raw =
      let result = build_user_identifiers libs raw in
      settled-moved e result.identifiers (counted_rejections e.click_id result.rejections)

  -- Every decision takes the event out of QUEUED.
  decide-moved :
      (signals : ConsentSignals) (e : Event) (raw : RawIdentifiers)
      → status_eq (decide libs signals e raw).1.status queued ≡ false
  decide-moved signals e raw = elim (Bool-cases (evaluate_consent signals).permitted) [
    | inl permitted ↦ rw permitted (identified-moved (reusable raw e.hashed_identifiers) e raw)
    | inr blocked ↦
        let (reason, named, _) = refused_reason signals blocked in rw (blocked, named) refl
  ]

  -- A message for a QUEUED event with readable consent columns, processed at `now`, leaves a world in
  -- which any further message for that event, whatever it carries, is skipped and changes nothing.
  pub process_message-again :
      (message again : QueueMessage) (now later : ℕ) (e : Event) (signals : ConsentSignals)
      (w : World)
      → find_event message.event_id w.db.events ≡ some e
      → e.status ≡ queued
      → consent_from_row e w ≡ (ok signals, w)
      → again.event_id ≡ message.event_id
      → process_message libs again later (process_message libs message now w).1
        ≡ (ok skipped_not_queued, (process_message libs message now w).1)
  process_message-again message again now later e signals w found ready readable same =
      let after = (process_message libs message now w).1 in
      let (_, left_row) =
        process_message-decide libs message now e signals w found ready readable in
      skipped again later (decide libs signals e message.identifiers).1 after
        (ap (λ id. find_event id after.db.events) same ∙ left_row)
        (decide-moved signals e message.identifiers)

  -- A new event, with values that fit the columns, that ingest records at `now` and whose message
  -- is then processed gets the outcome and the row that `decide` gives for the event's own consent
  -- signals.
  pub record_validated-process :
      (event : CanonicalLeadEvent) (message : QueueMessage) (now later : ℕ) (w : World)
      → find_event event.event_id w.db.events ≡ none
      → message.event_id ≡ event.event_id
      → event_fits (validated_row event now) ≡ true
      → let recorded = (record_validated event now w).1 in
        let w' = process_message libs message later recorded in
        (w'.0 ≡ ok (decide libs event.consent (queued_row event now) message.identifiers).0)
        × (find_event message.event_id w'.1.db.events
            ≡ some (decide libs event.consent (queued_row event now) message.identifiers).1)
  unfolding consent_from_row
  record_validated-process event message now later w new same fits =
      let after = after_queueing event now w in
      rw (record_validated_runs event now w new fits) (
        process_message-decide libs message later (queued_row event now) event.consent after
          (ap (λ id. find_event id after.db.events) same ∙ found_queued event now w new) refl
          (consent_from_row-validated_row event now after))
