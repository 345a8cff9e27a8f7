-- ===== src/Processor/Gated.antt =====
-- The consent columns: what ingest writes there and what src/gateway/processor.py reads, and when
-- an event is processed.
use conversion_gateway.Prelude.{
  Bool-cases, Option-cases, is_blank, ℕ, String, ◌≡◌, refl, sym, ap, ◌∙◌, ◌⊎◌, inl, inr, true,
  false, Option, none, some,
}
use conversion_gateway.Models.Status.{status_eq, eq_of_status_eq, queued}
use conversion_gateway.Models.Rows.{Event}
use conversion_gateway.Models.Message.{RawIdentifiers, QueueMessage}
use conversion_gateway.Models.Canonical.{CanonicalLeadEvent}
use conversion_gateway.Consent.{
  parse_consent_status, evaluate_consent, ConsentSignals, ConsentStatus, granted, denied,
  unspecified,
}
use conversion_gateway.Consent.FailClosed.{permitted_iff, refused_reason}
use conversion_gateway.Exec.{World, value_error, Result, ok, err}
use conversion_gateway.Normalise.Libs.{Libs}
use conversion_gateway.Ledger.{find_event, consent_value, validated_row}
use conversion_gateway.Ledger.Trail.{find_event-own}
use conversion_gateway.Processor.{
  read_consent, consent_from_row, process_row, process_message, processed, skipped_not_queued,
  skipped_unknown_event,
}
use conversion_gateway.Processor.Decision.{decide, is_ready, process_row-Decides}

-- What the consent columns read as: the text of the two signals, or an error that stops the message.
read_consent-cases :
    (text : Option String) (w : World)
    → ((s : Option ConsentStatus) × (read_consent text w ≡ (ok s, w)))
      ⊎ (read_consent text w ≡ (err value_error, w))
read_consent-cases none w = inl (none, refl)
read_consent-cases (some text) w = elim (Bool-cases (is_blank text)) [
  | inl blank ↦ inl (none, rw blank refl)
  | inr filled ↦ elim (Option-cases (parse_consent_status text)) [
    | inl unknown_text ↦ inr (rw (filled, unknown_text) refl)
    | inr (s, known) ↦ inl (some s, rw (filled, known) refl)
  ]
]

consent_from_row-cases :
    (e : Event) (w : World)
    → ((signals : ConsentSignals) × (consent_from_row e w ≡ (ok signals, w)))
      ⊎ (consent_from_row e w ≡ (err value_error, w))
unfolding consent_from_row
consent_from_row-cases e w = elim (read_consent-cases e.consent_ad_user_data w) [
  | inr bad ↦ inr (rw bad refl)
  | inl (a, readable) ↦ elim (read_consent-cases e.consent_ad_personalization w) [
    | inr bad ↦ inr (rw (readable, bad) refl)
    | inl (p, also) ↦
        inl (record { ad_user_data = a; ad_personalization = p }, rw (readable, also) refl)
  ]
]

read_consent-value :
    (s : Option ConsentStatus) (w : World) → read_consent (consent_value s) w ≡ (ok s, w)
read_consent-value none w = refl
read_consent-value (some granted) w = refl
read_consent-value (some denied) w = refl
read_consent-value (some unspecified) w = refl

-- Reading the consent columns of the row that ingest wrote gives back the event's own signals,
-- whatever they are, and changes nothing.
pub consent_from_row-validated_row :
    (event : CanonicalLeadEvent) (now : ℕ) (w : World)
    → consent_from_row (validated_row event now) w ≡ (ok event.consent, w)
unfolding consent_from_row
consent_from_row-validated_row event now w =
    rw
      (
        read_consent-value event.consent.ad_user_data w,
        read_consent-value event.consent.ad_personalization w,
      )
      refl

-- Both consent columns of the row read as GRANTED.
abbrev pub ReadsGranted : Event → World → Type 0
ReadsGranted e w =
    consent_from_row e w
    ≡ (ok (record { ad_user_data = some granted; ad_personalization = some granted }), w)

same_ok : {A : Type 0} {x y : A} {r : Result A} → r ≡ ok x → r ≡ ok y → x ≡ y
same_ok h k = cc

both_granted :
    (a p : Option ConsentStatus)
    → a ≡ some granted
    → p ≡ some granted
    → Path ConsentSignals
        (record { ad_user_data = a; ad_personalization = p })
        (record { ad_user_data = some granted; ad_personalization = some granted })
both_granted a p ha hp = rw (ha, hp) refl

module _ (libs : Libs) where
  -- A decision to process has both signals.
  decide-granted :
      (signals : ConsentSignals) (e : Event) (raw : RawIdentifiers)
      → (decide libs signals e raw).0 ≡ processed
      → (signals.ad_user_data ≡ some granted) × (signals.ad_personalization ≡ some granted)
  decide-granted signals e raw outcome = elim (Bool-cases (evaluate_consent signals).permitted) [
    | inl permitted ↦ (permitted_iff signals).0 permitted
    | inr blocked ↦ let (reason, named, _) = refused_reason signals blocked in cc
  ]

  unreadable-raises :
      (raw : RawIdentifiers) (now : ℕ) (e : Event) (w : World)
      → e.status ≡ queued
      → consent_from_row e w ≡ (err value_error, w)
      → process_row libs (some e) raw now w ≡ (err value_error, w)
  unfolding process_row
  unreadable-raises raw now e w ready unreadable = rw (is_ready libs e ready, unreadable) refl

  processed-granted_row :
      (raw : RawIdentifiers) (now : ℕ) (e : Event) (w : World)
      → find_event e.event_id w.db.events ≡ some e
      → e.status ≡ queued
      → (process_row libs (some e) raw now w).0 ≡ ok processed
      → ReadsGranted e w
  processed-granted_row raw now e w found ready outcome = elim (consent_from_row-cases e w) [
    | inl (signals, readable) ↦
        let (done, _) = process_row-Decides libs raw now e signals w found ready readable in
        let (a, p) = decide-granted signals e raw (same_ok done outcome) in
        readable
        ∙ ap (λ s. (ok s, w)) (both_granted signals.ad_user_data signals.ad_personalization a p)
    | inr unreadable ↦ cc (unreadable-raises raw now e w ready unreadable)
  ]

  row_skipped :
      (e : Event) (raw : RawIdentifiers) (now : ℕ) (w : World)
      → status_eq e.status queued ≡ false
      → process_row libs (some e) raw now w ≡ (ok skipped_not_queued, w)
  unfolding process_row
  row_skipped e raw now w moved_on = rw moved_on refl

  row_queued :
      (e : Event) (raw : RawIdentifiers) (now : ℕ) (w : World)
      → (process_row libs (some e) raw now w).0 ≡ ok processed
      → status_eq e.status queued ≡ true
  row_queued e raw now w outcome = elim (Bool-cases (status_eq e.status queued)) [
    | inl ready ↦ ready
    | inr moved_on ↦ cc (row_skipped e raw now w moved_on)
  ]

  unknown_row :
      (raw : RawIdentifiers) (now : ℕ) (w : World)
      → process_row libs none raw now w ≡ (ok skipped_unknown_event, w)
  unfolding process_row
  unknown_row raw now w = refl

  row_of :
      (message : QueueMessage) (now : ℕ) (found : Option Event) (w : World)
      → find_event message.event_id w.db.events ≡ found
      → process_message libs message now w ≡ process_row libs found message.identifiers now w
  unfolding process_message
  row_of message now found w h = rw h refl

  -- Whenever `process_message` answers PROCESSED, the message's event was on the ledger, QUEUED, and
  -- its two consent columns both read as GRANTED.
  pub processed-granted :
      (message : QueueMessage) (now : ℕ) (w : World)
      → (process_message libs message now w).0 ≡ ok processed
      → (e : Event) × (find_event message.event_id w.db.events ≡ some e)
        × (e.status ≡ queued)
        × ReadsGranted e w
  processed-granted message now w outcome =
      elim (Option-cases (find_event message.event_id w.db.events)) [
        | inl missing ↦
            cc (row_of message now none w missing, unknown_row message.identifiers now w)
        | inr (e, found) ↦
            let own = find_event-own message.event_id w.db.events {e = e} found in
            let row_outcome = ap (λ r. r.0) (sym (row_of message now (some e) w found)) ∙ outcome in
            let is_queued = row_queued e message.identifiers now w row_outcome in
            let ready = eq_of_status_eq e.status queued is_queued in
            (
              e,
              found,
              ready,
              processed-granted_row message.identifiers now e w own ready row_outcome,
            )
      ]
