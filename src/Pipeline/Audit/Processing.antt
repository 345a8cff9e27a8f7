-- ===== src/Pipeline/Audit/Processing.antt =====
-- The audit trail under the worker's and the operator's transactions.
use conversion_gateway.Prelude.{
  Bool-cases, Option-cases, is_blank, ℕ, String, code, refl, inl, inr, false, not, Option, none,
  some, List, [], ◌∷◌,
}
use conversion_gateway.Models.Status.{status_eq, EventStatus, queued, dead_lettered}
use conversion_gateway.Models.Payload.{Conversion}
use conversion_gateway.Models.Rows.{HashedIdentifiers, Event, EventTransition, DeadLetter}
use conversion_gateway.Models.Message.{RawIdentifiers, QueueMessage}
use conversion_gateway.Consent.{
  parse_consent_status, evaluate_consent, ConsentDecision, SuppressionReason,
}
use conversion_gateway.Exec.{pure, or_raise, for_each, World, assertion_error, value_error}
use conversion_gateway.Exec.Keeps.{Keeps, Keeps-bind, Keeps-for_each, Keeps-if, Keeps-or_raise}
use conversion_gateway.Normalise.Libs.{Libs}
use conversion_gateway.Normalise.Identifiers.{FieldRejection}
use conversion_gateway.Ledger.{find_event, transition, record_processed}
use conversion_gateway.Ledger.Trail.{find_event-own}
use conversion_gateway.Ledger.Audit.{
  Audited, save-IsAudited, transition-IsAudited, record_processed-IsAudited,
}
use conversion_gateway.Dlq.{dead_letter, find_dead_letter, Publisher, replay_event, replay}
use conversion_gateway.Processor.{
  read_consent, consent_from_row, suppress, finish, count_rejection, settle, identify, gate,
  process_row, process_message,
}
use conversion_gateway.Upload.Classifier.{FailureClass}
use conversion_gateway.Models.Columns.{code_fits}

module _ (past : List EventTransition) where
  abbrev Ok : World → Type 0
  Ok = Audited past

  pub dead_letter-IsAudited :
      (id : String) (failure_class : FailureClass) (reason : String) (code message : Option String)
      (payload : Conversion) (now : ℕ)
      → Keeps Ok (dead_letter id failure_class reason code message payload now)
  unfolding dead_letter
  dead_letter-IsAudited id failure_class reason code message payload now =
      Keeps-bind Ok (transition id dead_lettered (some reason) now) _
        (transition-IsAudited past id dead_lettered (some reason) now)
        λ _ w h. elim (Option-cases (find_event id w.db.events)) [
          | inl missing ↦ rw missing h
          | inr (e, found) ↦ elim (Bool-cases (code_fits code)) [
            | inl fits ↦
                rw (found, fits) (record { explained = h.explained; appended = h.appended })
            | inr wide ↦ rw (found, wide) h
          ]
        ]

  replay_event-IsAudited :
      (publish : Publisher) (row : DeadLetter) (now : ℕ)
      → ((m : QueueMessage) → Keeps Ok (publish m))
      → Keeps Ok (replay_event publish row now)
  unfolding replay_event
  replay_event-IsAudited publish row now quiet =
      Keeps-bind Ok (transition row.event_id queued _ now) _
        (transition-IsAudited past row.event_id queued _ now)
        λ _ w h. elim (Option-cases (find_event row.event_id w.db.events)) [
          | inl missing ↦ rw missing h
          | inr (e, found) ↦ rw found (
              let saved =
                save-IsAudited past (record e { attempt_count = 0; last_attempt_at = none }) e w
                  (find_event-own row.event_id w.db.events {e = e} found) refl h in
              Keeps-bind Ok (publish _) _ (quiet _) (λ _ w' h'. h') _
                (record { explained = saved.explained; appended = saved.appended }))
        ]

  suppress-IsAudited :
      (e : Event) (reason : SuppressionReason) (now : ℕ) → Keeps Ok (suppress e reason now)
  unfolding suppress
  suppress-IsAudited e reason now =
      Keeps-bind Ok (transition e.event_id EventStatus.suppressed _ now) _
        (transition-IsAudited past e.event_id EventStatus.suppressed _ now)
        λ _ w h. record { explained = h.explained; appended = h.appended }

  finish-IsAudited :
      (e : Event) (hashed : HashedIdentifiers) (now : ℕ) → Keeps Ok (finish e hashed now)
  unfolding finish
  finish-IsAudited e hashed now =
      Keeps-bind Ok (record_processed e.event_id hashed now) _
        (record_processed-IsAudited past e.event_id hashed now) (λ _ w h. h)

  settle-IsAudited :
      (e : Event) (hashed : HashedIdentifiers) (now : ℕ) (rejections : List FieldRejection)
      → Keeps Ok (settle e hashed now rejections)
  unfolding settle
  settle-IsAudited e hashed now [] = finish-IsAudited e hashed now
  settle-IsAudited e hashed now (r ∷ rs) =
      Keeps-bind Ok (transition e.event_id EventStatus.rejected _ now) _
        (transition-IsAudited past e.event_id EventStatus.rejected _ now)
        λ _.
          Keeps-bind Ok (for_each (r ∷ rs) (count_rejection e)) _
            (Keeps-for_each Ok (count_rejection e) (r ∷ rs)
              (λ x w h. record { explained = h.explained; appended = h.appended }))
            (λ _ w h. h)

  pub replay-IsAudited :
      (publish : Publisher) (id now : ℕ)
      → ((m : QueueMessage) → Keeps Ok (publish m))
      → Keeps Ok (replay publish id now)
  unfolding replay
  replay-IsAudited publish id now quiet w h =
      elim (Option-cases (find_dead_letter id w.db.dead_letters)) [
        | inl missing ↦ rw missing h
        | inr (row, found) ↦ rw found (
            Keeps-if Ok _ (pure false) (replay_event publish row now) (λ w' h'. h')
              (replay_event-IsAudited publish row now quiet) w h)
      ]

  module _ (libs : Libs) where
    identify-IsAudited :
        (reuse : Option HashedIdentifiers) (e : Event) (raw : RawIdentifiers) (now : ℕ)
        → Keeps Ok (identify libs reuse e raw now)
    unfolding identify
    identify-IsAudited (some hashed) e raw now = finish-IsAudited e hashed now
    identify-IsAudited none e raw now = settle-IsAudited e _ now _

    gate-IsAudited :
        (d : ConsentDecision) (e : Event) (raw : RawIdentifiers) (now : ℕ)
        → Keeps Ok (gate libs d e raw now)
    unfolding gate
    gate-IsAudited d e raw now = Keeps-if Ok d.permitted _ _ (identify-IsAudited _ e raw now) (
        Keeps-bind Ok (or_raise d.reason assertion_error) _
          (Keeps-or_raise Ok d.reason assertion_error) (λ reason. suppress-IsAudited e reason now))

    read_consent-IsAudited : (text : Option String) → Keeps Ok (read_consent text)
    read_consent-IsAudited none = λ w h. h
    read_consent-IsAudited (some text) =
        Keeps-if Ok (is_blank text) _ _ (λ w h. h)
          (Keeps-bind Ok (or_raise (parse_consent_status text) value_error) _
            (Keeps-or_raise Ok (parse_consent_status text) value_error) (λ _ w h. h))

    process_row-IsAudited :
        (found : Option Event) (raw : RawIdentifiers) (now : ℕ)
        → Keeps Ok (process_row libs found raw now)
    unfolding process_row
    process_row-IsAudited none raw now = λ w h. h
    process_row-IsAudited (some e) raw now =
        Keeps-if Ok (not (status_eq e.status queued)) _ _ (λ w h. h)
          (Keeps-bind Ok (consent_from_row e) _
            (Keeps-bind Ok (read_consent e.consent_ad_user_data) _
              (read_consent-IsAudited e.consent_ad_user_data)
              (λ _.
                Keeps-bind Ok (read_consent e.consent_ad_personalization) _
                  (read_consent-IsAudited e.consent_ad_personalization) (λ _ w h. h)))
            (λ signals. gate-IsAudited (evaluate_consent signals) e raw now))

    pub process_message-IsAudited :
        (message : QueueMessage) (now : ℕ) → Keeps Ok (process_message libs message now)
    unfolding process_message
    process_message-IsAudited message now w =
        process_row-IsAudited (find_event message.event_id w.db.events) message.identifiers now w
