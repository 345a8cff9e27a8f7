-- ===== src/Cli/Recoverable.antt =====
-- The messages of `reconcile` (src/gateway/cli.py) as the processor takes them.
use conversion_gateway.Prelude.{
  if◌then◌else◌, Bool-cases, is_some, truthy, ℕ, String, ◌≡◌, refl, ap, ◌∙◌, subst, inl, inr, Bool,
  true, false, ◌||◌, Option, none, some, [],
}
use conversion_gateway.Models.Status.{match_key_type_value, queued, click_id, user_identifiers}
use conversion_gateway.Models.Rows.{HashedIdentifiers, Event}
use conversion_gateway.Models.Message.{no_identifiers}
use conversion_gateway.Consent.{evaluate_consent, ConsentSignals}
use conversion_gateway.Consent.FailClosed.{refused_reason}
use conversion_gateway.Exec.{World, ok}
use conversion_gateway.Normalise.Libs.{Libs}
use conversion_gateway.Normalise.Identifiers.{build_user_identifiers}
use conversion_gateway.Ledger.{find_event}
use conversion_gateway.Processor.{
  consent_from_row, counted_rejections, process_message, processed, suppressed,
}
use conversion_gateway.Processor.Decision.{identified, decide, process_message-decide}
use conversion_gateway.Cli.{is_click_key, is_recoverable, bare_message}

only_first : (b : Bool) → (b || false) ≡ true → b ≡ true
only_first true h = refl
only_first false h = h

known_key :
    (e : Event)
    → e.match_key_type
      ≡ some (match_key_type_value (if truthy e.click_id then click_id else user_identifiers))
    → is_recoverable e ≡ true
    → (truthy e.click_id || is_some e.hashed_identifiers) ≡ true
known_key e keyed recoverable = elim (Bool-cases (truthy e.click_id)) [
  | inl given ↦ rw given refl
  | inr absent ↦
      let key = rw absent at keyed in
      rw absent
        (subst (λ k. (is_click_key k || is_some e.hashed_identifiers) ≡ true) key recoverable)
]

module _ (libs : Libs) where
  bare_rejections :
      (click : Option String)
      → truthy click ≡ true
      → counted_rejections click (build_user_identifiers libs no_identifiers).rejections ≡ []
  unfolding build_user_identifiers
  bare_rejections click given = rw given refl

  bare_identified :
      (reuse : Option HashedIdentifiers) (e : Event)
      → (truthy e.click_id || is_some reuse) ≡ true
      → (identified libs reuse e no_identifiers).0 ≡ processed
  bare_identified (some hashed) e known = refl
  bare_identified none e known =
      rw (bare_rejections e.click_id (only_first (truthy e.click_id) known)) refl

  bare_decision :
      (signals : ConsentSignals) (e : Event)
      → (truthy e.click_id || is_some e.hashed_identifiers) ≡ true
      → (decide libs signals e no_identifiers).0
        ≡ (if (evaluate_consent signals).permitted then processed else suppressed)
  bare_decision signals e known = elim (Bool-cases (evaluate_consent signals).permitted) [
    | inl permitted ↦ rw permitted (bare_identified e.hashed_identifiers e known)
    | inr blocked ↦
        let (reason, named, _) = refused_reason signals blocked in rw (blocked, named) refl
  ]

  -- An event that is QUEUED, whose consent columns can be read, whose match key column is what ingest
  -- writes for its click id, and that `reconcile` calls recoverable: the message that `reconcile`
  -- publishes for it is never rejected. It is processed where the gate permits the upload, and
  -- suppressed where it does not.
  pub bare_message-processed :
      (e : Event) (now later : ℕ) (signals : ConsentSignals) (w : World)
      → find_event e.event_id w.db.events ≡ some e
      → e.status ≡ queued
      → consent_from_row e w ≡ (ok signals, w)
      → e.match_key_type
        ≡ some (match_key_type_value (if truthy e.click_id then click_id else user_identifiers))
      → is_recoverable e ≡ true
      → (process_message libs (bare_message e now) later w).0
        ≡ ok (if (evaluate_consent signals).permitted then processed else suppressed)
  bare_message-processed e now later signals w found ready readable keyed recoverable =
      (process_message-decide libs (bare_message e now) later e signals w found ready readable).0
      ∙ ap ok (bare_decision signals e (known_key e keyed recoverable))
