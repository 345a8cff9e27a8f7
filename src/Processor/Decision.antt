-- ===== src/Processor/Decision.antt =====
-- What the processor (src/gateway/processor.py) decides for a queued event, as a function without
-- the database: the outcome and the row that the event is left with.
use conversion_gateway.Models.Status
use conversion_gateway.Prelude.{
  if◌then◌else◌, Bool-cases, ℕ, ◌≡◌, refl, sym, inl, inr, true, Option, none, some, List, [], ◌∷◌,
}
use conversion_gateway.Models.Status.{status_eq, queued}
use conversion_gateway.Models.Rows.{HashedIdentifiers, Event}
use conversion_gateway.Models.Message.{RawIdentifiers, QueueMessage}
use conversion_gateway.Consent.{
  suppression_reason_value, evaluate_consent, ConsentSignals, ConsentDecision, SuppressionReason,
}
use conversion_gateway.Consent.FailClosed.{refused_reason}
use conversion_gateway.Exec.{Exec, for_each, World, Metric, events_rejected_total, ok}
use conversion_gateway.Normalise.Libs.{Libs}
use conversion_gateway.Normalise.Identifiers.{build_user_identifiers, FieldRejection}
use conversion_gateway.Ledger.{find_event, save_event}
use conversion_gateway.Dlq.{unknown}
use conversion_gateway.Ledger.Trail.{find_event-id, find_event-own, moved}
use conversion_gateway.Ledger.Transitions.{stepped, transition-allowed, find_event-save_self}
use conversion_gateway.Processor.{
  consent_from_row, counted_rejections, rejection_summary, suppress, finish, count_rejection,
  settle, reusable, identify, gate, process_row, process_message, ProcessOutcome, processed,
  suppressed, rejected, skipped_not_queued,
}
use conversion_gateway.Normalise.Fields.{rejection_value}

abbrev pub Decision : Type 0
Decision = ProcessOutcome × Event

abbrev processed_as : Event → HashedIdentifiers → Decision
processed_as e hashed =
    (processed, moved (record e { hashed_identifiers = some hashed }) Status.processed none)

abbrev pub settled : Event → HashedIdentifiers → List FieldRejection → Decision
settled e hashed [] = processed_as e hashed
settled e hashed (r ∷ rs) = (rejected, moved e Status.rejected (some (rejection_summary (r ∷ rs))))

module _ (libs : Libs) where
  abbrev pub identified : Option HashedIdentifiers → Event → RawIdentifiers → Decision
  identified (some hashed) e raw = processed_as e hashed
  identified none e raw =
      let result = build_user_identifiers libs raw in
      settled e result.identifiers (counted_rejections e.click_id result.rejections)

  abbrev gated : ConsentDecision → Event → RawIdentifiers → Decision
  gated d e raw =
      if d.permitted then identified (reusable raw e.hashed_identifiers) e raw else elim d.reason [
        | some reason ↦
            (suppressed, moved e Status.suppressed (some (suppression_reason_value reason)))
        | none ↦ (skipped_not_queued, e)
      ]

  -- The gate first, then the digests on the row or the normalised identifiers.
  abbrev pub decide : ConsentSignals → Event → RawIdentifiers → Decision
  decide signals e raw = gated (evaluate_consent signals) e raw

-- The action returns the decision's outcome and leaves its row.
abbrev Decides : Event → Decision → Exec ProcessOutcome → World → Type 0
Decides e d m w = ((m w).0 ≡ ok d.0) × (find_event e.event_id (m w).1.db.events ≡ some d.1)

abbrev with_digests : Event → HashedIdentifiers → Event
with_digests e hashed = record e { hashed_identifiers = some hashed }

abbrev digests_saved : Event → HashedIdentifiers → World → World
digests_saved e hashed w = record w {
  db = record w.db { events = save_event (with_digests e hashed) w.db.events };
}

found_digests :
    (e : Event) (hashed : HashedIdentifiers) (w : World)
    → find_event e.event_id w.db.events ≡ some e
    → find_event e.event_id (digests_saved e hashed w).db.events ≡ some (with_digests e hashed)
found_digests e hashed w found =
    find_event-save_self e.event_id e (with_digests e hashed) w.db.events found refl

finish-Decides :
    (e : Event) (hashed : HashedIdentifiers) (now : ℕ) (w : World)
    → find_event e.event_id w.db.events ≡ some e
    → e.status ≡ queued
    → Decides e (processed_as e hashed) (finish e hashed now) w
unfolding finish
finish-Decides e hashed now w found ready = rw found (
    rw
      (transition-allowed e.event_id Status.processed none now (with_digests e hashed)
        (digests_saved e hashed w) (found_digests e hashed w found) (rw ready refl))
      (
        refl,
        find_event-save_self e.event_id (with_digests e hashed)
            (moved (with_digests e hashed) Status.processed none)
            (digests_saved e hashed w).db.events (found_digests e hashed w found) refl,
      ))

count_rejections :
    (e : Event) (rs : List FieldRejection) (w : World)
    → (ms : List Metric) × (for_each rs (count_rejection e) w ≡ (ok tt, record w { metrics = ms }))
unfolding for_each count_rejection
count_rejections e [] w = (w.metrics, refl)
count_rejections e (r ∷ rs) w = count_rejections e rs (record w {
  metrics =
      events_rejected_total e.source (unknown e.conversion_action) (rejection_value r.reason)
      ∷ w.metrics;
})

settle-Decides :
    (e : Event) (hashed : HashedIdentifiers) (now : ℕ) (rs : List FieldRejection) (w : World)
    → find_event e.event_id w.db.events ≡ some e
    → e.status ≡ queued
    → Decides e (settled e hashed rs) (settle e hashed now rs) w
unfolding settle
settle-Decides e hashed now [] w found ready = finish-Decides e hashed now w found ready
settle-Decides e hashed now (r ∷ rs) w found ready =
    let reason = some (rejection_summary (r ∷ rs)) in
    let after = stepped e Status.rejected reason now w in
    let (ms, counted) = count_rejections e (r ∷ rs) after in
    rw (transition-allowed e.event_id Status.rejected reason now e w found (rw ready refl)) (
      rw counted (
        refl,
        find_event-save_self e.event_id e (moved e Status.rejected reason) w.db.events found refl,
      ))

suppress-Decides :
    (e : Event) (reason : SuppressionReason) (now : ℕ) (w : World)
    → find_event e.event_id w.db.events ≡ some e
    → e.status ≡ queued
    → Decides e
        (suppressed, moved e Status.suppressed (some (suppression_reason_value reason)))
        (suppress e reason now)
        w
unfolding suppress
suppress-Decides e reason now w found ready =
    let text = some (suppression_reason_value reason) in
    rw (transition-allowed e.event_id Status.suppressed text now e w found (rw ready refl)) (
      refl,
      find_event-save_self e.event_id e (moved e Status.suppressed text) w.db.events found refl,
    )

module _ (libs : Libs) where
  identify-Decides :
      (reuse : Option HashedIdentifiers) (e : Event) (raw : RawIdentifiers) (now : ℕ) (w : World)
      → find_event e.event_id w.db.events ≡ some e
      → e.status ≡ queued
      → Decides e (identified libs reuse e raw) (identify libs reuse e raw now) w
  unfolding identify
  identify-Decides (some hashed) e raw now w found ready = finish-Decides e hashed now w found ready
  identify-Decides none e raw now w found ready =
      let result = build_user_identifiers libs raw in
      settle-Decides e result.identifiers now (counted_rejections e.click_id result.rejections) w
        found ready

  gate-Decides :
      (signals : ConsentSignals) (e : Event) (raw : RawIdentifiers) (now : ℕ) (w : World)
      → find_event e.event_id w.db.events ≡ some e
      → e.status ≡ queued
      → Decides e (decide libs signals e raw) (gate libs (evaluate_consent signals) e raw now) w
  unfolding gate
  gate-Decides signals e raw now w found ready =
      elim (Bool-cases (evaluate_consent signals).permitted) [
        | inl permitted ↦
            rw permitted
              (identify-Decides (reusable raw e.hashed_identifiers) e raw now w found ready)
        | inr blocked ↦
            let (reason, named, _) = refused_reason signals blocked in
            rw (blocked, named) (suppress-Decides e reason now w found ready)
      ]

  pub is_ready : (e : Event) → e.status ≡ queued → status_eq e.status queued ≡ true
  is_ready e ready = rw ready refl

  pub process_row-Decides :
      (raw : RawIdentifiers) (now : ℕ) (e : Event) (signals : ConsentSignals) (w : World)
      → find_event e.event_id w.db.events ≡ some e
      → e.status ≡ queued
      → consent_from_row e w ≡ (ok signals, w)
      → Decides e (decide libs signals e raw) (process_row libs (some e) raw now) w
  unfolding process_row
  process_row-Decides raw now e signals w found ready readable =
      rw (is_ready e ready, readable) ((gate-Decides signals e raw now w found ready))

  -- For a QUEUED event whose consent columns can be read, `process_message` returns without raising:
  -- its outcome and the row that it leaves are those of `decide` on the consent signals, the row and
  -- the message's identifiers.
  pub process_message-decide :
      (message : QueueMessage) (now : ℕ) (e : Event) (signals : ConsentSignals) (w : World)
      → find_event message.event_id w.db.events ≡ some e
      → e.status ≡ queued
      → consent_from_row e w ≡ (ok signals, w)
      → ((process_message libs message now w).0 ≡ ok (decide libs signals e message.identifiers).0)
        × (find_event message.event_id (process_message libs message now w).1.db.events
            ≡ some (decide libs signals e message.identifiers).1)
  unfolding process_message
  process_message-decide message now e signals w found ready readable =
      let same = find_event-id message.event_id w.db.events {e = e} found in
      let own = find_event-own message.event_id w.db.events {e = e} found in
      rw found
        (rw (sym same) (process_row-Decides message.identifiers now e signals w own ready readable))
