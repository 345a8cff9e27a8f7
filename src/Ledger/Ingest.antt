-- ===== src/Ledger/Ingest.antt =====
-- What `record_validated` of src/gateway/ledger.py does for a new event and for a known one.
use conversion_gateway.Prelude.{ℕ, ◌≡◌, refl, true, none, some, [], ◌∷◌, map, eq_refl}
use conversion_gateway.Models.Status.{received, validated, queued}
use conversion_gateway.Models.Rows.{Event, EventTransition}
use conversion_gateway.Models.Canonical.{CanonicalLeadEvent}
use conversion_gateway.Exec.{World, ok}
use conversion_gateway.Ledger.{find_event, list_transitions, validated_row, record_validated}
use conversion_gateway.Ledger.Trail.{list_transitions-add, moved, with_created, found_inserted}
use conversion_gateway.Ledger.Transitions.{stepped, transition-allowed, find_event-save_self}
use conversion_gateway.Models.Columns.{event_fits}

pub record_validated_duplicate :
    (event : CanonicalLeadEvent) (now : ℕ) (old : Event) (w : World)
    → find_event event.event_id w.db.events ≡ some old
    → event_fits (validated_row event now) ≡ true
    → record_validated event now w ≡ (ok none, w)
unfolding record_validated
record_validated_duplicate event now old w found fits = rw (fits, found) refl

-- The row of a newly recorded event.
abbrev pub queued_row : CanonicalLeadEvent → ℕ → Event
queued_row event now = record (validated_row event now) { status = queued }

abbrev after_creation : CanonicalLeadEvent → ℕ → World → World
after_creation event now w = with_created (validated_row event now) now w

abbrev after_validation : CanonicalLeadEvent → ℕ → World → World
after_validation event now w =
    stepped (validated_row event now) validated none now (after_creation event now w)

abbrev validated_step : CanonicalLeadEvent → ℕ → Event
validated_step event now = moved (validated_row event now) validated none

abbrev pub after_queueing : CanonicalLeadEvent → ℕ → World → World
after_queueing event now w =
    stepped (validated_step event now) queued none now (after_validation event now w)

found_validated :
    (event : CanonicalLeadEvent) (now : ℕ) (w : World)
    → find_event event.event_id w.db.events ≡ none
    → find_event event.event_id (after_validation event now w).db.events
      ≡ some (validated_step event now)
found_validated event now w new =
    find_event-save_self event.event_id (validated_row event now) (validated_step event now)
      (after_creation event now w).db.events
      (found_inserted (validated_row event now) w.db.events new) refl

pub found_queued :
    (event : CanonicalLeadEvent) (now : ℕ) (w : World)
    → find_event event.event_id w.db.events ≡ none
    → find_event event.event_id (after_queueing event now w).db.events ≡ some (queued_row event now)
found_queued event now w new =
    find_event-save_self event.event_id (validated_step event now) (queued_row event now)
      (after_validation event now w).db.events (found_validated event now w new) refl

pub record_validated_runs :
    (event : CanonicalLeadEvent) (now : ℕ) (w : World)
    → find_event event.event_id w.db.events ≡ none
    → event_fits (validated_row event now) ≡ true
    → record_validated event now w ≡ (ok (some event.event_id), after_queueing event now w)
unfolding record_validated
record_validated_runs event now w new fits =
    rw (fits, new, found_inserted (validated_row event now) w.db.events new)
      (rw
        (transition-allowed event.event_id validated none now (validated_row event now)
          (after_creation event now w) (found_inserted (validated_row event now) w.db.events new)
          refl)
        (rw
          (transition-allowed event.event_id queued none now (validated_step event now)
            (after_validation event now w) (found_validated event now w new) refl)
          refl))

-- A new event whose row fits its columns is recorded under its id: its row is QUEUED, holds the
-- event's own fields and no identifiers, and its transitions are creation, VALIDATED and QUEUED.
pub record_validated_new :
    (event : CanonicalLeadEvent) (now : ℕ) (w : World)
    → find_event event.event_id w.db.events ≡ none
    → list_transitions event.event_id w.db.transitions ≡ []
    → event_fits (validated_row event now) ≡ true
    → let (r, w') = record_validated event now w in
      (r ≡ ok (some event.event_id))
      × (find_event event.event_id w'.db.events ≡ some (queued_row event now))
      × (map
            (λ (t : EventTransition). t.to_status)
            (list_transitions event.event_id w'.db.transitions)
          ≡ received ∷ validated ∷ queued ∷ [])
record_validated_new event now w new silent fits =
    rw (record_validated_runs event now w new fits)
      (refl, found_queued event now w new, simp (list_transitions-add, silent, eq_refl))
