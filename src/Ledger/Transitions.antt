-- ===== src/Ledger/Transitions.antt =====
-- What `transition` of src/gateway/ledger.py does, by the state that it finds.
use conversion_gateway.Prelude.{
  ℕ, String, ◌≡◌, refl, ◌≢◌, true, false, Option, some, List, [], ◌∷◌, ◌++◌, arith, eq_iff,
}
use conversion_gateway.Models.Status.{status_in, allowed_transitions, EventStatus}
use conversion_gateway.Models.Rows.{Event}
use conversion_gateway.Exec.{World, illegal_transition, ok, err}
use conversion_gateway.Ledger.{find_event, save_event, transition}
use conversion_gateway.Ledger.Trail.{find_event-id, find_event-save, moved, step_row}

-- The world after a transition of the row `e`.
abbrev pub stepped : Event → EventStatus → Option String → ℕ → World → World
stepped e to reason now w = record w {
  db = record w.db {
    events = save_event (moved e to reason) w.db.events;
    transitions = w.db.transitions ++ step_row e to reason now ∷ [];
  };
}

pub transition-allowed :
    (id : String) (to : EventStatus) (reason : Option String) (now : ℕ) (e : Event) (w : World)
    → find_event id w.db.events ≡ some e
    → status_in to (allowed_transitions e.status) ≡ true
    → transition id to reason now w ≡ (ok tt, stepped e to reason now w)
unfolding transition
transition-allowed id to reason now e w found fine = rw (found, fine) refl

-- A transition that ALLOWED_TRANSITIONS does not list raises IllegalTransition and changes nothing.
pub transition-refused :
    (id : String) (to : EventStatus) (reason : Option String) (now : ℕ) (e : Event) (w : World)
    → find_event id w.db.events ≡ some e
    → status_in to (allowed_transitions e.status) ≡ false
    → transition id to reason now w ≡ (err (illegal_transition e.event_id e.status to), w)
unfolding transition
transition-refused id to reason now e w found not_listed = rw (found, not_listed) refl

-- The row that is read back after a write of it.
pub find_event-save_self :
    (id : String) (e e' : Event) (es : List Event)
    → find_event id es ≡ some e
    → e'.event_id ≡ e.event_id
    → find_event id (save_event e' es) ≡ some e'
find_event-save_self id e e' es found same =
    ground
      (arith, find_event-save id e' es, find_event-id id es {e = e} found, eq_iff e'.event_id id)

-- The row of another event.
pub find_event-save_ne :
    (id : String) (e : Event) (es : List Event)
    → e.event_id ≢ id
    → find_event id (save_event e es) ≡ find_event id es
find_event-save_ne id e es other = ground (arith, find_event-save id e es, eq_iff e.event_id id)
