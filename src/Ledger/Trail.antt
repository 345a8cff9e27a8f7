-- ===== src/Ledger/Trail.antt =====
-- The audit trail: what the transitions of one event say of its state.
use conversion_gateway.Prelude.{
  if◌then◌else◌, ℕ, String, ◌≡◌, refl, Bool, true, ◌&&◌, ◌||◌, Option, none, some, List, [], ◌∷◌,
  ◌++◌, foldl, foldl-append, append_assoc, arith, ◌==◌, eq_iff, eq_refl,
}
use conversion_gateway.Models.Status.{
  status_eq, status_in, allowed_transitions, EventStatus, received, uploading,
}
use conversion_gateway.Models.Rows.{Event, EventTransition}
use conversion_gateway.Exec.{Db, World}
use conversion_gateway.Ledger.{find_event, save_event, insert_event, list_transitions, creation}

-- Where a run through transition rows has come to.
pub data Trail : Type 0 where
  absent : Trail
  at : EventStatus → Trail
  broken : Trail

-- A row is in order if it begins at the state reached, and its step is one of
-- ALLOWED_TRANSITIONS or the claim of a stale UPLOADING row.
abbrev pub in_order : EventStatus → EventStatus → EventStatus → Bool
in_order s from to =
    status_eq from s
    && (status_in to (allowed_transitions s) || (status_eq s uploading && status_eq to uploading))

abbrev pub advance : Trail → EventTransition → Trail
advance absent t = elim t.from_status [
  | none ↦ if status_eq t.to_status received then at received else broken
  | some from ↦ broken
]
advance (at s) t = elim t.from_status [
  | none ↦ broken
  | some from ↦ if in_order s from t.to_status then at t.to_status else broken
]
advance broken t = broken

unfoldable pub trail : List EventTransition → Trail
trail = foldl advance absent

-- What the events table says.
abbrev pub current : Option Event → Trail
current none = absent
current (some e) = at e.status

-- Of every id, the transitions lead from creation to exactly the state that the row holds, and
-- the transitions table has only grown since it was `past`.
pub record IsAudited (past : List EventTransition) (db : Db) : Type 0 where
  pub explained :
      (id : String) → trail (list_transitions id db.transitions) ≡ current (find_event id db.events)
  pub appended : (later : List EventTransition) × (db.transitions ≡ past ++ later)

pub append-later :
    (past ts : List EventTransition) (t : EventTransition)
    → (later : List EventTransition) × (ts ≡ past ++ later)
    → (later : List EventTransition) × (ts ++ t ∷ [] ≡ past ++ later)
append-later past ts t (later, e) = (later ++ t ∷ [], rw e (append_assoc past later (t ∷ [])))

-- The events table under a write, and the transitions under an insertion.
pub find_event-id :
    (id : String) (es : List Event) {e : Event} → find_event id es ≡ some e → e.event_id ≡ id
unfolding find_event
find_event-id id [] h = cc
find_event-id id (x ∷ es) {e} h = ground (arith, eq_iff x.event_id id, find_event-id id es {e = e})

pub find_event-own :
    (id : String) (es : List Event) {e : Event}
    → find_event id es ≡ some e
    → find_event e.event_id es ≡ some e
find_event-own id es {e} h = cc (find_event-id id es {e = e} h)

abbrev replaced : Event → Option Event → Option Event
replaced e none = none
replaced e (some old) = some e

pub find_event-save :
    (id : String) (e : Event) (es : List Event)
    → find_event id (save_event e es)
      ≡ (if e.event_id == id then replaced e (find_event id es) else find_event id es)
unfolding find_event save_event
find_event-save id e [] = ground arith
find_event-save id e (x ∷ es) = ground (
  arith,
  eq_iff x.event_id e.event_id,
  eq_iff x.event_id id,
  eq_iff e.event_id id,
  find_event-save id e es,
)

pub find_event-insert :
    (id : String) (e : Event) (es : List Event)
    → find_event e.event_id es ≡ none
    → find_event id (insert_event e es) ≡ (if e.event_id == id then some e else find_event id es)
unfolding find_event insert_event
find_event-insert id e [] h = refl
find_event-insert id e (x ∷ es) h = ground (
  arith,
  eq_iff x.event_id e.event_id,
  eq_iff x.event_id id,
  eq_iff e.event_id id,
  find_event-insert id e es,
)

pub list_transitions-add :
    (id : String) (ts : List EventTransition) (t : EventTransition)
    → list_transitions id (ts ++ t ∷ [])
      ≡ (if t.event_id == id then list_transitions id ts ++ t ∷ [] else list_transitions id ts)
unfolding list_transitions
list_transitions-add id [] t = ground arith
list_transitions-add id (x ∷ ts) t = ground (arith, list_transitions-add id ts t)

pub trail-add :
    (ts : List EventTransition) (t : EventTransition) → trail (ts ++ t ∷ []) ≡ advance (trail ts) t
unfolding trail
trail-add ts t = rw foldl-append

-- The row and the transition row of a change of state.
abbrev pub moved : Event → EventStatus → Option String → Event
moved e to reason = record e { status = to; status_reason = reason }

abbrev pub step_row : Event → EventStatus → Option String → ℕ → EventTransition
step_row e to reason now = record {
  event_id = e.event_id;
  from_status = some e.status;
  to_status = to;
  reason = reason;
  occurred_at = now;
}

abbrev pub reclaimed : Event → ℕ → EventTransition
reclaimed e now = step_row e e.status (some "reclaimed_stale") now

-- A new row with the transition row that marks its creation.
abbrev pub with_created : Event → ℕ → World → World
with_created row now w = record w {
  db = record w.db {
    events = insert_event row w.db.events;
    transitions = w.db.transitions ++ creation row.event_id now ∷ [];
  };
}

pub in_order-reclaim : (s : EventStatus) → status_eq s uploading ≡ true → in_order s s s ≡ true
in_order-reclaim received h = cc
in_order-reclaim uploading h = refl
in_order-reclaim _ h = cc

-- The row that was just inserted is the one that is read back.
pub found_inserted :
    (row : Event) (es : List Event)
    → find_event row.event_id es ≡ none
    → find_event row.event_id (insert_event row es) ≡ some row
found_inserted row es new = rw (find_event-insert row.event_id row es new, eq_refl row.event_id)
