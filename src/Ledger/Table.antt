-- ===== src/Ledger/Table.antt =====
-- The events table by primary key, and the transitions of one event.
use conversion_gateway.Prelude.{
  if◌then◌else◌, select, String, Option, none, some, List, [], ◌∷◌, ◌++◌, ◌==◌,
}
use conversion_gateway.Models.Rows.{Event, EventTransition}
use conversion_gateway.Exec.{Exec, gets, or_raise, ◌>>=◌, modify, key_error}

-- `session.get(Event, event_id)` on the rows of the table
unfoldable pub find_event : String → List Event → Option Event
find_event id [] = none
find_event id (e ∷ es) = if e.event_id == id then some e else find_event id es

-- A write of an object's attributes, flushed to its row.
unfoldable pub save_event : Event → List Event → List Event
save_event e [] = []
save_event e (x ∷ xs) = if x.event_id == e.event_id then e ∷ xs else x ∷ save_event e xs

unfoldable pub insert_event : Event → List Event → List Event
insert_event e [] = e ∷ []
insert_event e (x ∷ xs) = x ∷ insert_event e xs

-- `list_transitions`: the rows come in the order of their ids, which is the order of insertion.
unfoldable pub list_transitions : String → List EventTransition → List EventTransition
list_transitions id ts = select (λ t. t.event_id == id) ts

-- `get_event`
unfoldable pub get_event : String → Exec (Option Event)
unfolding find_event
get_event id = gets (λ w. find_event id w.db.events)

-- A read of an attribute of a loaded object.
unfoldable pub load : String → Exec Event
unfolding get_event
load id = get_event id >>= λ found. or_raise found key_error

unfoldable pub save : Event → Exec (Unit {0})
unfolding save_event
save e = modify (λ w. record w { db = record w.db { events = save_event e w.db.events } })

-- `session.add(EventTransition(…))`
unfoldable pub add_transition : EventTransition → Exec (Unit {0})
add_transition t =
    modify (λ w. record w { db = record w.db { transitions = w.db.transitions ++ t ∷ [] } })
