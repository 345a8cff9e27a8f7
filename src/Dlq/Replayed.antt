-- ===== src/Dlq/Replayed.antt =====
-- What `replay` of src/gateway/dlq/store.py does, with the transport up and down.
use conversion_gateway.Prelude.{
  ◌<>◌, str_of, ℕ, ◌+◌, ◌≡◌, refl, Bool, true, false, none, some, List, [], ◌∷◌, ◌++◌, arith,
}
use conversion_gateway.Models.Status.{status_eq, queued, dead_lettered}
use conversion_gateway.Models.Rows.{Event, DeadLetter}
use conversion_gateway.Models.Message.{no_identifiers, QueueMessage}
use conversion_gateway.Exec.{pure, transaction, continue, World, transport_error, Result, ok, err}
use conversion_gateway.Ledger.{find_event, save_event}
use conversion_gateway.Ledger.Trail.{moved}
use conversion_gateway.Ledger.Transitions.{stepped, transition-allowed, find_event-save_self}
use conversion_gateway.Dlq.{
  find_dead_letter, save_dead_letter, Publisher, accept, refuse, replay_event, replay,
}

-- The event as a replay leaves it, and the dead letter.
abbrev replayed_event : DeadLetter → Event → Event
replayed_event d e = record (moved e queued (some ("replayed:dlq:" <> str_of d.id))) {
  attempt_count = 0;
  last_attempt_at = none;
}

abbrev replayed_letter : DeadLetter → ℕ → DeadLetter
replayed_letter d now = record d { replayed_at = some now; replay_count = d.replay_count + 1 }

abbrev pub replay_message : Event → ℕ → QueueMessage
replay_message e now = record {
  event_id = e.event_id;
  identifiers = no_identifiers;
  enqueued_at = now;
  correlation_id = e.correlation_id;
}

abbrev requeued : DeadLetter → Event → ℕ → World → World
requeued d e now w = stepped e queued (some ("replayed:dlq:" <> str_of d.id)) now w

-- The world just before the message is published.
abbrev pub reset : DeadLetter → Event → ℕ → World → World
reset d e now w = record (requeued d e now w) {
  db = record (requeued d e now w).db {
    events = save_event (replayed_event d e) (requeued d e now w).db.events;
    dead_letters = save_dead_letter (replayed_letter d now) w.db.dead_letters;
  };
}

-- The publisher is called last.
abbrev published_with : Result (Unit {0}) × World → Result Bool × World
published_with r = continue (λ (u : Unit {0}). pure true) r

find_dead_letter-save_self :
    (id : ℕ) (d d' : DeadLetter) (ds : List DeadLetter)
    → find_dead_letter id ds ≡ some d
    → d'.id ≡ id
    → find_dead_letter id (save_dead_letter d' ds) ≡ some d'
unfolding find_dead_letter save_dead_letter
find_dead_letter-save_self id d d' [] found same = cc
find_dead_letter-save_self id d d' (x ∷ ds) found same =
    ground (arith, find_dead_letter-save_self id d d' ds)

-- An open dead letter of a DEAD_LETTERED event.
module _ (d : DeadLetter) (e : Event) (now : ℕ) (w : World)
    (listed : find_dead_letter d.id w.db.dead_letters ≡ some d) (fresh : d.replayed_at ≡ none)
    (found : find_event d.event_id w.db.events ≡ some e) (dead : e.status ≡ dead_lettered) where
  replay_event-runs :
      (publish : Publisher)
      → replay_event publish d now w
        ≡ published_with (publish (replay_message e now) (reset d e now w))
  unfolding replay_event
  replay_event-runs publish =
      let reason = some ("replayed:dlq:" <> str_of d.id) in
      rw (transition-allowed d.event_id queued reason now e w found (rw dead refl))
        (rw (find_event-save_self d.event_id e (moved e queued reason) w.db.events found refl) refl)

  is_dead : status_eq e.status dead_lettered ≡ true
  is_dead = rw dead refl

  replay-runs :
      (publish : Publisher)
      → replay publish d.id now w
        ≡ published_with (publish (replay_message e now) (reset d e now w))
  unfolding replay
  replay-runs publish = rw (listed, fresh, found) (rw is_dead (replay_event-runs publish))

  -- Replaying an open dead letter of a DEAD_LETTERED event, with the transport up, answers true:
  -- the event is QUEUED again with no attempts, the letter has the time and one replay more, and
  -- one message is published, with the event's id and no identifiers.
  replay-accepted :
      replay accept d.id now w
      ≡ (ok true, record (reset d e now w) { published = w.published ++ replay_message e now ∷ [] })
  replay-accepted = rw (replay-runs accept) refl

  -- With the transport down, the same replay raises, and the transaction around it takes everything
  -- back: no event moves and no letter is marked.
  replay-refused : transaction (replay refuse d.id now) w ≡ (err transport_error, w)
  replay-refused = rw (replay-runs refuse) refl

  -- A second replay of a replayed letter, at any time and on any transport, answers false and changes
  -- nothing.
  replay-again :
      (publish : Publisher) (later : ℕ)
      → let w' = (replay accept d.id now w).1 in replay publish d.id later w' ≡ (ok false, w')
  unfolding replay
  replay-again publish later = rw replay-accepted (
      rw (find_dead_letter-save_self d.id d (replayed_letter d now) w.db.dead_letters listed refl)
        refl)

  -- Replaying an open dead letter of a DEAD_LETTERED event, with the transport up, answers true:
  -- the event is QUEUED again with no attempts, the letter has the time and one replay more, and
  -- one message is published, with the event's id and no identifiers. A second replay of the
  -- letter, at any time and on any transport, answers false and changes nothing. With the transport
  -- down, the first replay raises instead, and the transaction around it takes everything back.
  pub replay-once :
      (publish : Publisher) (later : ℕ)
      → let w' = (replay accept d.id now w).1 in
        (replay accept d.id now w ≡ (
          ok true,
          record (reset d e now w) { published = w.published ++ replay_message e now ∷ [] },
        ))
        × (replay publish d.id later w' ≡ (ok false, w'))
        × (transaction (replay refuse d.id now) w ≡ (err transport_error, w))
  replay-once publish later = (replay-accepted, replay-again publish later, replay-refused)
