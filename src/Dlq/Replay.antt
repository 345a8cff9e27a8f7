-- ===== src/Dlq/Replay.antt =====
-- `replay`. The queue's publisher is an argument: it puts the message on the transport, or raises.
use conversion_gateway.Prelude.{
  if◌then◌else◌, is_some, ◌<>◌, str_of, ℕ, ◌+◌, Bool, true, false, ◌||◌, not, Option, none, some,
  [], ◌∷◌, ◌++◌,
}
use conversion_gateway.Models.Status.{status_eq, queued, dead_lettered}
use conversion_gateway.Models.Rows.{Event, DeadLetter}
use conversion_gateway.Models.Message.{no_identifiers, QueueMessage}
use conversion_gateway.Exec.{
  Exec, pure, raise, or_raise, ◌>>=◌, ◌>>◌, modify, assertion_error, transport_error, ok,
}
use conversion_gateway.Ledger.{get_event, load, save, transition}
use conversion_gateway.Dlq.Store.{save_dead_letter, get_dead_letter}

abbrev pub Publisher : Type 0
Publisher = QueueMessage → Exec (Unit {0})

-- The transport accepts every message.
abbrev pub accept : Publisher
accept message w = (ok tt, record w { published = w.published ++ message ∷ [] })

-- The transport is down.
abbrev pub refuse : Publisher
refuse message = raise transport_error

-- `event is None or event.status != DEAD_LETTERED`
abbrev not_dead_lettered : Option Event → Bool
not_dead_lettered none = true
not_dead_lettered (some event) = not (status_eq event.status dead_lettered)

unfoldable load_dead_letter : ℕ → Exec DeadLetter
unfolding get_dead_letter
load_dead_letter id = get_dead_letter id >>= λ found. or_raise found assertion_error

unfoldable write_dead_letter : DeadLetter → Exec (Unit {0})
unfolding save_dead_letter
write_dead_letter d =
    modify
      (λ w. record w { db = record w.db { dead_letters = save_dead_letter d w.db.dead_letters } })

-- What `replay` does once both tests have passed.
unfoldable pub replay_event : Publisher → DeadLetter → ℕ → Exec Bool
unfolding transition load save write_dead_letter
replay_event publish row now = do
  transition row.event_id queued (some ("replayed:dlq:" <> str_of row.id)) now
  event ← load row.event_id
  save (record event { attempt_count = 0; last_attempt_at = none })
  write_dead_letter (record row { replayed_at = some now; replay_count = row.replay_count + 1 })
  publish (record {
    event_id = event.event_id;
    identifiers = no_identifiers;
    enqueued_at = now;
    correlation_id = event.correlation_id;
  })
  pure true

unfoldable pub replay : Publisher → ℕ → ℕ → Exec Bool
unfolding load_dead_letter get_event replay_event
replay publish id now = do
  row ← load_dead_letter id
  found ← get_event row.event_id
  if is_some row.replayed_at || not_dead_lettered found
      then pure false
      else replay_event publish row now
