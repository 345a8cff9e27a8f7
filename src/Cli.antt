-- ===== src/Cli.antt =====
-- The operator's commands that act: `reconcile` and `dlq_replay` of src/gateway/cli.py. What is
-- printed is in Cli/Listing. `now - older_than_seconds` is no time before datetime.min.
pub mod Recoverable
pub mod Listing
pub mod Commands
pub mod Replays
use conversion_gateway.Prelude.{
  if◌then◌else◌, length, is_some, ℕ, ◌+◌, ◌-◌, ◌*◌, String, Bool, false, ◌&&◌, ◌||◌, Option, none,
  some, List, [], ◌∷◌, map, ◌==◌,
}
use conversion_gateway.Models.Status.{match_key_type_value, click_id}
use conversion_gateway.Models.Rows.{Event, DeadLetter}
use conversion_gateway.Models.Message.{no_identifiers, QueueMessage}
use conversion_gateway.Exec.{Exec, pure, transaction, ◌>>=◌, ◌>>◌, for_each}
use conversion_gateway.Ledger.{find_stuck_queued}
use conversion_gateway.Dlq.{list_dead_letters, get_dead_letter, DlqFilter, Publisher, replay}

-- `match_key_type == MatchKeyType.CLICK_ID.value`
abbrev pub is_click_key : Option String → Bool
is_click_key none = false
is_click_key (some key) = key == match_key_type_value click_id

-- The test in the rows that `reconcile` reads.
abbrev pub is_recoverable : Event → Bool
is_recoverable e = is_click_key e.match_key_type || is_some e.hashed_identifiers

abbrev pub bare_message : Event → ℕ → QueueMessage
bare_message e now = record {
  event_id = e.event_id;
  identifiers = no_identifiers;
  enqueued_at = now;
  correlation_id = e.correlation_id;
}

-- One round of the loop over the rows.
unfoldable pub republish_one : Publisher → Bool → ℕ → Event → Exec (Unit {0})
republish_one publish republish now e =
    if is_recoverable e && republish then publish (bare_message e now) else pure tt

unfoldable pub reconcile : Publisher → ℕ → Bool → ℕ → Exec ℕ
unfolding find_stuck_queued republish_one for_each
reconcile publish older_than_seconds republish now = do
  stuck ← find_stuck_queued (now - older_than_seconds * 1000000)
  for_each stuck (republish_one publish republish now)
  pure (length stuck)

-- The candidates of `dlq_replay`: one id, or the open letters that match.
unfoldable pub candidates : DlqFilter → Option ℕ → Exec (List ℕ)
unfolding get_dead_letter list_dead_letters
candidates flt (some id) =
    get_dead_letter id >>= λ found. pure (elim found [ some row ↦ row.id ∷ [] | none ↦ [] ])
candidates flt none =
    list_dead_letters flt 1000 >>= λ rows. pure (map (λ (d : DeadLetter). d.id) rows)

-- The loop: how many were replayed, each in a transaction of its own.
unfoldable pub replay_each : Publisher → ℕ → List ℕ → Exec ℕ
unfolding replay
replay_each publish now [] = pure 0
replay_each publish now (id ∷ ids) = do
  done ← transaction (replay publish id now)
  rest ← replay_each publish now ids
  pure (if done then rest + 1 else rest)

unfoldable pub dlq_replay : Publisher → DlqFilter → Option ℕ → ℕ → Exec ℕ
unfolding candidates replay_each
dlq_replay publish flt dlq_id now = candidates flt dlq_id >>= replay_each publish now
