-- ===== src/Examples/Operator.antt =====
-- The worker's answers and the operator's reconciliation at work.
use conversion_gateway.Models.Status
use conversion_gateway.Prelude.{if◌then◌else◌, ◌≡◌, refl, false, none, some, [], ◌∷◌}
use conversion_gateway.Models.Status.{queued}
use conversion_gateway.Models.Rows.{Event}
use conversion_gateway.Models.Message.{QueueMessage}
use conversion_gateway.Consent.{evaluate_consent}
use conversion_gateway.Exec.{World, ok}
use conversion_gateway.Ledger.{find_event}
use conversion_gateway.Dlq.{DlqFilter, accept}
use conversion_gateway.Queue.{Delivery, Codec, MemoryQueue}
use conversion_gateway.Processor.{consent_from_row, process_message, processed, suppressed}
use conversion_gateway.Cli.{bare_message}
use conversion_gateway.Cli.Recoverable.{bare_message-processed}
use conversion_gateway.Cli.Replays.{RefusedOrReplayed, dlq_replay_cmd-RefusedOrReplayed}
use conversion_gateway.Examples.Data.{
  plain_libs, both_given, lead_message, row_in, world_of, dead_row,
}
use conversion_gateway.Cli.Commands.{dlq_replay_cmd, FilterOptions}

-- An event with a click id, as ingest writes it.
abbrev clicked : Event
clicked = record (row_in queued) { click_id = some "g1"; match_key_type = some "click_id" }

abbrev stuck : World
stuck = world_of (clicked ∷ []) []

stuck_found : find_event "e1" stuck.db.events ≡ some clicked
unfolding find_event
stuck_found = refl

stuck_readable : consent_from_row clicked stuck ≡ (ok both_given, stuck)
unfolding consent_from_row
stuck_readable = refl

bare_message-processed_example :
    (process_message plain_libs (bare_message clicked 50) 60 stuck).0
    ≡ ok (if (evaluate_consent both_given).permitted then processed else suppressed)
bare_message-processed_example =
    bare_message-processed plain_libs clicked 50 60 both_given stuck stuck_found refl stuck_readable
      refl refl

abbrev held_delivery : Delivery
held_delivery = record { ack_id = 0; message = lead_message; attempt = 1 }

abbrev plain_codec : Codec QueueMessage
plain_codec = record { to_bytes = λ m. m; from_bytes = λ m. some m }

abbrev one_held : MemoryQueue QueueMessage
one_held = record { ready = []; inflight = (0, (lead_message, 1)) ∷ []; next_ack = 1 }

abbrev everything : DlqFilter
everything = record {
  event_id = none;
  source = none;
  failure_class = none;
  reason_prefix = none;
  since = none;
  until = none;
  include_replayed = false;
}

abbrev one_dead : World
one_dead = world_of (row_in Status.dead_lettered ∷ []) (dead_row ∷ [])

-- Every option is left out.
abbrev no_options : FilterOptions
no_options = record {
  source = none;
  failure_class = none;
  reason = none;
  since = none;
  until = none;
}

dlq_replay_cmd-RefusedOrReplayed_example :
    RefusedOrReplayed accept 50
      (λ t. none)
      (record no_options { source = some "hubspot" })
      none
      one_dead
      (dlq_replay_cmd
        (λ t. none)
        accept
        (record no_options { source = some "hubspot" })
        none
        50
        one_dead)
dlq_replay_cmd-RefusedOrReplayed_example =
    dlq_replay_cmd-RefusedOrReplayed accept 50 (λ t. none)
      (record no_options { source = some "hubspot" }) none one_dead
