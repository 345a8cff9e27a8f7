-- ===== src/Examples/Parts.antt =====
-- The batcher, the response reader and the queue at work.
use conversion_gateway.Queue.NoLoss
use conversion_gateway.Upload.Batcher.Conservation
use conversion_gateway.Prelude.{
  length, All, ℕ, ◌+◌, ◌≤◌, ◌≡◌, refl, true, false, none, some, List, [], ◌∷◌, ◌++◌, flatten, arith,
}
use conversion_gateway.Models.Message.{QueueMessage}
use conversion_gateway.Exec.{ok}
use conversion_gateway.Upload.Batcher.{Batcher}
use conversion_gateway.Upload.Batcher.Conservation.{
  IsValid, all_added, run_calls-orderly, Call, add_call, flush_if_due_call,
}
use conversion_gateway.Upload.Json.{Json, text, array, object, nil, item, end, field}
use conversion_gateway.Upload.Client.{parse_batch_response, RowResult}
use conversion_gateway.Upload.Client.Rows.{AreRows, parse_batch_response-rows}
use conversion_gateway.Queue.{Delivery, Codec, MemoryQueue}
use conversion_gateway.Queue.NoLoss.{
  stored, all_in, all_out, run_calls-stored, QueueCall, publish_call, receive_call, nack_call,
}
use conversion_gateway.Examples.Data.{lead_message, good_row}

abbrev pair_batcher : Batcher ℕ
pair_batcher = record { max_size = 2; max_wait = 10; items = []; oldest_at = none }

abbrev adds : List (Call ℕ)
adds = add_call 7 1 ∷ add_call 8 2 ∷ add_call 9 3 ∷ flush_if_due_call 20 ∷ []

run_calls-orderly_example :
    (flatten (Conservation.run_calls adds pair_batcher).0
        ++ (Conservation.run_calls adds pair_batcher).1.items
      ≡ [] ++ all_added adds)
    × All (λ batch. length batch ≤ 2) (Conservation.run_calls adds pair_batcher).0
    × IsValid (Conservation.run_calls adds pair_batcher).1
run_calls-orderly_example = run_calls-orderly adds pair_batcher (omega arith, refl)

-- {"results": [{"gclid": "x"}, {}]}
abbrev body : Json
body = object (
    field "results" (array (item (object (field "gclid" (text "x") end)) (item (object end) nil)))
      end)

abbrev two_rows : List RowResult
two_rows =
    good_row
    ∷ record {
      index = 1;
      ok = false;
      error_code = some "UNKNOWN";
      message = some "no error detail for row";
    }
    ∷ []

reads_two : parse_batch_response (λ j. "?") body 2 ≡ ok two_rows
unfolding parse_batch_response
reads_two = refl

parse_batch_response-rows_example : AreRows 0 two_rows × (length two_rows ≡ 2)
parse_batch_response-rows_example = parse_batch_response-rows (λ j. "?") body 2 two_rows reads_two

-- Messages as their own bytes.
abbrev pub direct : Codec QueueMessage
direct = record { to_bytes = λ m. m; from_bytes = λ m. some m }

abbrev pub quiet_queue : MemoryQueue QueueMessage
quiet_queue = record { ready = []; inflight = []; next_ack = 0 }

abbrev first_delivery : Delivery
first_delivery = record { ack_id = 0; message = lead_message; attempt = 1 }

abbrev deliveries : List QueueCall
deliveries =
    publish_call lead_message ∷ receive_call 1 ∷ nack_call first_delivery ∷ receive_call 1 ∷ []

run_calls-stored_example :
    stored direct (λ m. true) (NoLoss.run_calls direct (λ m. true) deliveries quiet_queue)
      + all_out direct (λ m. true) deliveries quiet_queue
    ≡ stored direct (λ m. true) quiet_queue + all_in direct (λ m. true) deliveries
run_calls-stored_example = run_calls-stored direct (λ m. true) deliveries quiet_queue
