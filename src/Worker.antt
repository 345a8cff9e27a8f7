-- ===== src/Worker.antt =====
-- The worker: src/gateway/worker.py. Log lines and the log's context variables are left out.
pub mod Acks
use conversion_gateway.Prelude.{ℕ, Option, none, some, List, [], ◌∷◌}
use conversion_gateway.Exec.{transaction, World, Result, ok, err}
use conversion_gateway.Normalise.Libs.{Libs}
use conversion_gateway.Queue.{Delivery, Consumer}
use conversion_gateway.Processor.{process_message, ProcessOutcome}

module _ {Q : Type 0} (libs : Libs) (consumer : Consumer Q) where
  -- A raise nacks the delivery; otherwise it is acked, after the commit.
  unfoldable pub answered :
      Delivery → Q → Result ProcessOutcome × World → Option ProcessOutcome × Q × World
  answered delivery q (ok outcome, w) = (some outcome, consumer.ack delivery q, w)
  answered delivery q (err e, w) = (none, consumer.nack delivery q, w)

  unfoldable pub handle_delivery : Delivery → ℕ → Q → World → Option ProcessOutcome × Q × World
  unfolding answered process_message
  handle_delivery delivery now q w =
      answered delivery q (transaction (process_message libs delivery.message now) w)

  unfoldable pub handle_all : List Delivery → ℕ → Q → World → Q × World
  unfolding handle_delivery
  handle_all [] now q w = (q, w)
  handle_all (d ∷ ds) now q w =
      let (outcome, q', w') = handle_delivery d now q w in handle_all ds now q' w'

  -- What the loop does with the answer of one `receive`. An exception of the transport ends it.
  unfoldable pub polled : Result (List Delivery) × Q → ℕ → World → Result (Unit {0}) × Q × World
  unfolding handle_all
  polled (ok deliveries, q) now w = let (q', w') = handle_all deliveries now q w in (ok tt, q', w')
  polled (err e, q) now w = (err e, q, w)

  unfoldable pub again :
      (Q → World → Result (Unit {0}) × Q × World)
      → Result (Unit {0}) × Q × World
      → Result (Unit {0}) × Q × World
  again next (ok _, q, w) = next q w
  again next (err e, q, w) = (err e, q, w)

  -- `run`, where `stop` is set during the last of the polls, one for each time in the list.
  unfoldable pub run : ℕ → List ℕ → Q → World → Result (Unit {0}) × Q × World
  unfolding polled again
  run batch_size [] q w = (ok tt, q, w)
  run batch_size (now ∷ times) q w =
      again (run batch_size times) (polled (consumer.receive batch_size q) now w)
