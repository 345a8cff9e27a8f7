-- ===== src/Worker/Acks.antt =====
-- The answers of `handle_delivery` (src/gateway/worker.py) to the queue.
use conversion_gateway.Prelude.{◌≡◌, Option, none, some}
use conversion_gateway.Exec.{World, Error, Result, ok, err}
use conversion_gateway.Normalise.Libs.{Libs}
use conversion_gateway.Queue.{Delivery, Consumer}
use conversion_gateway.Processor.{ProcessOutcome}

module _ {Q : Type 0} (libs : Libs) (consumer : Consumer Q) where
  abbrev pub Acked :
      Delivery → Q → Result ProcessOutcome × World → Option ProcessOutcome × Q × World → Type 0
  Acked d q (r, w) (answer, q', w') =
      (outcome : ProcessOutcome) × (r ≡ ok outcome)
      × (answer ≡ some outcome)
      × (q' ≡ consumer.ack d q)
      × (w' ≡ w)

  abbrev pub Nacked :
      Delivery
      → Q
      → World
      → Result ProcessOutcome × World
      → Option ProcessOutcome × Q × World
      → Type 0
  Nacked d q before (r, w) (answer, q', w') =
      (e : Error) × (r ≡ err e) × (answer ≡ none) × (q' ≡ consumer.nack d q) × (w'.db ≡ before.db)
