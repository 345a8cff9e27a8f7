-- ===== src/Pipeline/WorkerRuns.antt =====
-- The worker's polls and runs (src/gateway/worker.py) as paths of the pipeline's steps.
use conversion_gateway.Worker
use conversion_gateway.Prelude.{ℕ, refl, List, [], ◌∷◌}
use conversion_gateway.Exec.{transaction, World, Result, ok, err}
use conversion_gateway.Normalise.Libs.{Libs}
use conversion_gateway.Queue.{Delivery, Consumer}
use conversion_gateway.Processor.{process_message, ProcessOutcome}
use conversion_gateway.Worker.{answered, handle_delivery, handle_all, polled}
use conversion_gateway.Pipeline.Steps.{Step, Reach}
use conversion_gateway.Pipeline.Runs.{Reach-trans, once}

module _ (libs : Libs) where
  module _ {Q : Type 0} (consumer : Consumer Q) where
    answered-Reach :
        (d : Delivery) (q : Q) (r : Result ProcessOutcome × World)
        → Reach libs r.1 (answered libs consumer d q r).2
    unfolding handle_delivery
    answered-Reach d q (ok outcome, w) = Reach.here
    answered-Reach d q (err e, w) = Reach.here

    handle_delivery-Reach :
        (d : Delivery) (now : ℕ) (q : Q) (w : World)
        → Reach libs w (handle_delivery libs consumer d now q w).2
    unfolding handle_delivery
    handle_delivery-Reach d now q w =
        Reach-trans libs (once libs (Step.process d.message now refl))
          (answered-Reach d q (transaction (process_message libs d.message now) w))

    handle_all-Reach :
        (ds : List Delivery) (now : ℕ) (q : Q) (w : World)
        → Reach libs w (handle_all libs consumer ds now q w).1
    unfolding handle_all
    handle_all-Reach [] now q w = Reach.here
    handle_all-Reach (d ∷ ds) now q w = Reach-trans libs (handle_delivery-Reach d now q w) (
        handle_all-Reach ds now (handle_delivery libs consumer d now q w).1
          (handle_delivery libs consumer d now q w).2)

    polled-Reach :
        (r : Result (List Delivery) × Q) (now : ℕ) (w : World)
        → Reach libs w (polled libs consumer r now w).2
    unfolding polled
    polled-Reach (ok ds, q) now w = handle_all-Reach ds now q w
    polled-Reach (err e, q) now w = Reach.here

    again-Reach :
        (rest : Q → World → Result (Unit {0}) × Q × World) (r : Result (Unit {0}) × Q × World)
        → ((q : Q) (w : World) → Reach libs w (rest q w).2)
        → Reach libs r.2 (Worker.again libs consumer rest r).2
    unfolding Worker.again
    again-Reach rest (ok done, q, w) onwards = onwards q w
    again-Reach rest (err e, q, w) onwards = Reach.here

    -- Whatever the transport delivers, a run of the worker is a path of the pipeline's steps.
    pub worker_run-Reach :
        (batch_size : ℕ) (times : List ℕ) (q : Q) (w : World)
        → Reach libs w (Worker.run libs consumer batch_size times q w).2
    unfolding Worker.run
    worker_run-Reach batch_size [] q w = Reach.here
    worker_run-Reach batch_size (now ∷ times) q w =
        Reach-trans libs (polled-Reach (consumer.receive batch_size q) now w) (
          again-Reach (Worker.run libs consumer batch_size times)
            (polled libs consumer (consumer.receive batch_size q) now w)
            (worker_run-Reach batch_size times))
