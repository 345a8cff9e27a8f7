-- ===== src/Pipeline/UploaderRuns.antt =====
-- The uploader's cycles and runs (src/gateway/upload/uploader.py) as paths of the pipeline's steps.
use conversion_gateway.Upload.Uploader
use conversion_gateway.Prelude.{
  ltb, Bool-cases, length, ◌<>◌, str_of, ℕ, ◌-◌, String, ◌≡◌, refl, sym, ap, ◌∙◌, inl, inr, Bool,
  Option, none, some, List, [], ◌∷◌,
}
use conversion_gateway.Exec.{
  Exec, World, Error, transient_upload, permanent_upload, poison_upload, retry_error, Result, ok,
  err,
}
use conversion_gateway.Normalise.Libs.{Libs}
use conversion_gateway.Upload.Backoff.{
  retrying, as_poison, call_with_retry, RetryPolicy, Retrying, Tenacity, Retries, returned, raised,
  stopped, sleep_raised, again,
}
use conversion_gateway.Upload.Classifier.{permanent, poison}
use conversion_gateway.Upload.Client.{BatchResult}
use conversion_gateway.Upload.Batcher.{Batcher}
use conversion_gateway.Upload.Uploader.{
  UploadClient, on_retry, observed, timed_upload, Claimed, CycleReport, Settings, settle_batch,
  refresh_dlq_depth, add_all, or_due, upload_batch, send, batched, claim_room, run_once, then_run,
}
use conversion_gateway.Pipeline.Steps.{Step, Reach}
use conversion_gateway.Models.Payload.{Conversion}
use conversion_gateway.Pipeline.Runs.{Reach-trans, once, quietly, Reach-bind}

-- A request to the platform does not touch the database.
abbrev pub IsQuietClient : UploadClient → Type 0
IsQuietClient client = (cs : List Conversion) (w : World) → (client cs w).1.db ≡ w.db

module _ (libs : Libs) where
  after :
      {A : Type 0} (fn : Exec A)
      → ((w : World) → (fn w).1.db ≡ w.db)
      → (w v : World) {x : Result A} → fn w ≡ (x, v)
      → v.db ≡ w.db
  after fn quiet w v ran = ap (λ p. p.1.db) (sym ran) ∙ quiet w

  -- A retried action, each attempt of which is quiet.
  Retries-Reach :
      {A : Type 0} (options : Retrying) (fn : Exec A)
      → ((w : World) → (fn w).1.db ≡ w.db)
      → ((e : Error) (k : ℕ) (w : World) → Reach libs w (options.before_sleep e k w).1)
      → {k : ℕ} {w : World} {r : Result A × World} → Retries options fn k w r
      → Reach libs w r.1
  Retries-Reach options fn quiet sleep {w = w} (returned {w' = v} a ran e) =
      rw e (quietly libs w v (after fn quiet w v ran))
  Retries-Reach options fn quiet sleep {w = w} (raised {w' = v} er ran skip e) =
      rw e (quietly libs w v (after fn quiet w v ran))
  Retries-Reach options fn quiet sleep {w = w} (stopped {w' = v} er s ran retry at_end e) =
      rw e (quietly libs w v (after fn quiet w v ran))
  Retries-Reach options fn quiet sleep {k = k} {w = w}
        (sleep_raised {w' = v} er er' s ran retry on slept e) =
      rw e
        (Reach-trans libs (quietly libs w v (after fn quiet w v ran)) (rw slept at (sleep er k v)))
  Retries-Reach options fn quiet sleep {k = k} {w = w}
        (again {w' = v} er s ran retry on slept more) =
      Reach-trans libs
        (Reach-trans libs (quietly libs w v (after fn quiet w v ran)) (rw slept at (sleep er k v)))
        (Retries-Reach options fn quiet sleep more)

  module _ (tenacity : Tenacity BatchResult) (client : UploadClient)
      (quiet : IsQuietClient client) where
    observed_quiet : (r : Result BatchResult × World) → (observed r).1.db ≡ r.1.db
    unfolding timed_upload
    observed_quiet (ok rows, w) = refl
    observed_quiet (err (transient_upload reason), w) = refl
    observed_quiet (err (permanent_upload reason), w) = refl
    observed_quiet (err e, w) = refl

    timed_upload_quiet :
        (batch : List Claimed) (w : World) → (timed_upload client batch w).1.db ≡ w.db
    unfolding timed_upload
    timed_upload_quiet batch w = observed_quiet (client _ w) ∙ quiet _ w

    as_poison_quiet : (r : Result BatchResult × World) → (as_poison r).1 ≡ r.1
    unfolding as_poison
    as_poison_quiet (ok rows, w) = refl
    as_poison_quiet (err (retry_error (transient_upload reason) n), w) = refl
    as_poison_quiet (err (retry_error e n), w) = refl
    as_poison_quiet (err e, w) = refl

    before_sleep-Reach :
        (batch : List Claimed) (clock : ℕ → String → ℕ) (policy : RetryPolicy) (e : Error) (k : ℕ)
        (w : World)
        → Reach libs w ((retrying policy (on_retry batch clock)).before_sleep e k w).1
    unfolding retrying
    before_sleep-Reach batch clock policy (transient_upload reason) k w =
        once libs (Step.retry_batch batch clock reason k refl)
    before_sleep-Reach batch clock policy e k w = Reach.here

    settle_batch-Reach :
        (batch : List Claimed) (now : ℕ) (r : Result BatchResult × World)
        → Reach libs r.1 (settle_batch batch now r).1
    unfolding settle_batch
    settle_batch-Reach batch now (ok rows, w) = once libs (Step.apply now batch rows refl)
    settle_batch-Reach batch now (err (permanent_upload reason), w) =
        once libs (Step.bury batch permanent ("permanent:" <> reason) reason reason now refl)
    settle_batch-Reach batch now (err (poison_upload reason n), w) = once libs (
        Step.bury batch poison ("poison:" <> (reason <> (":after_" <> (str_of n <> "_attempts"))))
          reason ("gave up after " <> (str_of n <> (" attempts; last error " <> reason))) now refl)
    settle_batch-Reach batch now (err e, w) = Reach.here

    module _ (settings : Settings) where
      call_with_retry-Reach :
          (clock : ℕ → String → ℕ) (batch : List Claimed) (w : World)
          → Reach libs w
              (call_with_retry tenacity settings.policy
                (timed_upload client batch)
                (on_retry batch clock)
                w).1
      unfolding call_with_retry
      call_with_retry-Reach clock batch w =
          let options = retrying settings.policy (on_retry batch clock) in
          let fn = timed_upload client batch in
          rw (as_poison_quiet (tenacity.call options fn w)) (
            Retries-Reach options fn (timed_upload_quiet batch)
              (before_sleep-Reach batch clock settings.policy) (tenacity.documented options fn w))

      -- One batch: the retries' transactions and then the one that records the outcome.
      upload_batch-Reach :
          (clock : ℕ → String → ℕ) (batch : List Claimed) (now : ℕ) (w : World)
          → Reach libs w (upload_batch tenacity client settings clock batch now w).1
      unfolding upload_batch
      upload_batch-Reach clock batch now w =
          Reach-trans libs (call_with_retry-Reach clock batch w) (
            settle_batch-Reach batch now (
              call_with_retry tenacity settings.policy (timed_upload client batch)
                (on_retry batch clock) w))

      refresh_dlq_depth-Reach : (w : World) → Reach libs w (refresh_dlq_depth w).1
      unfolding refresh_dlq_depth
      refresh_dlq_depth-Reach w = quietly libs w _ refl

      send-Reach :
          (clock : ℕ → String → ℕ) (now : ℕ) (batch : Option (List Claimed)) (w : World)
          → Reach libs w (send tenacity client settings clock now batch w).1
      unfolding send
      send-Reach clock now none w = Reach.here
      send-Reach clock now (some []) w = Reach.here
      send-Reach clock now (some (c ∷ cs)) w =
          Reach-bind libs (upload_batch tenacity client settings clock (c ∷ cs) now) _ w
            (upload_batch-Reach clock (c ∷ cs) now w) (λ report v. refresh_dlq_depth-Reach v)

      claim_room-Reach :
          (locked : String → Bool) (now : ℕ) (b : Batcher Claimed) (w : World)
          → Reach libs w (claim_room tenacity client settings locked now b w).1
      unfolding claim_room
      claim_room-Reach locked now b w = elim (Bool-cases (ltb 0 (b.max_size - length b.items))) [
        | inl room ↦
            rw room
              (once libs (Step.claim_rows settings locked now (b.max_size - length b.items) refl))
        | inr full ↦ rw full Reach.here
      ]

      batched-Reach :
          (clock : ℕ → String → ℕ) (now : ℕ) (b : Batcher Claimed)
          (r : Result (List Claimed) × World)
          → Reach libs r.1 (batched tenacity client settings clock now b r).2
      unfolding batched
      batched-Reach clock now b (err e, w) = Reach.here
      batched-Reach clock now b (ok claimed, w) =
          send-Reach clock now (or_due now (add_all claimed now none b)).0 w

      -- One cycle.
      run_once-Reach :
          (locked : String → Bool) (clock : ℕ → String → ℕ) (now : ℕ) (b : Batcher Claimed)
          (w : World)
          → Reach libs w (run_once tenacity client settings locked clock now b w).2
      unfolding run_once
      run_once-Reach locked clock now b w =
          Reach-trans libs (claim_room-Reach locked now b w)
            (batched-Reach clock now b (claim_room tenacity client settings locked now b w))

      then_run-Reach :
          (rest : Batcher Claimed → World → Result (Unit {0}) × Batcher Claimed × World)
          (r : Result CycleReport × Batcher Claimed × World)
          → ((b : Batcher Claimed) (w : World) → Reach libs w (rest b w).2)
          → Reach libs r.2 (then_run tenacity client settings rest r).2
      unfolding Uploader.run
      then_run-Reach rest (ok report, b, w) onwards = onwards b w
      then_run-Reach rest (err e, b, w) onwards = Reach.here

      -- For an upload client whose requests leave the database alone, whatever they bring back, a
      -- run of the uploader is a path of the pipeline's steps.
      pub uploader_run-Reach :
          (locked : String → Bool) (clock : ℕ → ℕ → String → ℕ) (times : List ℕ)
          (b : Batcher Claimed) (w : World)
          → Reach libs w (Uploader.run tenacity client settings locked clock times b w).2
      unfolding Uploader.run
      uploader_run-Reach locked clock [] b w = Reach.here
      uploader_run-Reach locked clock (now ∷ times) b w =
          Reach-trans libs (run_once-Reach locked (clock now) now b w) (
            then_run-Reach (Uploader.run tenacity client settings locked clock times)
              (run_once tenacity client settings locked (clock now) now b w)
              (uploader_run-Reach locked clock times))
