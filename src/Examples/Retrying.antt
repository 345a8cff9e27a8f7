-- ===== src/Examples/Retrying.antt =====
-- A retry loop that behaves as tenacity's documentation says, on a clock that stands still.
use conversion_gateway.Prelude.{
  if◌then◌else◌, Bool-cases, ℕ, zero, suc, ◌+◌, ◌≤◌, ◌≡◌, refl, inl, inr, true, false, arith,
}
use conversion_gateway.Exec.{Exec, World, Error, retry_error, Result, ok, err}
use conversion_gateway.Upload.Backoff.{
  stops, Retrying, Tenacity, Retries, returned, raised, stopped, sleep_raised, again,
}

module _ {A : Type 0} (options : Retrying) (fn : Exec A) where
  stop_now : ℕ → Result A × World → Result A × World
  stop_now k (ok a, w) = (ok a, w)
  stop_now k (err e, w) = if options.should_retry e then (err (retry_error e k), w) else (err e, w)

  slept : (World → Result A × World) → Result (Unit {0}) × World → Result A × World
  slept rest (ok u, w) = rest w
  slept rest (err e, w) = (err e, w)

  resume : ℕ → (World → Result A × World) → Result A × World → Result A × World
  unfolding slept
  resume k rest (ok a, w) = (ok a, w)
  resume k rest (err e, w) =
      if options.should_retry e
      then (if stops options k 0
          then (err (retry_error e k), w)
          else slept rest (options.before_sleep e k w))
      else (err e, w)

  unfoldable pub loop : ℕ → ℕ → World → Result A × World
  unfolding stop_now resume
  loop zero k w = stop_now k (fn w)
  loop (suc n) k w = resume k (loop n (k + 1)) (fn w)

  stop_now-Retries :
      (k : ℕ) (w : World) (r : Result A × World)
      → options.stop_after_attempt ≤ k
      → fn w ≡ r
      → Retries options fn k w (stop_now k r)
  unfolding stop_now
  stop_now-Retries k w (ok a, w') late ran = returned a ran refl
  stop_now-Retries k w (err e, w') late ran = elim (Bool-cases (options.should_retry e)) [
    | inl kind ↦ rw kind (stopped e 0 ran kind (ground arith) refl)
    | inr final ↦ rw final (raised e ran final refl)
  ]

  slept-Retries :
      (k : ℕ) (w w' : World) (e : Error) (rest : World → Result A × World)
      (r : Result (Unit {0}) × World)
      → fn w ≡ (err e, w')
      → options.should_retry e ≡ true
      → stops options k 0 ≡ false
      → options.before_sleep e k w' ≡ r
      → ((v : World) → Retries options fn (k + 1) v (rest v))
      → Retries options fn k w (slept rest r)
  unfolding slept
  slept-Retries k w w' e rest (ok u, v) ran kind go hooked onwards =
      again e 0 ran kind go hooked (onwards v)
  slept-Retries k w w' e rest (err x, v) ran kind go hooked onwards =
      sleep_raised e x 0 ran kind go hooked refl

  resume-Retries :
      (k : ℕ) (w : World) (rest : World → Result A × World) (r : Result A × World)
      → fn w ≡ r
      → ((v : World) → Retries options fn (k + 1) v (rest v))
      → Retries options fn k w (resume k rest r)
  unfolding resume
  resume-Retries k w rest (ok a, w') ran onwards = returned a ran refl
  resume-Retries k w rest (err e, w') ran onwards = elim (Bool-cases (options.should_retry e)) [
    | inr final ↦ rw final (raised e ran final refl)
    | inl kind ↦ elim (Bool-cases (stops options k 0)) [
      | inl stop ↦ rw (kind, stop) (stopped e 0 ran kind stop refl)
      | inr go ↦
          rw (kind, go)
            (slept-Retries k w w' e rest (options.before_sleep e k w') ran kind go refl onwards)
    ]
  ]

  pub loop-Retries :
      (n k : ℕ) (w : World)
      → options.stop_after_attempt ≤ k + n
      → Retries options fn k w (loop n k w)
  unfolding loop
  loop-Retries zero k w late = stop_now-Retries k w (fn w) (omega arith) refl
  loop-Retries (suc n) k w late =
      resume-Retries k w (loop n (k + 1)) (fn w) refl λ v. loop-Retries n (k + 1) v (omega arith)

abbrev pub instant : {A : Type 0} → Tenacity A
instant = record {
  call = λ options fn w. loop options fn options.stop_after_attempt 1 w;
  documented = λ options fn w. loop-Retries options fn options.stop_after_attempt 1 w (omega arith);
}
