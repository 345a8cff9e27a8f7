-- ===== src/Upload/Backoff/Attempts.antt =====
-- How often a request is sent under the policy of src/gateway/upload/backoff.py.
use conversion_gateway.Prelude.{ℕ, ◌+◌, ◌≤◌, String, ◌≡◌, refl, subst, false, arith}
use conversion_gateway.Exec.{
  Exec, World, Error, illegal_transition, transient_upload, retry_error, Result, ok, err,
}
use conversion_gateway.Upload.Backoff.{
  stops, retrying, as_poison, call_with_retry, RetryPolicy, Tenacity, Retries, returned, raised,
  stopped, sleep_raised, again,
}

-- `measure` counts what a request may add one to and the hook adds nothing to.
module _ {A : Type 0} (policy : RetryPolicy) (fn : Exec A) (hook : String → ℕ → Exec (Unit {0}))
    (measure : World → ℕ) (request : (w : World) → measure (fn w).1 ≤ measure w + 1)
    (before : (reason : String) (k : ℕ) (w : World) → measure (hook reason k w).1 ≤ measure w) where
  asserted-measure :
      (e : Error) (k : ℕ) (w : World)
      → measure ((retrying policy hook).before_sleep e k w).1 ≤ measure w
  unfolding retrying
  asserted-measure (transient_upload reason) k w = before reason k w
  asserted-measure (illegal_transition _ _ _) k w = omega arith
  asserted-measure _ k w = omega arith

  sent_once : (w w' : World) (o : Result A) → fn w ≡ (o, w') → measure w' ≤ measure w + 1
  sent_once w w' o ran =
      subst (λ (q : Result A × World). measure q.1 ≤ measure w + 1) ran (request w)

  hooked_once :
      (e : Error) (k : ℕ) (w w' : World) (o : Result (Unit {0}))
      → (retrying policy hook).before_sleep e k w ≡ (o, w')
      → measure w' ≤ measure w
  hooked_once e k w w' o ran =
      subst (λ (q : Result (Unit {0}) × World). measure q.1 ≤ measure w) ran
        (asserted-measure e k w)

  more :
      (k seconds : ℕ) → stops (retrying policy hook) k seconds ≡ false → k + 1 ≤ policy.max_attempts
  unfolding retrying
  more k seconds go = ground arith

  retries-measure :
      (k : ℕ) (w : World) (r : Result A × World)
      → k ≤ policy.max_attempts
      → Retries (retrying policy hook) fn k w r
      → measure r.1 + k ≤ measure w + policy.max_attempts + 1
  retries-measure k w r high (returned {w' = w'} a ran done) =
      rw done (omega (arith, sent_once w w' (ok a) ran))
  retries-measure k w r high (raised {w' = w'} e ran kind done) =
      rw done (omega (arith, sent_once w w' (err e) ran))
  retries-measure k w r high (stopped {w' = w'} e seconds ran kind stop done) =
      rw done (omega (arith, sent_once w w' (err e) ran))
  retries-measure k w r high
        (sleep_raised {w' = w'} {w'' = w''} e e' seconds ran kind go hooked done) =
      rw done (omega (arith, sent_once w w' (err e) ran, hooked_once e k w' w'' (err e') hooked))
  retries-measure k w r high (again {w' = w'} {w'' = w''} e seconds ran kind go hooked rest) =
      omega (
        arith,
        sent_once w w' (err e) ran,
        hooked_once e k w' w'' (ok tt) hooked,
        retries-measure (k + 1) w'' r (more k seconds go) rest,
      )

  as_poison-world : (r : Result A × World) → (as_poison r).1 ≡ r.1
  unfolding as_poison
  as_poison-world (ok a, w) = refl
  as_poison-world (err (retry_error (transient_upload reason) k), w) = refl
  as_poison-world (err (retry_error (illegal_transition _ _ _) k), w) = refl
  as_poison-world (err (retry_error _ k), w) = refl
  as_poison-world (err (illegal_transition _ _ _), w) = refl
  as_poison-world (err _, w) = refl

  -- Where a request adds at most one to a measure of the world and the hook adds nothing, the retried
  -- request adds at most `max_attempts`, which is at least one: no more requests are sent than that.
  pub call_with_retry-attempts :
      (tenacity : Tenacity A) (w : World)
      → 1 ≤ policy.max_attempts
      → measure (call_with_retry tenacity policy fn hook w).1 ≤ measure w + policy.max_attempts
  unfolding call_with_retry
  call_with_retry-attempts tenacity w some_attempt =
      rw (as_poison-world (tenacity.call (retrying policy hook) fn w)) (
        omega (
          arith,
          retries-measure 1 w (tenacity.call (retrying policy hook) fn w) some_attempt
              (tenacity.documented (retrying policy hook) fn w),
        ))
