-- ===== src/Upload/Backoff/Ceiling.antt =====
-- How a request ends under `call_with_retry` of src/gateway/upload/backoff.py.
use conversion_gateway.Prelude.{ℕ, ◌+◌, ◌≤◌, String, ◌≡◌, refl, subst, true, false, arith}
use conversion_gateway.Exec.{
  Exec, World, Error, illegal_transition, transient_upload, permanent_upload, poison_upload,
  retry_error, assertion_error, key_error, value_error, type_error, attribute_error,
  transport_error, data_error, overflow_error, Result, ok, err,
}
use conversion_gateway.Upload.Backoff.{
  is_transient_error, stops, retrying, as_poison, call_with_retry, RetryPolicy, Tenacity, Retries,
  returned, raised, stopped, sleep_raised, again,
}

-- What an outcome may be: a value; the poison of a transient error, after at most `max_attempts`
-- attempts; or another error, which is no transient one and no RetryError.
abbrev pub Ended : {A : Type 0} → RetryPolicy → Result A → Type 0
Ended policy (ok a) = Unit
Ended policy (err (poison_upload reason attempts)) =
    (1 ≤ attempts) × (attempts ≤ policy.max_attempts)
Ended policy (err (transient_upload reason)) = ⊥
Ended policy (err (retry_error e k)) = ⊥
Ended policy (err e) = Unit

-- The request may fail with any error but poison and RetryError, which only the retry makes.
abbrev IsRequest : {A : Type 0} → Result A → Type 0
IsRequest (err (poison_upload reason attempts)) = ⊥
IsRequest (err (retry_error e k)) = ⊥
IsRequest _ = Unit

-- The hook may fail with an error that is not one of the upload's.
abbrev IsHook : Result (Unit {0}) → Type 0
IsHook (err (transient_upload reason)) = ⊥
IsHook r = IsRequest r

module _ (A : Type 0) where
  Ended-ok :
      (policy : RetryPolicy) (a : A) (w : World) (r : Result A × World)
      → r ≡ (ok a, w)
      → Ended policy (as_poison r).0
  unfolding as_poison
  Ended-ok policy a w r h = rw h tt

  Ended-err :
      (policy : RetryPolicy) (e : Error) (w : World)
      → is_transient_error e ≡ false
      → IsRequest {A = A} (err e)
      → Ended {A = A} policy (as_poison (err e, w)).0
  unfolding as_poison
  Ended-err policy (illegal_transition _ _ _) w h k = tt
  Ended-err policy (permanent_upload _) w h k = tt
  Ended-err policy assertion_error w h k = tt
  Ended-err policy key_error w h k = tt
  Ended-err policy value_error w h k = tt
  Ended-err policy type_error w h k = tt
  Ended-err policy attribute_error w h k = tt
  Ended-err policy transport_error w h k = tt
  Ended-err policy data_error w h k = tt
  Ended-err policy overflow_error w h k = tt
  Ended-err policy (transient_upload _) w h k = cc
  Ended-err policy (poison_upload _ _) w h k = elim k [ ]
  Ended-err policy (retry_error _ _) w h k = elim k [ ]

  -- A retried error is transient: the poison has the number of the attempt that was stopped.
  Ended-stopped :
      (policy : RetryPolicy) (e : Error) (k : ℕ) (w : World)
      → is_transient_error e ≡ true
      → 1 ≤ k
      → k ≤ policy.max_attempts
      → Ended {A = A} policy (as_poison (err (retry_error e k), w)).0
  unfolding as_poison
  Ended-stopped policy (transient_upload reason) k w h low high = (low, high)
  Ended-stopped policy (illegal_transition _ _ _) k w h low high = cc
  Ended-stopped policy _ k w h low high = cc

  hook_error :
      (policy : RetryPolicy) (e : Error) (w : World)
      → IsHook (err e)
      → Ended {A = A} policy (as_poison (err e, w)).0
  hook_error policy (transient_upload reason) w h = elim h [ ]
  hook_error policy (illegal_transition a b c) w h =
      Ended-err policy (illegal_transition a b c) w refl h
  hook_error policy (permanent_upload a) w h = Ended-err policy (permanent_upload a) w refl h
  hook_error policy (poison_upload a b) w h = Ended-err policy (poison_upload a b) w refl h
  hook_error policy (retry_error a b) w h = Ended-err policy (retry_error a b) w refl h
  hook_error policy _ w h = Ended-err policy _ w refl h

module _ {A : Type 0} (policy : RetryPolicy) (fn : Exec A) (hook : String → ℕ → Exec (Unit {0}))
    (request : (w : World) → IsRequest (fn w).0)
    (before : (reason : String) (k : ℕ) (w : World) → IsHook (hook reason k w).0) where
  asserted-IsHook :
      (e : Error) (k : ℕ) (w w' : World) (e' : Error)
      → is_transient_error e ≡ true
      → (retrying policy hook).before_sleep e k w ≡ (err e', w')
      → IsHook (err e')
  unfolding retrying
  asserted-IsHook (transient_upload reason) k w w' e' h run =
      subst (λ (r : Result (Unit {0}) × World). IsHook r.0) run (before reason k w)
  asserted-IsHook (illegal_transition _ _ _) k w w' e' h run = cc
  asserted-IsHook _ k w w' e' h run = cc

  more :
      (k seconds : ℕ) → stops (retrying policy hook) k seconds ≡ false → k + 1 ≤ policy.max_attempts
  unfolding retrying
  more k seconds go = ground arith

  retries-Ended :
      (k : ℕ) (w : World) (r : Result A × World)
      → 1 ≤ k
      → k ≤ policy.max_attempts
      → Retries (retrying policy hook) fn k w r
      → Ended policy (as_poison r).0
  unfolding retrying
  retries-Ended k w r low high (returned {w' = w'} a ran done) = Ended-ok A policy a w' r done
  retries-Ended k w r low high (raised {w' = w'} e ran kind done) = rw done (
      Ended-err A policy e w' kind
        (subst (λ (q : Result A × World). IsRequest q.0) ran (request w)))
  retries-Ended k w r low high (stopped {w' = w'} e seconds ran kind stop done) =
      rw done (Ended-stopped A policy e k w' kind low high)
  retries-Ended k w r low high
        (sleep_raised {w' = w'} {w'' = w''} e e' seconds ran kind go hooked done) =
      rw done (hook_error A policy e' w'' (asserted-IsHook e k w' w'' e' kind hooked))
  retries-Ended k w r low high (again {w'' = w''} e seconds ran kind go hooked rest) =
      retries-Ended (k + 1) w'' r (omega arith) (more k seconds go) rest

  -- The request may raise anything but a poison or a RetryError, the hook anything but those and a
  -- transient error, and at least one attempt is allowed. Then the retried request never ends in a
  -- transient error or a RetryError, and a poison names an attempt from 1 to `max_attempts`.
  pub call_with_retry-Ended :
      (tenacity : Tenacity A) (w : World)
      → 1 ≤ policy.max_attempts
      → Ended policy (call_with_retry tenacity policy fn hook w).0
  unfolding call_with_retry
  call_with_retry-Ended tenacity w some_attempt =
      retries-Ended 1 w (tenacity.call (retrying policy hook) fn w) (omega arith) some_attempt
        (tenacity.documented (retrying policy hook) fn w)
