-- ===== src/Upload/Backoff.antt =====
-- The retry policy: src/gateway/upload/backoff.py. The loop itself is tenacity's, and a parameter: the
-- relation `Retries` says what its documentation promises. The waits only let time pass.
pub mod Ceiling
pub mod Attempts
use conversion_gateway.Prelude.{leb, ℕ, ◌+◌, String, ◌≡◌, Bool, true, false, ◌||◌}
use conversion_gateway.Exec.{
  Exec, raise, World, Error, transient_upload, poison_upload, retry_error, assertion_error, Result,
  ok, err,
}

pub record RetryPolicy : Type 0 where
  pub max_attempts : ℕ
  pub max_elapsed_seconds : ℕ

abbrev pub is_transient_error : Error → Bool
is_transient_error (transient_upload reason) = true
is_transient_error _ = false

-- The arguments of `Retrying`: which exceptions are retried, when to stop (after so many attempts or
-- so many seconds), and what to call before the sleep.
pub record Retrying : Type 0 where
  pub should_retry : Error → Bool
  pub stop_after_attempt : ℕ
  pub stop_after_delay : ℕ
  pub before_sleep : Error → ℕ → Exec (Unit {0})

-- `stop_after_attempt(n) | stop_after_delay(s)`, at an attempt's number and the seconds since the start
abbrev pub stops : Retrying → ℕ → ℕ → Bool
stops options k seconds = leb options.stop_after_attempt k || leb options.stop_after_delay seconds

-- The outcome from attempt number `k` on: a return, an exception that is not retried, RetryError at a
-- stop, an exception of `before_sleep`, or what the further attempts give.
pub data Retries {A : Type 0} (options : Retrying) (fn : Exec A)
    : ℕ → World → Result A × World → Type 0 where
  returned :
      {k : ℕ} {w w' : World} {r : Result A × World} (a : A)
      → fn w ≡ (ok a, w')
      → r ≡ (ok a, w')
      → Retries options fn k w r
  raised :
      {k : ℕ} {w w' : World} {r : Result A × World} (e : Error)
      → fn w ≡ (err e, w')
      → options.should_retry e ≡ false
      → r ≡ (err e, w')
      → Retries options fn k w r
  stopped :
      {k : ℕ} {w w' : World} {r : Result A × World} (e : Error) (seconds : ℕ)
      → fn w ≡ (err e, w')
      → options.should_retry e ≡ true
      → stops options k seconds ≡ true
      → r ≡ (err (retry_error e k), w')
      → Retries options fn k w r
  sleep_raised :
      {k : ℕ} {w w' w'' : World} {r : Result A × World} (e e' : Error) (seconds : ℕ)
      → fn w ≡ (err e, w')
      → options.should_retry e ≡ true
      → stops options k seconds ≡ false
      → options.before_sleep e k w' ≡ (err e', w'')
      → r ≡ (err e', w'')
      → Retries options fn k w r
  again :
      {k : ℕ} {w w' w'' : World} {r : Result A × World} (e : Error) (seconds : ℕ)
      → fn w ≡ (err e, w')
      → options.should_retry e ≡ true
      → stops options k seconds ≡ false
      → options.before_sleep e k w' ≡ (ok tt, w'')
      → Retries options fn (k + 1) w'' r
      → Retries options fn k w r

-- `Retrying(…)(fn)` at a result type, and its documented behaviour.
pub record Tenacity (A : Type 0) : Type 0 where
  pub call : Retrying → Exec A → Exec A
  pub documented :
      (options : Retrying) (fn : Exec A) (w : World) → Retries options fn 1 w (call options fn w)

-- `RetryPolicy.retrying`. The assertion holds, since only a transient error is retried.
asserted : (String → ℕ → Exec (Unit {0})) → Error → ℕ → Exec (Unit {0})
asserted on_retry (transient_upload reason) attempt = on_retry reason attempt
asserted on_retry _ attempt = raise assertion_error

unfoldable pub retrying : RetryPolicy → (String → ℕ → Exec (Unit {0})) → Retrying
unfolding asserted
retrying policy on_retry = record {
  should_retry = is_transient_error;
  stop_after_attempt = policy.max_attempts;
  stop_after_delay = policy.max_elapsed_seconds;
  before_sleep = asserted on_retry;
}

-- `except RetryError`: the last attempt's exception gives the reason.
unfoldable pub as_poison : {A : Type 0} → Result A × World → Result A × World
as_poison (ok a, w) = (ok a, w)
as_poison (err (retry_error (transient_upload reason) attempts), w) =
    (err (poison_upload reason attempts), w)
as_poison (err (retry_error e attempts), w) = (err assertion_error, w)
as_poison (err e, w) = (err e, w)

module _ {A : Type 0} (tenacity : Tenacity A) where
  unfoldable pub call_with_retry : RetryPolicy → Exec A → (String → ℕ → Exec (Unit {0})) → Exec A
  unfolding retrying as_poison
  call_with_retry policy fn on_retry w = as_poison (tenacity.call (retrying policy on_retry) fn w)
