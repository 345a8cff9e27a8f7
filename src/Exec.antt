-- ===== src/Exec.antt =====
-- Functions that work on an open session and may raise. The world is the database as the session
-- sees it, the counters of src/gateway/observability/metrics.py and the messages that the transport has
-- accepted. A raise keeps what was done before it; the transaction around it takes back the
-- database, and neither counters nor published messages.
pub mod Keeps
pub mod Returns
use conversion_gateway.Prelude.{ℕ, String, Bool, true, false, Option, none, some, List, [], ◌∷◌}
use conversion_gateway.Models.Status.{EventStatus}
use conversion_gateway.Models.Rows.{Event, EventTransition, DeadLetter}
use conversion_gateway.Models.Message.{QueueMessage}

-- `next_dead_letter_id` is the sequence behind the dead letters' primary key.
pub record Db : Type 0 where
  pub events : List Event
  pub transitions : List EventTransition
  pub dead_letters : List DeadLetter
  pub next_dead_letter_id : ℕ

-- One update of a metric, with its labels. A gauge and a histogram carry the value.
pub data Metric : Type 0 where
  events_received_total : String → String → Metric
  events_rejected_total : String → String → String → Metric
  events_suppressed_total : String → String → String → Metric
  conversions_uploaded_total : String → String → Metric
  conversions_dead_lettered_total : String → String → String → Metric
  upload_latency_seconds : String → Metric
  dlq_depth : String → ℕ → Metric
  ingest_to_upload_seconds : String → String → ℕ → Metric

pub record World : Type 0 where
  pub db : Db
  pub metrics : List Metric
  pub published : List QueueMessage

-- `IllegalTransition`, the upload errors, and the built-in exceptions that the code can meet. The
-- texts of the built-in ones are left out.
pub data Error : Type 0 where
  illegal_transition : String → EventStatus → EventStatus → Error
  transient_upload : String → Error
  permanent_upload : String → Error
  poison_upload : String → ℕ → Error
  -- tenacity's RetryError, with the last attempt's exception and number
  retry_error : Error → ℕ → Error
  assertion_error key_error value_error type_error attribute_error transport_error : Error
  -- psycopg's DataError: a value that its column does not hold
  data_error : Error
  overflow_error : Error

pub data Result {ℓ} (A : Type ℓ) : Type ℓ where
  ok : A → Result A
  err : Error → Result A

abbrev pub Exec : Type 0 → Type 0
Exec A = World → Result A × World

module _ {A : Type 0} where
  abbrev pub pure : A → Exec A
  pure a w = (ok a, w)

  abbrev pub raise : Error → Exec A
  raise e w = (err e, w)

  abbrev pub gets : (World → A) → Exec A
  gets f w = (ok (f w), w)

  abbrev pub or_raise : Option A → Error → Exec A
  or_raise none e = raise e
  or_raise (some a) e = pure a

  -- What `with session_factory.begin()` does when its body has returned or raised.
  abbrev pub close : Db → Result A × World → Result A × World
  close before (ok a, w) = (ok a, w)
  close before (err e, w) = (err e, record w { db = before })

  -- `with session_factory.begin() as session: body`
  abbrev pub transaction : Exec A → Exec A
  transaction body w = close w.db (body w)

module _ {A B : Type 0} where
  abbrev pub continue : (A → Exec B) → Result A × World → Result B × World
  continue f (ok a, w) = f a w
  continue f (err e, w) = (err e, w)

infixl 5 ◌>>=◌ ◌>>◌
abbrev pub ◌>>=◌ : {A B : Type 0} → Exec A → (A → Exec B) → Exec B
◌>>=◌ m f w = continue f (m w)

abbrev pub ◌>>◌ : {A B : Type 0} → Exec A → Exec B → Exec B
m >> k = m >>= λ _. k

abbrev pub modify : (World → World) → Exec (Unit {0})
modify f w = (ok tt, f w)

abbrev pub require : Bool → Error → Exec (Unit {0})
require true e = pure tt
require false e = raise e

-- `counter.labels(…).inc()`
abbrev pub count : Metric → Exec (Unit {0})
count m w = (ok tt, record w { metrics = m ∷ w.metrics })

-- `for x in xs: body(x)`
unfoldable pub for_each : {A : Type 0} → List A → (A → Exec (Unit {0})) → Exec (Unit {0})
for_each [] body = pure tt
for_each (x ∷ xs) body = body x >> for_each xs body

-- `[body(x) for x in xs]`
unfoldable pub for_collect : {A B : Type 0} → List A → (A → Exec B) → Exec (List B)
for_collect [] body = pure []
for_collect (x ∷ xs) body = do y ← body x; ys ← for_collect xs body; pure (y ∷ ys)
