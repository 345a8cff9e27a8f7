-- ===== src/Upload/Batcher.antt =====
-- The batcher: src/gateway/upload/batcher.py. `max_size` is at least 1, or the constructor raises.
pub mod Conservation
use conversion_gateway.Prelude.{
  ltb, leb, if◌then◌else◌, length, ℕ, ◌+◌, Bool, false, Option, none, some, List, [], ◌∷◌, ◌++◌,
}
use conversion_gateway.Exec.{value_error, Result, ok, err}

pub record Batcher (T : Type 0) : Type 0 where
  pub max_size : ℕ
  pub max_wait : ℕ
  pub items : List T
  pub oldest_at : Option ℕ

-- `_oldest_at` is set by the first item.
abbrev pub first_time : Option ℕ → ℕ → Option ℕ
first_time none now = some now
first_time (some t) now = some t

-- `now - oldest >= max_wait`
abbrev is_due : Option ℕ → ℕ → ℕ → Bool
is_due none max_wait now = false
is_due (some t) max_wait now = leb (t + max_wait) now

module _ {T : Type 0} where
  unfoldable pub make_batcher : ℕ → ℕ → Result (Batcher T)
  make_batcher max_size max_wait =
      if ltb max_size 1
      then err value_error
      else ok (record { max_size = max_size; max_wait = max_wait; items = []; oldest_at = none })

  -- Each method returns its result and the batcher as it leaves it.
  unfoldable pub flush : Batcher T → List T × Batcher T
  flush b = (b.items, record b { items = []; oldest_at = none })

  abbrev emitted : List T × Batcher T → Option (List T) × Batcher T
  emitted (items, b) = (some items, b)

  unfoldable pub add : T → ℕ → Batcher T → Option (List T) × Batcher T
  unfolding flush
  add item now b =
      let b' = record b { items = b.items ++ item ∷ []; oldest_at = first_time b.oldest_at now } in
      if leb b.max_size (length b'.items) then emitted (flush b') else (none, b')

  unfoldable pub flush_if_due : ℕ → Batcher T → Option (List T) × Batcher T
  unfolding flush
  flush_if_due now b = if is_due b.oldest_at b.max_wait now then emitted (flush b) else (none, b)
