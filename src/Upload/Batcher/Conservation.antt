-- ===== src/Upload/Batcher/Conservation.antt =====
-- The batcher of src/gateway/upload/batcher.py over any sequence of calls.
use conversion_gateway.Prelude.{
  length, is_empty, is_some, length-append, All, ℕ, ◌≤◌, ◌<◌, ◌≡◌, refl, sym, subst, true, false,
  not, Option, none, some, List, [], ◌∷◌, append_assoc, append-nil, ◌++◌, map, flatten, arith,
}
use conversion_gateway.Exec.{ok}
use conversion_gateway.Upload.Batcher.{first_time, make_batcher, flush, add, flush_if_due, Batcher}

-- A call of one of the batcher's methods.
pub data Call (T : Type 0) : Type 0 where
  add_call : T → ℕ → Call T
  flush_if_due_call : ℕ → Call T
  flush_call : Call T

first_time-some : (t : Option ℕ) (now : ℕ) → is_some (first_time t now) ≡ true
first_time-some none now = refl
first_time-some (some t) now = refl

module _ {T : Type 0} where
  -- The batcher is below its size, and has an oldest time exactly when it has an item.
  abbrev pub IsValid : Batcher T → Type 0
  IsValid b = (length b.items < b.max_size) × (is_some b.oldest_at ≡ not (is_empty b.items))

  abbrev batch_items : Option (List T) → List T
  batch_items none = []
  batch_items (some items) = items

  abbrev added : Call T → List T
  added (add_call item now) = item ∷ []
  added _ = []

  abbrev flushed : List T × Batcher T → Option (List T) × Batcher T
  flushed (items, b) = (some items, b)

  abbrev step : Call T → Batcher T → Option (List T) × Batcher T
  step (add_call item now) b = add item now b
  step (flush_if_due_call now) b = flush_if_due now b
  step flush_call b = flushed (flush b)

  -- The batches that a sequence of calls gives out, and the batcher after it.
  unfoldable pub run_calls : List (Call T) → Batcher T → List (List T) × Batcher T
  unfolding add flush flush_if_due
  run_calls [] b = ([], b)
  run_calls (c ∷ cs) b =
      let (out, b') = step c b in
      let (batches, last) = run_calls cs b' in (batch_items out ∷ batches, last)

  abbrev pub all_added : List (Call T) → List T
  all_added cs = flatten (map added cs)

  nonempty_append : (xs : List T) (x : T) → is_empty (xs ++ x ∷ []) ≡ false
  nonempty_append [] x = refl
  nonempty_append (y ∷ xs) x = refl

  step-conserves :
      (c : Call T) (b : Batcher T)
      → batch_items (step c b).0 ++ (step c b).1.items ≡ b.items ++ added c
  unfolding add flush flush_if_due
  step-conserves (add_call item now) b = ground (arith, append-nil (b.items ++ item ∷ []))
  step-conserves (flush_if_due_call now) b = ground (arith, append-nil b.items)
  step-conserves flush_call b = refl

  step-IsValid :
      (c : Call T) (b : Batcher T)
      → IsValid b
      → IsValid (step c b).1
        × (length (batch_items (step c b).0) ≤ b.max_size)
        × ((step c b).1.max_size ≡ b.max_size)
  unfolding add flush flush_if_due
  step-IsValid (add_call item now) b (below, timed) = ground (
    arith,
    length-append b.items (item ∷ []),
    nonempty_append b.items item,
    first_time-some b.oldest_at now,
  )
  step-IsValid (flush_if_due_call now) b (below, timed) = ground arith
  step-IsValid flush_call b (below, timed) = ground arith

  -- Over any sequence of calls, the batches given out, in order, and then the items still held are
  -- the items held before and then the items added, in order.
  run_calls-conserves :
      (cs : List (Call T)) (b : Batcher T)
      → flatten (run_calls cs b).0 ++ (run_calls cs b).1.items ≡ b.items ++ all_added cs
  unfolding run_calls flatten
  run_calls-conserves [] b = sym (append-nil b.items)
  run_calls-conserves (c ∷ cs) b =
      let (out, b') = step c b in
      let (batches, last) = run_calls cs b' in
      cc (
        append_assoc (batch_items out) (flatten batches) last.items,
        append_assoc (batch_items out) b'.items (all_added cs),
        append_assoc b.items (added c) (all_added cs),
        run_calls-conserves cs b',
        step-conserves c b,
      )

  -- From a valid batcher, over any sequence of calls: no batch given out is larger than `max_size`, and
  -- the batcher is valid again.
  run_calls-bounded :
      (cs : List (Call T)) (b : Batcher T)
      → IsValid b
      → All (λ batch. length batch ≤ b.max_size) (run_calls cs b).0 × IsValid (run_calls cs b).1
  unfolding run_calls
  run_calls-bounded [] b valid = (tt, valid)
  run_calls-bounded (c ∷ cs) b valid =
      let (valid', bound, kept) = step-IsValid c b valid in
      let (bounds, last) = run_calls-bounded cs (step c b).1 valid' in
      (
        (
          bound,
          subst (λ n. All (λ batch. length batch ≤ n) (run_calls cs (step c b).1).0) kept bounds,
        ),
        last,
      )

  -- A batcher that the constructor accepts is valid and empty.
  make_batcher-IsValid :
      (max_size max_wait : ℕ) (b : Batcher T)
      → make_batcher max_size max_wait ≡ ok b
      → IsValid b × (b.items ≡ []) × (b.max_size ≡ max_size)
  unfolding make_batcher
  make_batcher-IsValid max_size max_wait b made = ground arith

  -- From a valid batcher, over any sequence of calls: the batches given out, in order, and then the
  -- items still held are the items held before and then the items added, in order; no batch given
  -- out is larger than `max_size`, and the batcher is valid again.
  pub run_calls-orderly :
      (cs : List (Call T)) (b : Batcher T)
      → IsValid b
      → (flatten (run_calls cs b).0 ++ (run_calls cs b).1.items ≡ b.items ++ all_added cs)
        × All (λ batch. length batch ≤ b.max_size) (run_calls cs b).0
        × IsValid (run_calls cs b).1
  run_calls-orderly cs b valid =
      let (bounds, last) = run_calls-bounded cs b valid in (run_calls-conserves cs b, bounds, last)
