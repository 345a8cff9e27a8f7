-- ===== src/Queue/NoLoss.antt =====
-- How many messages the in-process queue (src/gateway/queue/memory.py) holds over a sequence of
-- calls.
use conversion_gateway.Prelude.{
  ℕ, zero, suc, ◌+◌, ◌≡◌, refl, ◌∙◌, Bool, true, false, Option, none, some, List, [], ◌∷◌, ◌++◌,
  arith,
}
use conversion_gateway.Models.Message.{QueueMessage}
use conversion_gateway.Exec.{Result, ok, err}
use conversion_gateway.Queue.{
  Delivery, Codec, held, without, ack, requeued, nack, taken, delivered, publish, receive_ready,
  receive, MemoryQueue,
}

-- A call of one of the queue's methods.
pub data QueueCall : Type 0 where
  publish_call : QueueMessage → QueueCall
  receive_call : ℕ → QueueCall
  ack_call nack_call : Delivery → QueueCall

module _ {Bytes : Type 0} (codec : Codec Bytes) (p : Bytes → Bool) where
  one_if : Bool → ℕ
  one_if true = 1
  one_if false = 0

  waiting : List (Bytes × ℕ) → ℕ
  unfolding one_if
  waiting [] = 0
  waiting ((b, attempt) ∷ rest) = one_if (p b) + waiting rest

  out : List (ℕ × (Bytes × ℕ)) → ℕ
  unfolding one_if
  out [] = 0
  out ((id, (b, attempt)) ∷ rest) = one_if (p b) + out rest

  -- The messages in the queue, ready or in flight, that pass the test.
  unfoldable pub stored : MemoryQueue Bytes → ℕ
  unfolding waiting out
  stored q = waiting q.ready + out q.inflight

  held_count : Option (Bytes × ℕ) → ℕ
  unfolding one_if
  held_count none = 0
  held_count (some (b, attempt)) = one_if (p b)

  waiting-append :
      (xs : List (Bytes × ℕ)) (b : Bytes) (attempt : ℕ)
      → waiting (xs ++ (b, attempt) ∷ []) ≡ waiting xs + one_if (p b)
  unfolding waiting one_if
  waiting-append [] b attempt = omega arith
  waiting-append (x ∷ xs) b attempt = omega (arith, waiting-append xs b attempt)

  out-without :
      (id : ℕ) (xs : List (ℕ × (Bytes × ℕ)))
      → out (without id xs) + held_count (held id xs) ≡ out xs
  unfolding out one_if held_count without held
  out-without id [] = omega arith
  out-without id ((k, (b, attempt)) ∷ xs) = ground (arith, out-without id xs)

  -- What a call does to the queue.
  abbrev step : QueueCall → MemoryQueue Bytes → MemoryQueue Bytes
  step (publish_call message) q = publish codec message q
  step (receive_call n) q = (receive codec n q).1
  step (ack_call d) q = ack d q
  step (nack_call d) q = nack d q

  -- What a call puts in, and what it takes out for good.
  unfoldable put_in : QueueCall → ℕ
  unfolding one_if
  put_in (publish_call message) = one_if (p (codec.to_bytes message))
  put_in _ = 0

  unfoldable taken_out : QueueCall → MemoryQueue Bytes → ℕ
  unfolding held_count held
  taken_out (ack_call d) q = held_count (held d.ack_id q.inflight)
  taken_out _ q = 0

  delivered-stored :
      (m : Option QueueMessage) (id attempt : ℕ)
      (later : MemoryQueue Bytes → Result (List Delivery) × MemoryQueue Bytes)
      (q : MemoryQueue Bytes)
      → stored (later q).1 ≡ stored q
      → stored (delivered m id attempt later q).1 ≡ stored q
  unfolding delivered
  delivered-stored none id attempt later q h = refl
  delivered-stored (some message) id attempt later q h = after (later q) h
    where
      after :
          (r : Result (List Delivery) × MemoryQueue Bytes)
          → stored r.1 ≡ stored q
          → stored (delivered (some message) id attempt (λ _. r) q).1 ≡ stored q
      after (ok ds, q') h' = h'
      after (err e, q') h' = h'

  taken-stored :
      (b : Bytes) (attempt : ℕ) (rest : List (Bytes × ℕ)) (q : MemoryQueue Bytes)
      → q.ready ≡ (b, attempt) ∷ rest
      → stored (taken (b, attempt) rest q) ≡ stored q
  unfolding stored waiting out
  taken-stored b attempt rest q same = rw same (omega arith)

  receive_ready-stored :
      (n : ℕ) (ready : List (Bytes × ℕ)) (q : MemoryQueue Bytes)
      → q.ready ≡ ready
      → stored (receive_ready codec n ready q).1 ≡ stored q
  unfolding receive_ready
  receive_ready-stored zero ready q same = refl
  receive_ready-stored (suc n) [] q same = refl
  receive_ready-stored (suc n) ((b, attempt) ∷ rest) q same =
      let next = taken (b, attempt) rest q in
      delivered-stored (codec.from_bytes b) q.next_ack attempt (receive_ready codec n rest) next
        (receive_ready-stored n rest next refl)
      ∙ taken-stored b attempt rest q same

  requeued-stored :
      (o : Option (Bytes × ℕ)) (q : MemoryQueue Bytes)
      → stored (requeued o q) ≡ stored q + held_count o
  unfolding requeued stored held_count
  requeued-stored none q = omega arith
  requeued-stored (some (b, attempt)) q = omega (arith, waiting-append q.ready b (attempt + 1))

  nack-stored : (d : Delivery) (q : MemoryQueue Bytes) → stored (nack d q) ≡ stored q
  unfolding nack stored
  nack-stored d q =
      let left_over = record q { inflight = without d.ack_id q.inflight } in
      omega (
        arith,
        requeued-stored (held d.ack_id q.inflight) left_over,
        out-without d.ack_id q.inflight,
      )

  step-stored :
      (c : QueueCall) (q : MemoryQueue Bytes)
      → stored (step c q) + taken_out c q ≡ stored q + put_in c
  unfolding publish receive ack stored taken_out put_in
  step-stored (publish_call message) q =
      omega (arith, waiting-append q.ready (codec.to_bytes message) 1)
  step-stored (receive_call n) q = omega (arith, receive_ready-stored n q.ready q refl)
  step-stored (ack_call d) q = omega (arith, out-without d.ack_id q.inflight)
  step-stored (nack_call d) q = omega (arith, nack-stored d q)

  -- A sequence of calls, with all that it puts in and all that it takes out.
  unfoldable pub run_calls : List QueueCall → MemoryQueue Bytes → MemoryQueue Bytes
  unfolding publish receive ack nack
  run_calls [] q = q
  run_calls (c ∷ cs) q = run_calls cs (step c q)

  unfoldable pub all_in : List QueueCall → ℕ
  unfolding put_in
  all_in [] = 0
  all_in (c ∷ cs) = put_in c + all_in cs

  unfoldable pub all_out : List QueueCall → MemoryQueue Bytes → ℕ
  unfolding taken_out publish receive ack nack
  all_out [] q = 0
  all_out (c ∷ cs) q = taken_out c q + all_out cs (step c q)

  -- For any test on the bytes of a message, over any sequence of publish, receive, ack and nack calls:
  -- the messages stored at the end and those taken out by the ack of a delivery in flight are those
  -- stored at the start and those published. Receiving and nacking lose and duplicate nothing, a
  -- message that cannot be read included.
  pub run_calls-stored :
      (cs : List QueueCall) (q : MemoryQueue Bytes)
      → stored (run_calls cs q) + all_out cs q ≡ stored q + all_in cs
  unfolding run_calls all_in all_out
  run_calls-stored [] q = refl
  run_calls-stored (c ∷ cs) q = omega (arith, step-stored c q, run_calls-stored cs (step c q))
