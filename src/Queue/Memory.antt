-- ===== src/Queue/Memory.antt =====
-- `MemoryQueue`. Each method runs under the queue's lock; `receive` begins where its wait has ended.
-- `uuid4` is a counter: an ack id has not been given before.
use conversion_gateway.Prelude.{
  nat_eq, if◌then◌else◌, ℕ, zero, suc, ◌+◌, Option, none, some, List, [], ◌∷◌, ◌++◌,
}
use conversion_gateway.Models.Message.{QueueMessage}
use conversion_gateway.Exec.{value_error, Result, ok, err}
use conversion_gateway.Queue.Base.{Delivery, Consumer, Codec}

pub record MemoryQueue (Bytes : Type 0) : Type 0 where
  pub ready : List (Bytes × ℕ)
  pub inflight : List (ℕ × (Bytes × ℕ))
  pub next_ack : ℕ

module _ {A : Type 0} where
  -- `inflight.get(ack_id)`
  unfoldable pub held : ℕ → List (ℕ × A) → Option A
  held id [] = none
  held id ((k, a) ∷ rest) = if nat_eq k id then some a else held id rest

  -- `inflight` after `pop(ack_id, None)`
  unfoldable pub without : ℕ → List (ℕ × A) → List (ℕ × A)
  without id [] = []
  without id ((k, a) ∷ rest) = if nat_eq k id then rest else (k, a) ∷ without id rest

module _ {Bytes : Type 0} where
  unfoldable pub ack : Delivery → MemoryQueue Bytes → MemoryQueue Bytes
  unfolding without
  ack delivery q = record q { inflight = without delivery.ack_id q.inflight }

  unfoldable pub requeued : Option (Bytes × ℕ) → MemoryQueue Bytes → MemoryQueue Bytes
  requeued none q = q
  requeued (some (bytes, attempt)) q = record q { ready = q.ready ++ (bytes, attempt + 1) ∷ [] }

  unfoldable pub nack : Delivery → MemoryQueue Bytes → MemoryQueue Bytes
  unfolding held without requeued
  nack delivery q =
      requeued (held delivery.ack_id q.inflight)
        (record q { inflight = without delivery.ack_id q.inflight })

  -- One round of the loop: `entry` is now in flight, and `rest` is ready.
  abbrev pub taken : Bytes × ℕ → List (Bytes × ℕ) → MemoryQueue Bytes → MemoryQueue Bytes
  taken entry rest q = record {
    ready = rest;
    inflight = (q.next_ack, entry) ∷ q.inflight;
    next_ack = q.next_ack + 1;
  }

  -- The delivery before those of the rounds that follow. A message that cannot be read raises.
  unfoldable pub delivered :
      Option QueueMessage
      → ℕ
      → ℕ
      → (MemoryQueue Bytes → Result (List Delivery) × MemoryQueue Bytes)
      → MemoryQueue Bytes
      → Result (List Delivery) × MemoryQueue Bytes
  delivered none id attempt later q = (err value_error, q)
  delivered (some message) id attempt later q =
      let (r, q') = later q in
      elim r [
        | ok ds ↦ (ok (record { ack_id = id; message = message; attempt = attempt } ∷ ds), q')
        | err e ↦ (err e, q')
      ]

  module _ (codec : Codec Bytes) where
    unfoldable pub publish : QueueMessage → MemoryQueue Bytes → MemoryQueue Bytes
    publish message q = record q { ready = q.ready ++ (codec.to_bytes message, 1) ∷ [] }

    -- The rounds of `receive` over the ready messages.
    unfoldable pub receive_ready :
        ℕ → List (Bytes × ℕ) → MemoryQueue Bytes → Result (List Delivery) × MemoryQueue Bytes
    unfolding delivered
    receive_ready zero ready q = (ok [], q)
    receive_ready (suc n) [] q = (ok [], q)
    receive_ready (suc n) ((bytes, attempt) ∷ rest) q =
        delivered (codec.from_bytes bytes) q.next_ack attempt (receive_ready n rest)
          (taken (bytes, attempt) rest q)

    unfoldable pub receive : ℕ → MemoryQueue Bytes → Result (List Delivery) × MemoryQueue Bytes
    unfolding receive_ready
    receive max_messages q = receive_ready max_messages q.ready q

    abbrev pub memory_consumer : Consumer (MemoryQueue Bytes)
    memory_consumer = record { receive = receive; ack = ack; nack = nack }
