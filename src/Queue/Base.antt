-- ===== src/Queue/Base.antt =====
-- A received message, and what a consumer offers. An ack id is a number: the code only compares them.
use conversion_gateway.Prelude.{ℕ, Option, List}
use conversion_gateway.Models.Message.{QueueMessage}
use conversion_gateway.Exec.{Result}

pub record Delivery : Type 0 where
  pub ack_id : ℕ
  pub message : QueueMessage
  pub attempt : ℕ

-- `QueueConsumer` over the state of a transport.
pub record Consumer (Q : Type 0) : Type 0 where
  pub receive : ℕ → Q → Result (List Delivery) × Q
  pub ack : Delivery → Q → Q
  pub nack : Delivery → Q → Q

-- `to_bytes` and `from_bytes`, with `none` for a ValidationError. The JSON text is pydantic's.
pub record Codec (Bytes : Type 0) : Type 0 where
  pub to_bytes : QueueMessage → Bytes
  pub from_bytes : Bytes → Option QueueMessage
