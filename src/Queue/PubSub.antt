-- ===== src/Queue/PubSub.antt =====
-- The Pub/Sub transport: src/gateway/queue/pubsub.py. Google's client is a parameter, over the state of
-- the service, which is all that it changes.
use conversion_gateway.Prelude.{ℕ, zero, suc, String, Option, none, some, List, [], ◌∷◌}
use conversion_gateway.Models.Message.{QueueMessage}
use conversion_gateway.Exec.{Error, value_error, Result, ok, err}
use conversion_gateway.Queue.Base.{Delivery, Consumer, Codec}

-- What `pull` brings back.
pub record Received (Bytes : Type 0) : Type 0 where
  pub ack_id : ℕ
  pub «data» : Bytes
  pub delivery_attempt : Option ℕ

pub data Pulled (Bytes : Type 0) : Type 0 where
  messages : List (Received Bytes) → Pulled Bytes
  deadline_exceeded : Pulled Bytes
  failed : Error → Pulled Bytes

pub data Created : Type 0 where
  created already_exists : Created
  create_failed : Error → Created

pub record PubSubClient (Q Bytes : Type 0) : Type 0 where
  -- `publish` and the `result` of its future
  pub publish : String → Bytes → Q → Result (Unit {0}) × Q
  pub pull : String → ℕ → Q → Pulled Bytes × Q
  pub acknowledge : String → ℕ → Q → Q
  pub modify_ack_deadline : String → ℕ → ℕ → Q → Q
  pub create_topic : String → Q → Created × Q
  pub create_subscription : String → String → ℕ → Q → Created × Q
  pub topic_path : String → String → String
  pub subscription_path : String → String → String

-- `received.delivery_attempt or 1`
abbrev attempt_or_one : Option ℕ → ℕ
attempt_or_one none = 1
attempt_or_one (some zero) = 1
attempt_or_one (some (suc n)) = suc n

-- `except gexc.AlreadyExists: pass`
abbrev if_created : {Q : Type 0} → (Q → Result (Unit {0}) × Q) → Created × Q → Result (Unit {0}) × Q
if_created next (created, q) = next q
if_created next (already_exists, q) = next q
if_created next (create_failed e, q) = (err e, q)

module _ {Q Bytes : Type 0} (codec : Codec Bytes) (client : PubSubClient Q Bytes) where
  -- `PubSubPublisher.publish`
  unfoldable pubsub_publish : String → String → QueueMessage → Q → Result (Unit {0}) × Q
  pubsub_publish project_id topic message q =
      client.publish (client.topic_path project_id topic) (codec.to_bytes message) q

  -- The list of deliveries: one message that does not decode raises for all.
  unfoldable pub decoded : List (Received Bytes) → Result (List Delivery)
  decoded [] = ok []
  decoded (received ∷ rest) =
      let others = decoded rest in
      elim (codec.from_bytes received.«data») [
        | none ↦ err value_error
        | some message ↦ elim others [
          | err e ↦ err e
          | ok deliveries ↦ ok (
              record {
                ack_id = received.ack_id;
                message = message;
                attempt = attempt_or_one received.delivery_attempt;
              }
              ∷ deliveries)
        ]
      ]

  unfoldable pulled : Pulled Bytes × Q → Result (List Delivery) × Q
  unfolding decoded
  pulled (messages received, q) = (decoded received, q)
  pulled (deadline_exceeded, q) = (ok [], q)
  pulled (failed e, q) = (err e, q)

  -- `PubSubConsumer`
  unfoldable pubsub_consumer : String → String → Consumer Q
  unfolding pulled
  pubsub_consumer project_id subscription =
      let path = client.subscription_path project_id subscription in
      record {
        receive = λ max_messages q. pulled (client.pull path max_messages q);
        ack = λ delivery q. client.acknowledge path delivery.ack_id q;
        nack = λ delivery q. client.modify_ack_deadline path delivery.ack_id 0 q;
      }

  unfoldable pub ensure_topic_and_subscription :
      String → String → String → Q → Result (Unit {0}) × Q
  ensure_topic_and_subscription project_id topic subscription q =
      let topic_path = client.topic_path project_id topic in
      let subscription_path = client.subscription_path project_id subscription in
      if_created
        (λ q'.
          if_created (λ q''. (ok tt, q''))
            (client.create_subscription subscription_path topic_path 60 q'))
        (client.create_topic topic_path q)
