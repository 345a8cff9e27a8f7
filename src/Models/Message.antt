-- ===== src/Models/Message.antt =====
-- What travels on the queue: `RawIdentifiers` of src/gateway/normalise/identifiers.py and
-- `QueueMessage` of src/gateway/queue/base.py.
use conversion_gateway.Prelude.{ℕ, String, Option, none}

pub record RawIdentifiers : Type 0 where
  pub email : Option String
  pub phone : Option String
  pub given_name : Option String
  pub family_name : Option String
  pub street_address : Option String
  pub city : Option String
  pub region : Option String
  pub postal_code : Option String
  pub country : Option String

-- `RawIdentifiers()`
abbrev pub no_identifiers : RawIdentifiers
no_identifiers = record {
  email = none;
  phone = none;
  given_name = none;
  family_name = none;
  street_address = none;
  city = none;
  region = none;
  postal_code = none;
  country = none;
}

pub record QueueMessage : Type 0 where
  pub event_id : String
  pub identifiers : RawIdentifiers
  pub enqueued_at : ℕ
  pub correlation_id : Option String
