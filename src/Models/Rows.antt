-- ===== src/Models/Rows.antt =====
-- The rows of the ledger's three tables and the values in their columns:
-- src/gateway/models/ledger.py, and the identifier records of src/gateway/normalise/identifiers.py
-- that its JSON column holds. A datetime is the number of microseconds since datetime.min in UTC.
-- The `status` columns hold the enum itself; every other enum column holds the member's text.
use conversion_gateway.Prelude.{ℕ, String, Option, List}
use conversion_gateway.Models.Status.{EventStatus}
use conversion_gateway.Models.Payload.{CivilTime, Decimal, Conversion}

-- `HashedIdentifiers`, as stored by `model_dump()`.
pub record HashedIdentifiers : Type 0 where
  pub hashed_email : Option String
  pub hashed_phone : Option String
  pub hashed_given_name : Option String
  pub hashed_family_name : Option String
  pub hashed_street_address : Option String
  pub city : Option String
  pub region : Option String
  pub postal_code : Option String
  pub country : Option String

pub record Event : Type 0 where
  pub event_id : String
  pub source : String
  pub source_event_id : String
  pub received_at : ℕ
  pub correlation_id : Option String
  pub conversion_action : Option String
  pub conversion_time : Option CivilTime
  pub conversion_value : Option Decimal
  pub currency : Option String
  pub match_key_type : Option String
  pub click_id : Option String
  pub hashed_identifiers : Option HashedIdentifiers
  pub consent_ad_user_data : Option String
  pub consent_ad_personalization : Option String
  pub status : EventStatus
  pub status_reason : Option String
  pub attempt_count : ℕ
  pub last_attempt_at : Option ℕ

-- The autoincremented id is the row's place in the table.
pub record EventTransition : Type 0 where
  pub event_id : String
  pub from_status : Option EventStatus
  pub to_status : EventStatus
  pub reason : Option String
  pub occurred_at : ℕ

-- One item of a dead letter's `attempt_history`.
pub record Attempt : Type 0 where
  pub at : ℕ
  pub status : EventStatus
  pub reason : Option String

pub record DeadLetter : Type 0 where
  pub id : ℕ
  pub event_id : String
  pub source : String
  pub conversion_action : Option String
  pub dead_lettered_at : ℕ
  pub failure_class : String
  pub reason : String
  pub platform_error_code : Option String
  pub platform_error_message : Option String
  pub payload : Conversion
  pub attempt_history : List Attempt
  pub replayed_at : Option ℕ
  pub replay_count : ℕ
