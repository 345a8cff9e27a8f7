-- ===== src/Models/Payload.antt =====
-- The conversion row that is sent to the platform, a dict in src/gateway/upload/conversion.py: an
-- absent key is `none`. A calendar time carries its offset from UTC, as an aware datetime does.
use conversion_gateway.Prelude.{ℕ, Bool, String, Option, List}

pub record CivilTime : Type 0 where
  pub year : ℕ
  pub month : ℕ
  pub day : ℕ
  pub hour : ℕ
  pub minute : ℕ
  pub second : ℕ
  pub microsecond : ℕ
  pub west_of_utc : Bool
  pub offset_minutes : ℕ

-- A value of Numeric(18, 6): a sign and a count of millionths.
pub record Decimal : Type 0 where
  pub negative : Bool
  pub micros : ℕ

pub record AddressInfo : Type 0 where
  pub hashed_first_name : Option String
  pub hashed_last_name : Option String
  pub hashed_street_address : Option String
  pub city : Option String
  pub state : Option String
  pub postal_code : Option String
  pub country_code : Option String

pub data UserIdentifier : Type 0 where
  hashed_email : String → UserIdentifier
  hashed_phone_number : String → UserIdentifier
  address_info : AddressInfo → UserIdentifier

pub record ConsentBlock : Type 0 where
  pub ad_user_data : Option String
  pub ad_personalization : Option String

pub record Conversion : Type 0 where
  pub conversion_action : String
  pub conversion_date_time : String
  pub order_id : String
  pub conversion_value : Option Decimal
  pub currency_code : Option String
  pub gclid : Option String
  pub user_identifiers : List UserIdentifier
  pub consent : Option ConsentBlock
