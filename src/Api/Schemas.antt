-- ===== src/Api/Schemas.antt =====
-- The two CRMs' payloads as they come out of validation: src/gateway/api/schemas. Validation itself is
-- pydantic's: a parameter, which gives a model or a list of errors.
use conversion_gateway.Prelude.{ℕ, String, Char, Bool, Option, List}
use conversion_gateway.Models.Payload.{CivilTime, Decimal}
use conversion_gateway.Consent.{ConsentStatus}
use conversion_gateway.Upload.Json.{Json}

-- A datetime with or without an offset.
pub data WebhookTime : Type 0 where
  naive : WebhookTime
  aware : CivilTime → WebhookTime

pub record SalesforceLead : Type 0 where
  pub id : String
  pub email : Option String
  pub phone : Option String
  pub first_name : Option String
  pub last_name : Option String
  pub street : Option String
  pub city : Option String
  pub state_code : Option String
  pub postal_code : Option String
  pub country_code : Option String
  pub gclid : Option String
  pub consent_ad_user_data : Option ConsentStatus
  pub consent_ad_personalization : Option ConsentStatus

pub record SalesforceWebhook : Type 0 where
  pub event_id : String
  pub event_time : WebhookTime
  pub conversion_action : String
  pub amount : Option Decimal
  pub currency : Option String
  pub lead : SalesforceLead

pub record HubSpotProperties : Type 0 where
  pub email : Option String
  pub phone : Option String
  pub firstname : Option String
  pub lastname : Option String
  pub address : Option String
  pub city : Option String
  pub state : Option String
  pub zip : Option String
  pub country : Option String
  pub hs_google_click_id : Option String
  pub amount : Option Decimal
  pub deal_currency_code : Option String
  pub ad_user_data_consent : Option ConsentStatus
  pub ad_personalization_consent : Option ConsentStatus

-- An `int`, by its sign and magnitude.
pub record WebhookId : Type 0 where
  pub below_zero : Bool
  pub magnitude : ℕ

pub record HubSpotWebhook : Type 0 where
  pub event_id : WebhookId
  pub object_id : WebhookId
  pub occurred_at : ℕ
  pub conversion_action : String
  pub properties : HubSpotProperties

-- A part of an error's location: a key, or a place in a list.
pub data LocationPart : Type 0 where
  key : String → LocationPart
  place : ℕ → LocationPart

-- One item of `error.errors()`: pydantic puts the offending input into it.
pub record ErrorDetail : Type 0 where
  pub loc : List LocationPart
  pub type : String
  pub input : Json

pub data Validated (A : Type 0) : Type 0 where
  model : A → Validated A
  errors : List ErrorDetail → Validated A

-- `model_validate` of the two models, and `str.isspace` of a character.
pub record Validators : Type 0 where
  pub salesforce_model : Json → Validated SalesforceWebhook
  pub hubspot_model : Json → Validated HubSpotWebhook
  pub is_space : Char → Bool
