-- ===== src/Models/Canonical.antt =====
-- The canonical event: src/gateway/models/canonical.py. Its validator's rule, an aware conversion
-- time, is the type of `conversion_time`.
use conversion_gateway.Prelude.{if◌then◌else◌, truthy, String, Option}
use conversion_gateway.Models.Status.{Source, MatchKeyType, user_identifiers}
use conversion_gateway.Models.Payload.{CivilTime, Decimal}
use conversion_gateway.Models.Message.{RawIdentifiers}
use conversion_gateway.Consent.{ConsentSignals}

pub record CanonicalLeadEvent : Type 0 where
  pub event_id : String
  pub source : Source
  pub source_event_id : String
  pub correlation_id : Option String
  pub conversion_action : String
  pub conversion_time : CivilTime
  pub conversion_value : Option Decimal
  pub currency : Option String
  pub click_id : Option String
  pub identifiers : RawIdentifiers
  pub consent : ConsentSignals

abbrev pub match_key_type : CanonicalLeadEvent → MatchKeyType
match_key_type event = if truthy event.click_id then MatchKeyType.click_id else user_identifiers
