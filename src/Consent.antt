-- ===== src/Consent.antt =====
-- The consent gate: src/gateway/consent/gate.py.
pub mod FailClosed
use conversion_gateway.Prelude.{if◌then◌else◌, String, Bool, true, false, Option, none, some, ◌==◌}

pub data ConsentStatus : Type 0 where
  granted denied unspecified : ConsentStatus

abbrev pub consent_status_value : ConsentStatus → String
consent_status_value granted = "GRANTED"
consent_status_value denied = "DENIED"
consent_status_value unspecified = "UNSPECIFIED"

-- `ConsentStatus(text)`, with `none` for its ValueError
abbrev pub parse_consent_status : String → Option ConsentStatus
parse_consent_status text =
    if text == "GRANTED"
    then some granted
    else if text == "DENIED"
    then some denied
    else if text == "UNSPECIFIED"
    then some unspecified
    else none

pub data SuppressionReason : Type 0 where
  ad_user_data_denied ad_user_data_unspecified ad_user_data_missing : SuppressionReason
  ad_personalization_denied ad_personalization_unspecified : SuppressionReason
  ad_personalization_missing : SuppressionReason

abbrev pub suppression_reason_value : SuppressionReason → String
suppression_reason_value ad_user_data_denied = "ad_user_data_denied"
suppression_reason_value ad_user_data_unspecified = "ad_user_data_unspecified"
suppression_reason_value ad_user_data_missing = "ad_user_data_missing"
suppression_reason_value ad_personalization_denied = "ad_personalization_denied"
suppression_reason_value ad_personalization_unspecified = "ad_personalization_unspecified"
suppression_reason_value ad_personalization_missing = "ad_personalization_missing"

pub record ConsentSignals : Type 0 where
  pub ad_user_data : Option ConsentStatus
  pub ad_personalization : Option ConsentStatus

pub record ConsentDecision : Type 0 where
  pub permitted : Bool
  pub reason : Option SuppressionReason

blocking_reason :
    Option ConsentStatus
    → SuppressionReason
    → SuppressionReason
    → SuppressionReason
    → Option SuppressionReason
blocking_reason (some granted) denied_reason unspecified_reason missing_reason = none
blocking_reason none denied_reason unspecified_reason missing_reason = some missing_reason
blocking_reason (some denied) denied_reason unspecified_reason missing_reason = some denied_reason
blocking_reason (some unspecified) denied_reason unspecified_reason missing_reason =
    some unspecified_reason

-- The early return on a blocking reason; the rest waits.
blocked_or : Option SuppressionReason → ConsentDecision → ConsentDecision
blocked_or (some reason) rest = record { permitted = false; reason = some reason }
blocked_or none rest = rest

unfoldable pub evaluate_consent : ConsentSignals → ConsentDecision
unfolding blocking_reason blocked_or
evaluate_consent signals =
    blocked_or
      (blocking_reason signals.ad_user_data ad_user_data_denied ad_user_data_unspecified
        ad_user_data_missing)
      (blocked_or
        (blocking_reason signals.ad_personalization ad_personalization_denied
          ad_personalization_unspecified ad_personalization_missing)
        (record { permitted = true; reason = none }))
