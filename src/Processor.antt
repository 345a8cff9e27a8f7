-- ===== src/Processor.antt =====
-- The processing of one queued event: src/gateway/processor.py. Log lines are left out.
pub mod Decision
pub mod Gated
pub mod Redelivery
use conversion_gateway.Prelude.{
  if◌then◌else◌, select, is_some, ◌<>◌, is_blank, left, join, truthy, ℕ, String, Bool, true, false,
  ◌&&◌, ◌||◌, not, Option, none, some, List, [], ◌∷◌, map,
}
use conversion_gateway.Models.Status.{status_eq, EventStatus, queued}
use conversion_gateway.Models.Rows.{HashedIdentifiers, Event}
use conversion_gateway.Models.Message.{RawIdentifiers, QueueMessage}
use conversion_gateway.Consent.{
  parse_consent_status, suppression_reason_value, evaluate_consent, ConsentSignals, ConsentDecision,
  ConsentStatus, SuppressionReason,
}
use conversion_gateway.Exec.{
  Exec, pure, or_raise, ◌>>=◌, ◌>>◌, count, for_each, events_rejected_total,
  events_suppressed_total, assertion_error, value_error,
}
use conversion_gateway.Normalise.Libs.{Libs}
use conversion_gateway.Normalise.Fields.{rejection_value, RejectionReason, no_match_key}
use conversion_gateway.Normalise.Identifiers.{build_user_identifiers, FieldRejection}
use conversion_gateway.Ledger.{get_event, transition, record_processed}
use conversion_gateway.Dlq.{unknown}

pub data ProcessOutcome : Type 0 where
  processed suppressed rejected skipped_not_queued skipped_unknown_event : ProcessOutcome

-- `ConsentStatus(text) if text else None`
abbrev pub read_consent : Option String → Exec (Option ConsentStatus)
read_consent none = pure none
read_consent (some text) =
    if is_blank text
    then pure none
    else (or_raise (parse_consent_status text) value_error >>= λ status. pure (some status))

unfoldable pub consent_from_row : Event → Exec ConsentSignals
consent_from_row event = do
  ad_user_data ← read_consent event.consent_ad_user_data
  ad_personalization ← read_consent event.consent_ad_personalization
  pure (record { ad_user_data = ad_user_data; ad_personalization = ad_personalization })

-- `identifiers == RawIdentifiers()`
abbrev is_bare : RawIdentifiers → Bool
is_bare raw = not (
    is_some raw.email
    || is_some raw.phone
    || is_some raw.given_name
    || is_some raw.family_name
    || is_some raw.street_address
    || is_some raw.city
    || is_some raw.region
    || is_some raw.postal_code
    || is_some raw.country)

abbrev pub is_no_match_key : RejectionReason → Bool
is_no_match_key no_match_key = true
is_no_match_key _ = false

-- The rejections that count: a click id is itself a match key.
abbrev pub counted_rejections : Option String → List FieldRejection → List FieldRejection
counted_rejections click_id rejections =
    select (λ r. not (truthy click_id && is_no_match_key r.reason)) rejections

abbrev rejection_text : FieldRejection → String
rejection_text r = rejection_value r.reason <> (":" <> r.field)

-- The status reason of a rejected event, cut to the column's width.
unfoldable pub rejection_summary : List FieldRejection → String
unfolding left join
rejection_summary rejections = left 512 (join ";" (map rejection_text rejections))

unfoldable pub suppress : Event → SuppressionReason → ℕ → Exec ProcessOutcome
unfolding transition
suppress event reason now = do
  transition event.event_id EventStatus.suppressed (some (suppression_reason_value reason)) now
  count (
      events_suppressed_total event.source (unknown event.conversion_action)
        (suppression_reason_value reason))
  pure suppressed

unfoldable pub finish : Event → HashedIdentifiers → ℕ → Exec ProcessOutcome
unfolding record_processed
finish event identifiers now = do record_processed event.event_id identifiers now; pure processed

unfoldable pub count_rejection : Event → FieldRejection → Exec (Unit {0})
count_rejection event r = count (
    events_rejected_total event.source (unknown event.conversion_action) (rejection_value r.reason))

-- `if rejections:` and what follows it
unfoldable pub settle : Event → HashedIdentifiers → ℕ → List FieldRejection → Exec ProcessOutcome
unfolding transition finish rejection_summary count_rejection for_each
settle event identifiers now [] = finish event identifiers now
settle event identifiers now (r ∷ rs) = do
  transition event.event_id EventStatus.rejected (some (rejection_summary (r ∷ rs))) now
  for_each (r ∷ rs) (count_rejection event)
  pure rejected

-- The digests that a replayed event has on its row.
abbrev pub reusable : RawIdentifiers → Option HashedIdentifiers → Option HashedIdentifiers
reusable raw hashed = if is_bare raw then hashed else none

module _ (libs : Libs) where
  unfoldable pub identify :
      Option HashedIdentifiers → Event → RawIdentifiers → ℕ → Exec ProcessOutcome
  unfolding finish settle build_user_identifiers
  identify (some hashed) event raw now = finish event hashed now
  identify none event raw now =
      let result = build_user_identifiers libs raw in
      settle event result.identifiers now (counted_rejections event.click_id result.rejections)

  unfoldable pub gate : ConsentDecision → Event → RawIdentifiers → ℕ → Exec ProcessOutcome
  unfolding suppress identify
  gate decision event raw now =
      if decision.permitted
      then identify (reusable raw event.hashed_identifiers) event raw now
      else (or_raise decision.reason assertion_error >>= λ reason. suppress event reason now)

  unfoldable pub process_row : Option Event → RawIdentifiers → ℕ → Exec ProcessOutcome
  unfolding consent_from_row evaluate_consent gate
  process_row none raw now = pure skipped_unknown_event
  process_row (some event) raw now =
      if not (status_eq event.status queued)
      then pure skipped_not_queued
      else (consent_from_row event >>= λ signals. gate (evaluate_consent signals) event raw now)

  unfoldable pub process_message : QueueMessage → ℕ → Exec ProcessOutcome
  unfolding get_event process_row
  process_message message now =
      get_event message.event_id >>= λ found. process_row found message.identifiers now
