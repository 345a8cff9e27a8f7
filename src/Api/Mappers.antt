-- ===== src/Api/Mappers.antt =====
-- The mappers from the two payloads to the canonical event: src/gateway/api/mappers.py.
use conversion_gateway.Prelude.{
  if◌then◌else◌, ◌<>◌, is_blank, join, str_of, String, Option, none, some, List, [], ◌∷◌, map,
}
use conversion_gateway.Normalise.Strings.{strip}
use conversion_gateway.Models.Status.{Source, salesforce, hubspot}
use conversion_gateway.Models.Payload.{CivilTime}
use conversion_gateway.Models.Canonical.{CanonicalLeadEvent}
use conversion_gateway.Upload.Json.{lookup, Json, null, integer, negative, text, object}
use conversion_gateway.Api.Schemas.{
  SalesforceWebhook, WebhookId, HubSpotWebhook, ErrorDetail, Validators, WebhookTime, naive, aware,
  LocationPart, key, place, Validated, model, errors,
}
use conversion_gateway.Api.Calendar.{from_epoch_millis}
use conversion_gateway.Api.Ingest.{make_event_id}

-- What `parse_and_map` gives: an event, or a ValidationError, or an exception of `fromtimestamp`, which
-- is none.
pub data Mapped : Type 0 where
  mapped : CanonicalLeadEvent → Mapped
  refused : List ErrorDetail → Mapped
  unrepresentable : Mapped

-- `value or None`
abbrev pub or_none : Option String → Option String
or_none none = none
or_none (some value) = if is_blank value then none else some value

abbrev pub signed_text : WebhookId → String
signed_text n = if n.below_zero then "-" <> str_of n.magnitude else str_of n.magnitude

-- The error of `must_be_timezone_aware`.
abbrev naive_time : ErrorDetail
naive_time = record { loc = key "conversion_time" ∷ []; type = "value_error"; input = null }

module _ (validators : Validators) where
  unfoldable pub present : Option String → Option String
  unfolding strip
  present none = none
  present (some value) = if is_blank (strip validators.is_space value) then none else some value

  -- The event, where its time has an offset.
  unfoldable pub salesforce_event : SalesforceWebhook → CivilTime → CanonicalLeadEvent
  unfolding present
  salesforce_event payload time = record {
    event_id = make_event_id salesforce payload.event_id;
    source = salesforce;
    source_event_id = payload.event_id;
    correlation_id = none;
    conversion_action = payload.conversion_action;
    conversion_time = time;
    conversion_value = payload.amount;
    currency = payload.currency;
    click_id = or_none payload.lead.gclid;
    identifiers = record {
      email = present payload.lead.email;
      phone = present payload.lead.phone;
      given_name = present payload.lead.first_name;
      family_name = present payload.lead.last_name;
      street_address = present payload.lead.street;
      city = present payload.lead.city;
      region = present payload.lead.state_code;
      postal_code = present payload.lead.postal_code;
      country = present payload.lead.country_code;
    };
    consent = record {
      ad_user_data = payload.lead.consent_ad_user_data;
      ad_personalization = payload.lead.consent_ad_personalization;
    };
  }

  unfoldable pub map_salesforce : SalesforceWebhook → WebhookTime → Mapped
  unfolding salesforce_event
  map_salesforce payload naive = refused (naive_time ∷ [])
  map_salesforce payload (aware time) = mapped (salesforce_event payload time)

  unfoldable pub hubspot_event : HubSpotWebhook → CivilTime → CanonicalLeadEvent
  unfolding present str_of
  hubspot_event payload time = record {
    event_id = make_event_id hubspot (signed_text payload.event_id);
    source = hubspot;
    source_event_id = signed_text payload.event_id;
    correlation_id = none;
    conversion_action = payload.conversion_action;
    conversion_time = time;
    conversion_value = payload.properties.amount;
    currency = payload.properties.deal_currency_code;
    click_id = or_none payload.properties.hs_google_click_id;
    identifiers = record {
      email = present payload.properties.email;
      phone = present payload.properties.phone;
      given_name = present payload.properties.firstname;
      family_name = present payload.properties.lastname;
      street_address = present payload.properties.address;
      city = present payload.properties.city;
      region = present payload.properties.state;
      postal_code = present payload.properties.zip;
      country = present payload.properties.country;
    };
    consent = record {
      ad_user_data = payload.properties.ad_user_data_consent;
      ad_personalization = payload.properties.ad_personalization_consent;
    };
  }

  unfoldable pub map_hubspot : HubSpotWebhook → Option CivilTime → Mapped
  unfolding hubspot_event
  map_hubspot payload none = unrepresentable
  map_hubspot payload (some time) = mapped (hubspot_event payload time)

  unfoldable pub from_salesforce : Validated SalesforceWebhook → Mapped
  unfolding map_salesforce
  from_salesforce (model payload) = map_salesforce payload payload.event_time
  from_salesforce (errors details) = refused details

  unfoldable pub from_hubspot : Validated HubSpotWebhook → Mapped
  unfolding map_hubspot from_epoch_millis
  from_hubspot (model payload) = map_hubspot payload (from_epoch_millis payload.occurred_at)
  from_hubspot (errors details) = refused details

  unfoldable pub parse_and_map : Source → Json → Mapped
  unfolding from_salesforce from_hubspot
  parse_and_map salesforce payload = from_salesforce (validators.salesforce_model payload)
  parse_and_map hubspot payload = from_hubspot (validators.hubspot_model payload)

  -- The id of an int or a text; a bool is an int that does not count.
  abbrev id_text : Json → Option String
  id_text (integer n) = some (str_of n)
  id_text (negative n) = some ("-" <> str_of n)
  id_text (text value) = if is_blank (strip validators.is_space value) then none else some value
  id_text _ = none

  abbrev id_key : Source → String
  id_key salesforce = "EventId"
  id_key hubspot = "eventId"

  unfoldable pub extract_source_event_id : Source → Json → Option String
  unfolding lookup str_of strip
  extract_source_event_id source (object fields) = elim (lookup (id_key source) fields) [
    | some value ↦ id_text value
    | none ↦ none
  ]
  extract_source_event_id source _ = none

abbrev part_text : LocationPart → String
part_text (key name) = name
part_text (place n) = str_of n

abbrev or_body : String → String
or_body name = if is_blank name then "body" else name

unfoldable rejection_reason : ErrorDetail → String × String
unfolding join str_of
rejection_reason e = (or_body (join "." (map part_text e.loc)), e.type)

unfoldable pub rejection_reasons : List ErrorDetail → List (String × String)
unfolding rejection_reason
rejection_reasons details = map rejection_reason details
