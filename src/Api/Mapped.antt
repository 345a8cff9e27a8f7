-- ===== src/Api/Mapped.antt =====
-- What the mappers of src/gateway/api/mappers.py make of any payload, and the ids that they make.
use conversion_gateway.Prelude.{
  Bool-cases, ◌<>◌, is_blank, ℕ, String, code, ◌≡◌, refl, sym, ap, ◌∙◌, subst, ◌≢◌, ◌⊎◌, inl, inr,
  true, false, Option, none, some, arith, cons-append, text_cancel_left,
}
use conversion_gateway.Normalise.Strings.{strip}
use conversion_gateway.Models.Status.{source_value, Source, salesforce, hubspot}
use conversion_gateway.Models.Payload.{CivilTime}
use conversion_gateway.Models.Canonical.{CanonicalLeadEvent}
use conversion_gateway.Upload.Json.{Json}
use conversion_gateway.Api.Ingest.{make_event_id}
use conversion_gateway.Api.Schemas.{
  SalesforceWebhook, HubSpotWebhook, Validators, WebhookTime, naive, aware, Validated, model,
  errors,
}
use conversion_gateway.Api.Calendar.{from_epoch_millis}
use conversion_gateway.Api.Mappers.{
  or_none, signed_text, present, salesforce_event, map_salesforce, hubspot_event, map_hubspot,
  from_salesforce, from_hubspot, parse_and_map, Mapped, mapped,
}

different_sources : (s t : String) → make_event_id salesforce s ≢ make_event_id hubspot t
different_sources s t same =
    let left_cons = cons-append "s" "alesforce" (":" <> s) in
    let right_cons = cons-append "h" "ubspot" (":" <> t) in
    let heads = ap first_code (sym left_cons ∙ same ∙ right_cons) in omega (arith, heads)
  where
    first_code : String → ℕ
    first_code String.[] = 0
    first_code (String.◌∷◌ c rest) = code c

same_suffix :
    (source : Source) (s t : String) → make_event_id source s ≡ make_event_id source t → s ≡ t
same_suffix source s t same =
    text_cancel_left ":" s t (text_cancel_left (source_value source) (":" <> s) (":" <> t) same)

-- Two events have one event id only if they have one source and one source event id: the id schemes of
-- the two CRMs cannot collide, whatever ids they give.
make_event_id-injective :
    (source other : Source) (s t : String)
    → make_event_id source s ≡ make_event_id other t
    → (source ≡ other) × (s ≡ t)
make_event_id-injective salesforce salesforce s t same = (refl, same_suffix salesforce s t same)
make_event_id-injective hubspot hubspot s t same = (refl, same_suffix hubspot s t same)
make_event_id-injective salesforce hubspot s t same = elim (different_sources s t same) [ ]
make_event_id-injective hubspot salesforce s t same = elim (different_sources t s (sym same)) [ ]

-- A click id is taken over unless it is empty.
abbrev IsClickOf : Option String → Option String → Type 0
IsClickOf none click = click ≡ none
IsClickOf (some String.[]) click = click ≡ none
IsClickOf (some (String.◌∷◌ c s)) click = click ≡ some (String.◌∷◌ c s)

or_none-IsClickOf : (value : Option String) → IsClickOf value (or_none value)
or_none-IsClickOf none = refl
or_none-IsClickOf (some String.[]) = refl
or_none-IsClickOf (some (String.◌∷◌ c s)) = refl

module _ (validators : Validators) where
  -- An identifier is taken over as it is, unless it has spaces at most.
  abbrev IsTaken : Option String → Option String → Type 0
  IsTaken none kept = kept ≡ none
  IsTaken (some value) kept =
      ((is_blank (strip validators.is_space value) ≡ true) × (kept ≡ none))
      ⊎ ((is_blank (strip validators.is_space value) ≡ false) × (kept ≡ some value))

  present-IsTaken : (value : Option String) → IsTaken value (present validators value)
  unfolding present
  present-IsTaken none = refl
  present-IsTaken (some value) = elim (Bool-cases (is_blank (strip validators.is_space value))) [
    | inl blank ↦ rw blank (inl (refl, refl))
    | inr filled ↦ rw filled (inr (refl, refl))
  ]

  -- What a mapped event has of a payload, part by part.
  pub record IsSalesforce (p : SalesforceWebhook) (event : CanonicalLeadEvent) : Type 0 where
    pub source : event.source ≡ salesforce
    pub source_event_id : event.source_event_id ≡ p.event_id
    pub event_id : event.event_id ≡ make_event_id salesforce p.event_id
    pub conversion_action : event.conversion_action ≡ p.conversion_action
    pub conversion_time : p.event_time ≡ aware event.conversion_time
    pub conversion_value : event.conversion_value ≡ p.amount
    pub currency : event.currency ≡ p.currency
    pub click_id : IsClickOf p.lead.gclid event.click_id
    pub ad_user_data : event.consent.ad_user_data ≡ p.lead.consent_ad_user_data
    pub ad_personalization : event.consent.ad_personalization ≡ p.lead.consent_ad_personalization
    pub email : IsTaken p.lead.email event.identifiers.email
    pub phone : IsTaken p.lead.phone event.identifiers.phone
    pub given_name : IsTaken p.lead.first_name event.identifiers.given_name
    pub family_name : IsTaken p.lead.last_name event.identifiers.family_name
    pub street_address : IsTaken p.lead.street event.identifiers.street_address
    pub city : IsTaken p.lead.city event.identifiers.city
    pub region : IsTaken p.lead.state_code event.identifiers.region
    pub postal_code : IsTaken p.lead.postal_code event.identifiers.postal_code
    pub country : IsTaken p.lead.country_code event.identifiers.country

  pub record IsHubSpot (p : HubSpotWebhook) (event : CanonicalLeadEvent) : Type 0 where
    pub source : event.source ≡ hubspot
    pub source_event_id : event.source_event_id ≡ signed_text p.event_id
    pub event_id : event.event_id ≡ make_event_id hubspot (signed_text p.event_id)
    pub conversion_action : event.conversion_action ≡ p.conversion_action
    pub conversion_time : from_epoch_millis p.occurred_at ≡ some event.conversion_time
    pub conversion_value : event.conversion_value ≡ p.properties.amount
    pub currency : event.currency ≡ p.properties.deal_currency_code
    pub click_id : IsClickOf p.properties.hs_google_click_id event.click_id
    pub ad_user_data : event.consent.ad_user_data ≡ p.properties.ad_user_data_consent
    pub ad_personalization :
        event.consent.ad_personalization ≡ p.properties.ad_personalization_consent
    pub email : IsTaken p.properties.email event.identifiers.email
    pub phone : IsTaken p.properties.phone event.identifiers.phone
    pub given_name : IsTaken p.properties.firstname event.identifiers.given_name
    pub family_name : IsTaken p.properties.lastname event.identifiers.family_name
    pub street_address : IsTaken p.properties.address event.identifiers.street_address
    pub city : IsTaken p.properties.city event.identifiers.city
    pub region : IsTaken p.properties.state event.identifiers.region
    pub postal_code : IsTaken p.properties.zip event.identifiers.postal_code
    pub country : IsTaken p.properties.country event.identifiers.country

  -- The event is what the payload says, read as its CRM writes it.
  abbrev pub IsMapped : Source → Json → CanonicalLeadEvent → Type 0
  IsMapped salesforce payload event =
      (p : SalesforceWebhook) × (validators.salesforce_model payload ≡ model p)
      × IsSalesforce p event
  IsMapped hubspot payload event =
      (p : HubSpotWebhook) × (validators.hubspot_model payload ≡ model p) × IsHubSpot p event

  salesforce_event-IsSalesforce :
      (p : SalesforceWebhook) (time : CivilTime)
      → p.event_time ≡ aware time
      → IsSalesforce p (salesforce_event validators p time)
  unfolding salesforce_event
  salesforce_event-IsSalesforce p time timed = record {
    source = refl;
    source_event_id = refl;
    event_id = refl;
    conversion_action = refl;
    conversion_time = timed;
    conversion_value = refl;
    currency = refl;
    click_id = or_none-IsClickOf p.lead.gclid;
    ad_user_data = refl;
    ad_personalization = refl;
    email = present-IsTaken p.lead.email;
    phone = present-IsTaken p.lead.phone;
    given_name = present-IsTaken p.lead.first_name;
    family_name = present-IsTaken p.lead.last_name;
    street_address = present-IsTaken p.lead.street;
    city = present-IsTaken p.lead.city;
    region = present-IsTaken p.lead.state_code;
    postal_code = present-IsTaken p.lead.postal_code;
    country = present-IsTaken p.lead.country_code;
  }

  hubspot_event-IsHubSpot :
      (p : HubSpotWebhook) (time : CivilTime)
      → from_epoch_millis p.occurred_at ≡ some time
      → IsHubSpot p (hubspot_event validators p time)
  unfolding hubspot_event
  hubspot_event-IsHubSpot p time timed = record {
    source = refl;
    source_event_id = refl;
    event_id = refl;
    conversion_action = refl;
    conversion_time = timed;
    conversion_value = refl;
    currency = refl;
    click_id = or_none-IsClickOf p.properties.hs_google_click_id;
    ad_user_data = refl;
    ad_personalization = refl;
    email = present-IsTaken p.properties.email;
    phone = present-IsTaken p.properties.phone;
    given_name = present-IsTaken p.properties.firstname;
    family_name = present-IsTaken p.properties.lastname;
    street_address = present-IsTaken p.properties.address;
    city = present-IsTaken p.properties.city;
    region = present-IsTaken p.properties.state;
    postal_code = present-IsTaken p.properties.zip;
    country = present-IsTaken p.properties.country;
  }

  abbrev IsFine : Source → Json → Mapped → Type 0
  IsFine source payload (mapped event) = IsMapped source payload event
  IsFine source payload _ = Unit

  map_salesforce-IsFine :
      (payload : Json) (p : SalesforceWebhook) (time : WebhookTime)
      → validators.salesforce_model payload ≡ model p
      → p.event_time ≡ time
      → IsFine salesforce payload (map_salesforce validators p time)
  unfolding map_salesforce
  map_salesforce-IsFine payload p naive accepted timed = tt
  map_salesforce-IsFine payload p (aware time) accepted timed =
      (p, accepted, salesforce_event-IsSalesforce p time timed)

  map_hubspot-IsFine :
      (payload : Json) (p : HubSpotWebhook) (time : Option CivilTime)
      → validators.hubspot_model payload ≡ model p
      → from_epoch_millis p.occurred_at ≡ time
      → IsFine hubspot payload (map_hubspot validators p time)
  unfolding map_hubspot
  map_hubspot-IsFine payload p none accepted timed = tt
  map_hubspot-IsFine payload p (some time) accepted timed =
      (p, accepted, hubspot_event-IsHubSpot p time timed)

  from_salesforce-IsFine :
      (payload : Json) (result : Validated SalesforceWebhook)
      → validators.salesforce_model payload ≡ result
      → IsFine salesforce payload (from_salesforce validators result)
  unfolding from_salesforce
  from_salesforce-IsFine payload (model p) accepted =
      map_salesforce-IsFine payload p p.event_time accepted refl
  from_salesforce-IsFine payload (errors details) accepted = tt

  from_hubspot-IsFine :
      (payload : Json) (result : Validated HubSpotWebhook)
      → validators.hubspot_model payload ≡ result
      → IsFine hubspot payload (from_hubspot validators result)
  unfolding from_hubspot
  from_hubspot-IsFine payload (model p) accepted =
      map_hubspot-IsFine payload p (from_epoch_millis p.occurred_at) accepted refl
  from_hubspot-IsFine payload (errors details) accepted = tt

  parse_and_map-IsFine :
      (source : Source) (payload : Json)
      → IsFine source payload (parse_and_map validators source payload)
  unfolding parse_and_map
  parse_and_map-IsFine salesforce payload =
      from_salesforce-IsFine payload (validators.salesforce_model payload) refl
  parse_and_map-IsFine hubspot payload =
      from_hubspot-IsFine payload (validators.hubspot_model payload) refl

  -- A mapped event comes of a payload that the CRM's model accepts. It is of that source, under the
  -- source's own id and the id made of both, with the payload's action, value, currency and both
  -- consent signals, and with its time, which has an offset or is in range. The click id is the
  -- payload's own, and absent where that is missing or empty; each identifier is the payload's own,
  -- and absent where that is missing or has spaces at most.
  pub parse_and_map-IsMapped :
      (source : Source) (payload : Json) (event : CanonicalLeadEvent)
      → parse_and_map validators source payload ≡ mapped event
      → IsMapped source payload event
  parse_and_map-IsMapped source payload event maps =
      subst (IsFine source payload) maps (parse_and_map-IsFine source payload)
