-- ===== src/Normalise/Identifiers.antt =====
-- `build_user_identifiers`: src/gateway/normalise/identifiers.py.
use conversion_gateway.Prelude.{
  if◌then◌else◌, is_some, String, Bool, ◌&&◌, ◌||◌, Option, none, some, List, [], ◌∷◌, ◌++◌,
}
use conversion_gateway.Models.Rows.{HashedIdentifiers}
use conversion_gateway.Models.Message.{RawIdentifiers}
use conversion_gateway.Normalise.Libs.{Libs}
use conversion_gateway.Normalise.Fields.{
  normalise_email, normalise_name, normalise_street, normalise_city, normalise_region,
  normalise_postal_code, normalise_country, normalise_phone, RejectionReason, no_match_key, Outcome,
  value, reject,
}

pub record FieldRejection : Type 0 where
  pub field : String
  pub reason : RejectionReason

pub record IdentifierBuildResult : Type 0 where
  pub identifiers : HashedIdentifiers
  pub rejections : List FieldRejection

unfoldable pub has_match_key : HashedIdentifiers → Bool
has_match_key h =
    is_some h.hashed_email
    || is_some h.hashed_phone
    || (is_some h.hashed_given_name
        && is_some h.hashed_family_name
        && is_some h.postal_code
        && is_some h.country)

-- An entry of `outcomes`, absent for a field that is None.
abbrev outcome_of : Option String → Outcome → Option Outcome
outcome_of none outcome = none
outcome_of (some raw) outcome = some outcome

-- `_plain_or_none(outcomes.get(field, absent))`
abbrev plain_or_none : Option Outcome → Option String
plain_or_none none = none
plain_or_none (some (value text)) = some text
plain_or_none (some (reject reason)) = none

abbrev rejection_of : String → Option Outcome → List FieldRejection
rejection_of field none = []
rejection_of field (some (value text)) = []
rejection_of field (some (reject reason)) = record { field = field; reason = reason } ∷ []

abbrev region_of : Outcome → Option String
region_of (value text) = some text
region_of (reject reason) = none

-- The dict `outcomes`, by field.
pub record Outcomes : Type 0 where
  pub country : Option Outcome
  pub email : Option Outcome
  pub phone : Option Outcome
  pub given_name : Option Outcome
  pub family_name : Option Outcome
  pub street_address : Option Outcome
  pub city : Option Outcome
  pub region : Option Outcome
  pub postal_code : Option Outcome

-- The rejections, in the order in which the fields were put into the dict.
abbrev pub field_rejections : Outcomes → List FieldRejection
field_rejections o =
    rejection_of "country" o.country
    ++ (rejection_of "email" o.email
        ++ (rejection_of "phone" o.phone
            ++ (rejection_of "given_name" o.given_name
                ++ (rejection_of "family_name" o.family_name
                    ++ (rejection_of "street_address" o.street_address
                        ++ (rejection_of "city" o.city
                            ++ (rejection_of "region" o.region
                                ++ rejection_of "postal_code" o.postal_code)))))))

module _ (libs : Libs) where
  -- `_hash_or_none(outcomes.get(field, absent))`
  abbrev hash_or_none : Option Outcome → Option String
  hash_or_none none = none
  hash_or_none (some (value text)) = some (libs.sha256_hex text)
  hash_or_none (some (reject reason)) = none

  abbrev pub outcomes_of : RawIdentifiers → Outcomes
  outcomes_of raw =
      let country = normalise_country libs raw.country in
      record {
        country = outcome_of raw.country country;
        email = outcome_of raw.email (normalise_email libs raw.email);
        phone = outcome_of raw.phone (normalise_phone libs raw.phone (region_of country));
        given_name = outcome_of raw.given_name (normalise_name libs raw.given_name);
        family_name = outcome_of raw.family_name (normalise_name libs raw.family_name);
        street_address = outcome_of raw.street_address (normalise_street libs raw.street_address);
        city = outcome_of raw.city (normalise_city libs raw.city);
        region = outcome_of raw.region (normalise_region libs raw.region);
        postal_code = outcome_of raw.postal_code (normalise_postal_code libs raw.postal_code);
      }

  abbrev hashed_of : Outcomes → HashedIdentifiers
  hashed_of o = record {
    hashed_email = hash_or_none o.email;
    hashed_phone = hash_or_none o.phone;
    hashed_given_name = hash_or_none o.given_name;
    hashed_family_name = hash_or_none o.family_name;
    hashed_street_address = hash_or_none o.street_address;
    city = plain_or_none o.city;
    region = plain_or_none o.region;
    postal_code = plain_or_none o.postal_code;
    country = plain_or_none o.country;
  }

  build_from : Outcomes → IdentifierBuildResult
  unfolding has_match_key
  build_from o = record {
    identifiers = hashed_of o;
    rejections =
        if has_match_key (hashed_of o)
        then field_rejections o
        else field_rejections o ++ record { field = "identifiers"; reason = no_match_key } ∷ [];
  }

  unfoldable pub build_user_identifiers : RawIdentifiers → IdentifierBuildResult
  unfolding build_from
  build_user_identifiers raw = build_from (outcomes_of raw)
