-- ===== src/MockAds/Rows.antt =====
-- What the mock reads in the rows that the gateway sends.
use conversion_gateway.Prelude.{
  String, ◌≡◌, refl, ap, ◌∙◌, true, false, Option, none, some, List, [], ◌∷◌, ◌++◌, ◌==◌,
}
use conversion_gateway.Models.Payload.{
  Decimal, ConsentBlock, Conversion, UserIdentifier, hashed_email, hashed_phone_number,
  address_info,
}
use conversion_gateway.Exec.{Result, ok}
use conversion_gateway.Upload.Json.{lookup, is_true, Json, null, text, Fields, field}
use conversion_gateway.Upload.Wire.{
  text_field, or_null, items_of, identifiers_json, consent_json, value_field, identifier_fields,
}
use conversion_gateway.MockAds.Pattern.{matches_all, hex64}
use conversion_gateway.MockAds.Validation.{or_list, field_of}

-- A computation that returns.
abbrev pub Returns : {A : Type 0} → Result A → Type 0
Returns {A} r = (a : A) × (r ≡ ok a)

module _ (key k : String) (differs : (k == key) ≡ false) (rest : Fields) where
  pub lookup-text_field : (v : Option String) → lookup key (text_field k v rest) ≡ lookup key rest
  unfolding lookup
  lookup-text_field none = refl
  lookup-text_field (some v) = rw differs refl

lookup-value_field :
    (key : String) (v : Option Decimal) (rest : Fields)
    → ("conversionValue" == key) ≡ false
    → lookup key (value_field v rest) ≡ lookup key rest
unfolding lookup
lookup-value_field key none rest differs = refl
lookup-value_field key (some v) rest differs = rw differs refl

-- What the row's dict has under `userIdentifiers` and `consent`.
abbrev pub identifiers_of : Conversion → Json
identifiers_of c = identifiers_json c.user_identifiers

abbrev pub sent_consent : List UserIdentifier → Option ConsentBlock → Json
sent_consent [] consent = null
sent_consent (i ∷ is) none = null
sent_consent (i ∷ is) (some c) = consent_json c

abbrev pub consent_of : Conversion → Json
consent_of c = sent_consent c.user_identifiers c.consent

-- What follows the three keys that every row has.
abbrev optional_fields : Conversion → Fields
optional_fields c = value_field c.conversion_value (
    text_field "currencyCode" c.currency_code
      (text_field "gclid" c.gclid (identifier_fields c.user_identifiers c.consent)))

lookup-optional_fields :
    (key : String) (c : Conversion)
    → ("conversionValue" == key) ≡ false
    → ("currencyCode" == key) ≡ false
    → lookup key (optional_fields c)
      ≡ lookup key (text_field "gclid" c.gclid (identifier_fields c.user_identifiers c.consent))
lookup-optional_fields key c value currency =
    lookup-value_field key c.conversion_value _ value
    ∙ lookup-text_field key "currencyCode" currency _ c.currency_code

gclid-sent :
    (gclid : Option String) (is : List UserIdentifier) (consent : Option ConsentBlock)
    → field_of "gclid" (text_field "gclid" gclid (identifier_fields is consent)) ≡ or_null gclid
unfolding field_of lookup
gclid-sent (some click) is consent = refl
gclid-sent none [] consent = refl
gclid-sent none (i ∷ is) none = refl
gclid-sent none (i ∷ is) (some c) = refl

identifiers-sent :
    (gclid : Option String) (is : List UserIdentifier) (consent : Option ConsentBlock)
    → or_list (field_of "userIdentifiers" (text_field "gclid" gclid (identifier_fields is consent)))
      ≡ identifiers_json is
unfolding field_of lookup is_true items_of
identifiers-sent none [] consent = refl
identifiers-sent (some click) [] consent = refl
identifiers-sent none (i ∷ is) none = refl
identifiers-sent none (i ∷ is) (some c) = refl
identifiers-sent (some click) (i ∷ is) none = refl
identifiers-sent (some click) (i ∷ is) (some c) = refl

consent-sent :
    (gclid : Option String) (is : List UserIdentifier) (consent : Option ConsentBlock)
    → field_of "consent" (text_field "gclid" gclid (identifier_fields is consent))
      ≡ sent_consent is consent
unfolding field_of lookup
consent-sent none [] consent = refl
consent-sent (some click) [] consent = refl
consent-sent none (i ∷ is) none = refl
consent-sent none (i ∷ is) (some c) = refl
consent-sent (some click) (i ∷ is) none = refl
consent-sent (some click) (i ∷ is) (some c) = refl

-- An identifier's digests: those that the mock looks at.
abbrev pub digest_of : Option String → List String
digest_of none = []
digest_of (some digest) = digest ∷ []

abbrev pub digests : UserIdentifier → List String
digests (hashed_email digest) = digest ∷ []
digests (hashed_phone_number digest) = digest ∷ []
digests (address_info a) =
    digest_of a.hashed_first_name
    ++ (digest_of a.hashed_last_name ++ digest_of a.hashed_street_address)

-- 64 characters of hex in lower case.
abbrev pub IsHex64 : String → Type 0
IsHex64 digest = matches_all hex64 digest ≡ true

abbrev pub row_fields : Conversion → Fields
row_fields c = field "conversionAction" (text c.conversion_action) (
    field "conversionDateTime" (text c.conversion_date_time)
      (field "orderId" (text c.order_id) (optional_fields c)))

module _ (c : Conversion) where
  pub action-field : field_of "conversionAction" (row_fields c) ≡ text c.conversion_action
  unfolding field_of lookup
  action-field = refl

  pub time-field : field_of "conversionDateTime" (row_fields c) ≡ text c.conversion_date_time
  unfolding field_of lookup
  time-field = refl

  abbrev last_fields : Fields
  last_fields = text_field "gclid" c.gclid (identifier_fields c.user_identifiers c.consent)

  pub gclid-field : field_of "gclid" (row_fields c) ≡ or_null c.gclid
  unfolding field_of lookup
  gclid-field =
      ap (λ found. elim found [ some v ↦ v | none ↦ null ])
        (lookup-optional_fields "gclid" c refl refl)
      ∙ gclid-sent c.gclid c.user_identifiers c.consent

  pub identifiers-field :
      or_list (field_of "userIdentifiers" (row_fields c)) ≡ identifiers_json c.user_identifiers
  unfolding field_of lookup
  identifiers-field =
      ap (λ found. or_list (elim found [ some v ↦ v | none ↦ null ]))
        (lookup-optional_fields "userIdentifiers" c refl refl)
      ∙ identifiers-sent c.gclid c.user_identifiers c.consent

  pub consent-field : field_of "consent" (row_fields c) ≡ consent_of c
  unfolding field_of lookup
  consent-field =
      ap (λ found. elim found [ some v ↦ v | none ↦ null ])
        (lookup-optional_fields "consent" c refl refl)
      ∙ consent-sent c.gclid c.user_identifiers c.consent
