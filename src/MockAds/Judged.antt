-- ===== src/MockAds/Judged.antt =====
-- The mock's judgement of a row that the gateway sends.
use conversion_gateway.Prelude.{
  Bool-cases, Option-cases, All, String, Char, ◌≡◌, refl, sym, ◌∙◌, subst, inl, inr, Bool, true,
  false, ◌&&◌, not, Option, none, some, List, [], ◌∷◌, map, ◌==◌,
}
use conversion_gateway.Models.Payload.{
  AddressInfo, ConsentBlock, Conversion, UserIdentifier, hashed_email, hashed_phone_number,
  address_info,
}
use conversion_gateway.Exec.{Result, ok}
use conversion_gateway.Upload.Json.{lookup, subscript, is_true, Json, text, object, Fields}
use conversion_gateway.Upload.Wire.{
  or_null, address_json, identifier_json, items_of, identifiers_json, row_json, elements-items_of,
}
use conversion_gateway.MockAds.Pattern.{matches_all, hex64}
use conversion_gateway.MockAds.Validation.{
  address_keys, unless_returned, str, has_bad_digest, is_bad_identifier, has_bad_identifier,
  action_error, time_error, consent_error, identifier_error, validate_row,
}
use conversion_gateway.MockAds.Rows.{
  Returns, identifiers_of, sent_consent, consent_of, IsHex64, action-field, time-field, gclid-field,
  identifiers-field, consent-field,
}

subscript-found :
    (key : String) (fields : Fields) (v : Json)
    → lookup key fields ≡ some v
    → subscript (object fields) key ≡ ok v
unfolding subscript
subscript-found key fields v found = rw (found, subscript) refl

module _ (is_decimal : Char → Bool) (str_of_json : Json → String) where
  -- What `validate_row` looks at in a row of the gateway.
  pub validate_row-row_json :
      (known_actions : List String) (c : Conversion)
      → validate_row is_decimal str_of_json known_actions (row_json c)
        ≡ unless_returned
            (action_error is_decimal str_of_json known_actions (text c.conversion_action))
            (unless_returned (time_error is_decimal str_of_json (text c.conversion_date_time)) (
              identifier_error is_decimal str_of_json
                (or_null c.gclid)
                (identifiers_of c)
                (consent_of c)))
  unfolding validate_row row_json
  validate_row-row_json known_actions c =
      rw (action-field c, time-field c, gclid-field c, identifiers-field c, consent-field c) refl

  has_bad_digest-Returns :
      (fields : Fields) (keys : List String)
      → Returns (has_bad_digest is_decimal str_of_json (object fields) keys)
  unfolding has_bad_digest
  has_bad_digest-Returns fields [] = (false, refl)
  has_bad_digest-Returns fields (key ∷ keys) =
      let (later, e) = has_bad_digest-Returns fields keys in
      elim (Option-cases (lookup key fields)) [
        | inl missing ↦ (later, rw missing e)
        | inr (v, found) ↦ elim (Bool-cases (matches_all hex64 (str is_decimal str_of_json v))) [
          | inl good ↦ (later, rw (subscript-found key fields v found, found, good) e)
          | inr bad ↦ (true, rw (subscript-found key fields v found, found, bad) refl)
        ]
      ]

  -- A list of keys whose values are digests.
  pub has_bad_digest-none :
      (fields : Fields) (keys : List String)
      → All
          (λ key. (v : Json) → lookup key fields ≡ some v → (d : String) × (v ≡ text d) × IsHex64 d)
          keys
      → has_bad_digest is_decimal str_of_json (object fields) keys ≡ ok false
  unfolding has_bad_digest
  has_bad_digest-none fields [] good = refl
  has_bad_digest-none fields (key ∷ keys) (first, rest) =
      let e = has_bad_digest-none fields keys rest in
      elim (Option-cases (lookup key fields)) [
        | inl missing ↦ rw missing e
        | inr (v, found) ↦
            let (d, same, good) = first v found in
            rw (subscript-found key fields v found, found, same) (rw good e)
      ]

  pub address_json-address :
      (a : AddressInfo)
      → is_bad_identifier is_decimal str_of_json (identifier_json (address_info a))
        ≡ has_bad_digest is_decimal str_of_json (address_json a) address_keys
  unfolding is_bad_identifier lookup
  address_json-address a = refl

  pub email-digest :
      (digest : String) (good : Bool)
      → matches_all hex64 digest ≡ good
      → is_bad_identifier is_decimal str_of_json (identifier_json (hashed_email digest))
        ≡ ok (not good)
  unfolding is_bad_identifier lookup subscript
  email-digest digest true good = rw good refl
  email-digest digest false bad = rw bad refl

  pub phone-digest :
      (digest : String) (good : Bool)
      → matches_all hex64 digest ≡ good
      → is_bad_identifier is_decimal str_of_json (identifier_json (hashed_phone_number digest))
        ≡ ok (not good)
  unfolding is_bad_identifier lookup subscript
  phone-digest digest true good = rw good refl
  phone-digest digest false bad = rw bad refl

  is_bad_identifier-Returns :
      (i : UserIdentifier) → Returns (is_bad_identifier is_decimal str_of_json (identifier_json i))
  is_bad_identifier-Returns (hashed_email digest) = (_, email-digest digest _ refl)
  is_bad_identifier-Returns (hashed_phone_number digest) = (_, phone-digest digest _ refl)
  is_bad_identifier-Returns (address_info a) =
      let (bad, e) = has_bad_digest-Returns _ address_keys in (bad, address_json-address a ∙ e)

  has_bad_identifier-Returns :
      (is : List UserIdentifier)
      → Returns (has_bad_identifier is_decimal str_of_json (map identifier_json is))
  unfolding has_bad_identifier
  has_bad_identifier-Returns [] = (false, refl)
  has_bad_identifier-Returns (i ∷ is) =
      let (later, rest) = has_bad_identifier-Returns is in
      let (bad, first) = is_bad_identifier-Returns i in
      elim (Bool-cases bad) [
        | inl is_bad ↦ (true, rw (first, is_bad) refl)
        | inr fine ↦ (later, rw (first, fine) rest)
      ]

  consent_error-Returns :
      (is : List UserIdentifier) (consent : Option ConsentBlock)
      → Returns
          (consent_error is_decimal str_of_json (identifiers_json is) (sent_consent is consent))
  unfolding consent_error is_true items_of lookup
  consent_error-Returns [] consent = (none, refl)
  consent_error-Returns (i ∷ is) none = (_, refl)
  consent_error-Returns (i ∷ is) (some c) = elim (Option-cases c.ad_user_data) [
    | inl missing ↦ (some "CONSENT_REQUIRED_FOR_USER_IDENTIFIERS", rw missing refl)
    | inr (value, given) ↦ elim (Bool-cases (value == "GRANTED")) [
      | inl granted ↦ (none, rw given (rw granted refl))
      | inr other ↦ (some "CONSENT_REQUIRED_FOR_USER_IDENTIFIERS", rw given (rw other refl))
    ]
  ]

  identifier_error-Returns :
      (c : Conversion)
      → Returns (
          identifier_error is_decimal str_of_json
            (or_null c.gclid)
            (identifiers_of c)
            (consent_of c))
  unfolding identifier_error
  identifier_error-Returns c =
      let (bad, judged) = has_bad_identifier-Returns c.user_identifiers in
      let (error, consented) = consent_error-Returns c.user_identifiers c.consent in
      let nothing = not (is_true (or_null c.gclid)) && not (is_true (identifiers_of c)) in
      elim (Bool-cases nothing) [
        | inl nameless ↦ (some "USER_IDENTIFIER_REQUIRED", rw nameless refl)
        | inr named ↦ elim (Bool-cases bad) [
          | inl is_bad ↦ (
            some "INVALID_USER_IDENTIFIER",
            rw (named, elements-items_of (map identifier_json c.user_identifiers), judged, is_bad)
                refl,
          )
          | inr fine ↦ (
            error,
            rw (named, elements-items_of (map identifier_json c.user_identifiers), judged, fine)
                consented,
          )
        ]
      ]

  unless_returned-Returns :
      (early : Option String) (later : Result (Option String))
      → Returns later
      → Returns (unless_returned early later)
  unless_returned-Returns none later returns = returns
  unless_returned-Returns (some error) later returns = (some error, refl)

  -- For every row of the gateway the mock comes to a judgement.
  pub validate_row-Returns :
      (known_actions : List String) (c : Conversion)
      → Returns (validate_row is_decimal str_of_json known_actions (row_json c))
  validate_row-Returns known_actions c =
      subst Returns (sym (validate_row-row_json known_actions c))
        (unless_returned-Returns _ _ (unless_returned-Returns _ _ (identifier_error-Returns c)))
