-- ===== src/MockAds/Validation.antt =====
-- `validate_row` of mock_ads_api/app.py, on any JSON value. `str` of a value that is no text is a
-- parameter, as are Unicode's decimal digits.
use conversion_gateway.Prelude.{
  nat_eq, if◌then◌else◌, is_some, String, Char, code, Bool, true, false, ◌&&◌, ◌||◌, not, Option,
  none, some, List, [], ◌∷◌, ◌==◌, find?,
}
use conversion_gateway.Normalise.Strings.{contains_code, text_in}
use conversion_gateway.Exec.{type_error, Result, ok, err}
use conversion_gateway.Upload.Json.{
  elements, lookup, subscript, get, is_true, or_empty, iterate, ◌>>?◌, Json, null, text, array,
  object, nil, Fields,
}
use conversion_gateway.MockAds.Pattern.{
  matches_all, times, literal, hex64, conversion_action, date_time,
}

-- `resource.rsplit("/", 1)[-1]`
unfoldable pub action_name : String → String
unfolding contains_code
action_name String.[] = ""
action_name (String.◌∷◌ c s) =
    let later = action_name s in
    if contains_code 47 s then later else if nat_eq (code c) 47 then s else String.◌∷◌ c s

abbrev pub is_text : String → Json → Bool
is_text t (text s) = s == t
is_text t _ = false

has_text : String → List Json → Bool
has_text t [] = false
has_text t (j ∷ js) = is_text t j || has_text t js

-- `key in value`
unfoldable holds_key : String → Json → Result Bool
unfolding lookup elements has_text
holds_key key (object fields) = ok (is_some (lookup key fields))
holds_key key (array items) = ok (has_text key (elements items))
holds_key key (text t) = ok (is_some (find? t key))
holds_key key _ = err type_error

abbrev is_object : Json → Bool
is_object (object fields) = true
is_object _ = false

abbrev is_null : Json → Bool
is_null null = true
is_null _ = false

abbrev pub address_keys : List String
address_keys = "hashedFirstName" ∷ "hashedLastName" ∷ "hashedStreetAddress" ∷ []

-- `value or []`
abbrev pub or_list : Json → Json
or_list j = if is_true j then j else array nil

-- An early return, or what follows.
abbrev pub unless_returned : Option String → Result (Option String) → Result (Option String)
unless_returned (some error) later = ok (some error)
unless_returned none later = later

-- `row.get(key)` of a dict
unfoldable pub field_of : String → Fields → Json
unfolding lookup
field_of key fields = elim (lookup key fields) [ some v ↦ v | none ↦ null ]

module _ (is_decimal : Char → Bool) (str_of_json : Json → String) where
  unfoldable pub str : Json → String
  str (text t) = t
  str j = str_of_json j

  -- The loop over keys that hold digests: whether one of them is no digest.
  unfoldable pub has_bad_digest : Json → List String → Result Bool
  unfolding holds_key subscript matches_all hex64 str
  has_bad_digest value [] = ok false
  has_bad_digest value (key ∷ keys) =
      let later = has_bad_digest value keys in
      holds_key key value >>? λ held.
      if held
      then (subscript value key >>? λ digest.
          if matches_all hex64 (str digest) then later else ok true)
      else later

  abbrev bad_address : Json → Result Bool
  bad_address address = if is_null address then ok false else has_bad_digest address address_keys

  -- One round of the loop over the identifiers.
  unfoldable pub is_bad_identifier : Json → Result Bool
  unfolding has_bad_digest get
  is_bad_identifier ident =
      if is_object ident
      then (has_bad_digest ident ("hashedEmail" ∷ "hashedPhoneNumber" ∷ []) >>? λ bad.
          if bad then ok true else (get ident "addressInfo" null >>? bad_address))
      else ok true

  unfoldable pub has_bad_identifier : List Json → Result Bool
  unfolding is_bad_identifier
  has_bad_identifier [] = ok false
  has_bad_identifier (ident ∷ idents) =
      let later = has_bad_identifier idents in
      is_bad_identifier ident >>? λ bad. if bad then ok true else later

  unfoldable pub action_error : List String → Json → Option String
  unfolding matches_all literal conversion_action action_name text_in
  action_error known_actions (text action) =
      if not (matches_all (conversion_action is_decimal) action)
      then some "INVALID_CONVERSION_ACTION"
      else if text_in (action_name action) known_actions
      then none
      else some "CONVERSION_ACTION_NOT_FOUND"
  action_error known_actions _ = some "INVALID_CONVERSION_ACTION"

  unfoldable pub time_error : Json → Option String
  unfolding matches_all literal times date_time
  time_error (text when) =
      if matches_all (date_time is_decimal) when then none else some "INVALID_CONVERSION_DATE_TIME"
  time_error _ = some "INVALID_CONVERSION_DATE_TIME"

  -- `if identifiers: …`
  unfoldable pub consent_error : Json → Json → Result (Option String)
  unfolding is_true get
  consent_error identifiers consent =
      if is_true identifiers
      then (get (or_empty consent) "adUserData" null >>? λ ad_user_data.
          if is_text "GRANTED" ad_user_data
          then ok none
          else ok (some "CONSENT_REQUIRED_FOR_USER_IDENTIFIERS"))
      else ok none

  -- From `gclid = row.get("gclid")` on.
  unfoldable pub identifier_error : Json → Json → Json → Result (Option String)
  unfolding is_true iterate has_bad_identifier consent_error
  identifier_error gclid identifiers consent =
      if not (is_true gclid) && not (is_true identifiers)
      then ok (some "USER_IDENTIFIER_REQUIRED")
      else (iterate identifiers >>? λ idents. has_bad_identifier idents >>? λ bad.
          if bad then ok (some "INVALID_USER_IDENTIFIER") else consent_error identifiers consent)

  unfoldable pub validate_row : List String → Json → Result (Option String)
  unfolding action_error time_error identifier_error field_of is_true
  validate_row known_actions (object fields) =
      unless_returned (action_error known_actions (field_of "conversionAction" fields)) (
        unless_returned (time_error (field_of "conversionDateTime" fields)) (
          identifier_error (field_of "gclid" fields) (or_list (field_of "userIdentifiers" fields))
            (field_of "consent" fields)))
  validate_row known_actions _ = ok (some "INVALID_CONVERSION")
