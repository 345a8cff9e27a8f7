-- ===== src/MockAds/Accepts.antt =====
-- The mock's validation of a row that the gateway builds.
use conversion_gateway.Prelude.{
  Bool-cases, is_empty, All, truthy, String, Char, ◌≡◌, refl, ◌∙◌, ◌⊎◌, inl, inr, Bool, true, false,
  ◌&&◌, not, Option, none, some, List, [], ◌∷◌, map,
}
use conversion_gateway.Normalise.Strings.{text_in}
use conversion_gateway.Models.Payload.{CivilTime, Conversion, UserIdentifier}
use conversion_gateway.Models.Rows.{Event}
use conversion_gateway.Exec.{World, ok}
use conversion_gateway.Upload.Json.{lookup, is_true, iterate, Json, text}
use conversion_gateway.Upload.Wire.{
  or_null, identifier_json, items_of, identifiers_json, row_json, elements-items_of,
}
use conversion_gateway.Upload.Conversion.{
  format_conversion_time, conversion_action_resource, present, user_identifiers, consent_block,
  conversion_row, build_conversion,
}
use conversion_gateway.MockAds.Pattern.{is_ascii_digit, is_word}
use conversion_gateway.MockAds.Validation.{
  action_error, time_error, consent_error, identifier_error, validate_row,
}
use conversion_gateway.MockAds.Rows.{sent_consent}
use conversion_gateway.MockAds.Judged.{validate_row-row_json}
use conversion_gateway.MockAds.Formats.{
  KnowsDigits, IsRun, date_time-format, action-resource, action_name-resource,
}
use conversion_gateway.MockAds.Digests.{
  HasDigests, HexDigests, user_identifiers-hex, identifiers-accepted,
}

-- An event with a click id or with identifiers that can be sent.
abbrev pub IsMatchable : Event → Type 0
IsMatchable e =
    (truthy e.click_id ≡ true) ⊎ (is_empty (user_identifiers e.hashed_identifiers) ≡ false)

click-truthy :
    (click_id : Option String)
    → truthy click_id ≡ true
    → is_true (or_null (present click_id)) ≡ true
unfolding is_true
click-truthy none h = cc
click-truthy (some String.[]) h = cc
click-truthy (some (String.◌∷◌ c s)) h = refl

named-gclid :
    (gclid identifiers : Json)
    → is_true gclid ≡ true
    → (not (is_true gclid) && not (is_true identifiers)) ≡ false
named-gclid gclid identifiers h = rw h refl

named-identifiers :
    (gclid : Json) (is : List UserIdentifier)
    → is_empty is ≡ false
    → (not (is_true gclid) && not (is_true (identifiers_json is))) ≡ false
unfolding is_true items_of
named-identifiers gclid [] h = cc
named-identifiers gclid (i ∷ is) h = elim (Bool-cases (is_true gclid)) [
  | inl given ↦ rw given refl
  | inr missing ↦ rw missing refl
]

module _ (is_decimal : Char → Bool) (str_of_json : Json → String) where
  consent-fine :
      (e : Event) (is : List UserIdentifier)
      → e.consent_ad_user_data ≡ some "GRANTED"
      → consent_error is_decimal str_of_json
          (identifiers_json is)
          (sent_consent is (consent_block e is))
        ≡ ok none
  unfolding consent_error is_true items_of lookup
  consent-fine e [] granted = refl
  consent-fine e (i ∷ is) granted = rw granted refl

  identifiers-fine :
      (gclid consent : Json) (is : List UserIdentifier)
      → (not (is_true gclid) && not (is_true (identifiers_json is))) ≡ false
      → All HexDigests is
      → consent_error is_decimal str_of_json (identifiers_json is) consent ≡ ok none
      → identifier_error is_decimal str_of_json gclid (identifiers_json is) consent ≡ ok none
  unfolding identifier_error iterate
  identifiers-fine gclid consent is named hex consented =
      rw
        (
          named,
          elements-items_of (map identifier_json is),
          identifiers-accepted is_decimal str_of_json is hex,
        )
        consented

  -- The settings of a gateway whose rows name an action that the platform knows.
  abbrev pub Addresses : List String → String → String → Type 0
  Addresses known_actions customer_id action =
      IsRun is_ascii_digit customer_id
      × IsRun is_word action
      × (text_in action known_actions ≡ true)

  action-fine :
      (known_actions : List String) (customer_id action : String)
      → KnowsDigits is_decimal
      → Addresses known_actions customer_id action
      → action_error is_decimal str_of_json known_actions
          (text (conversion_action_resource customer_id action))
        ≡ none
  unfolding action_error
  action-fine known_actions customer_id action digits (numbered, is_run, known) =
      rw
        (
          action-resource is_decimal digits customer_id action numbered is_run,
          action_name-resource customer_id action is_run.1,
          known,
        )
        refl

  time-fine :
      (t : CivilTime)
      → KnowsDigits is_decimal
      → time_error is_decimal str_of_json (text (format_conversion_time t)) ≡ none
  unfolding time_error
  time-fine t digits = rw (date_time-format is_decimal digits t) refl

  named-event :
      (e : Event)
      → IsMatchable e
      → (not (is_true (or_null (present e.click_id)))
          && not (is_true (identifiers_json (user_identifiers e.hashed_identifiers))))
        ≡ false
  named-event e (inl given) =
      named-gclid _ (identifiers_json (user_identifiers e.hashed_identifiers))
        (click-truthy e.click_id given)
  named-event e (inr some_identifiers) =
      named-identifiers (or_null (present e.click_id)) (user_identifiers e.hashed_identifiers)
        some_identifiers

  -- An event with both required columns, hex digests, consent to the use of its data and something to
  -- match on, for a customer id of digits and an action that the platform knows: building its row never
  -- fails, and the platform's own validation finds no error in it.
  pub build_conversion-validate_row :
      (known_actions : List String) (customer_id action : String) (t : CivilTime) (e : Event)
      (w : World)
      → KnowsDigits is_decimal
      → Addresses known_actions customer_id action
      → e.conversion_action ≡ some action
      → e.conversion_time ≡ some t
      → e.consent_ad_user_data ≡ some "GRANTED"
      → HasDigests e.hashed_identifiers
      → IsMatchable e
      → (c : Conversion) × (build_conversion e customer_id w ≡ (ok c, w))
        × (validate_row is_decimal str_of_json known_actions (row_json c) ≡ ok none)
  unfolding build_conversion conversion_row
  build_conversion-validate_row known_actions customer_id action t e w digits addresses has_action
        has_time granted hex matchable =
      let is = user_identifiers e.hashed_identifiers in
      let c = conversion_row e customer_id action t in
      (
        c,
        rw (has_action, has_time) refl,
        validate_row-row_json is_decimal str_of_json known_actions c
            ∙ rw (action-fine known_actions customer_id action digits addresses, time-fine t digits)
                (identifiers-fine (or_null (present e.click_id))
                  (sent_consent is (consent_block e is)) is (named-event e matchable)
                  (user_identifiers-hex e.hashed_identifiers hex) (consent-fine e is granted)),
      )
