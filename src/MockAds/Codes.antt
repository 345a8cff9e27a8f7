-- ===== src/MockAds/Codes.antt =====
-- The error codes that the mock gives, beside the column that a dead letter keeps one in.
use conversion_gateway.Prelude.{
  nat_eq, if◌then◌else◌, Bool-cases, Option-cases, All, is_blank, ℕ, ◌+◌, String, Char, ◌≡◌, refl,
  sym, subst, inl, inr, Bool, true, false, ◌&&◌, not, Option, none, some, List, [], ◌∷◌,
}
use conversion_gateway.Models.Columns.{code_fits}
use conversion_gateway.Models.Payload.{Conversion}
use conversion_gateway.Exec.{Result, ok, err}
use conversion_gateway.Upload.Json.{
  get, is_true, or_empty, iterate, ◌>>?◌, Json, null, text, object,
}
use conversion_gateway.Upload.Wire.{row_json}
use conversion_gateway.Upload.Uploader.Fates.{CodeFits}
use conversion_gateway.MockAds.Validation.{
  action_name, is_text, or_list, unless_returned, field_of, has_bad_identifier, action_error,
  time_error, consent_error, identifier_error, validate_row,
}
use conversion_gateway.MockAds.Injection.{injected_code, RowFailure}
use conversion_gateway.MockAds.Server.{judged}
use conversion_gateway.MockAds.Answers.{JudgedRows}
use conversion_gateway.MockAds.ReadBack.{row_result, row_results}
use conversion_gateway.MockAds.Pattern.{matches_all, conversion_action, date_time}
use conversion_gateway.Normalise.Strings.{text_in}

abbrev pub InjectsFitting : List RowFailure → Type 0
InjectsFitting fs = All (λ (f : RowFailure). code_fits (some f.error_code) ≡ true) fs

abbrev Fitting : Result (Option String) → Type 0
Fitting (ok code) = code_fits code ≡ true
Fitting (err e) = Unit

Fitting-bind :
    {A : Type 0} (r : Result A) (f : A → Result (Option String))
    → ((a : A) → Fitting (f a))
    → Fitting (r >>? f)
Fitting-bind (ok a) f h = h a
Fitting-bind (err e) f h = tt

Fitting-if :
    (b : Bool) (r s : Result (Option String)) → Fitting r → Fitting s → Fitting (if b then r else s)
Fitting-if true r s h k = h
Fitting-if false r s h k = k

Fitting-unless :
    (o : Option String) (r : Result (Option String))
    → code_fits o ≡ true
    → Fitting r
    → Fitting (unless_returned o r)
Fitting-unless none r h k = k
Fitting-unless (some code) r h k = h

injected-fits :
    (fs : List RowFailure) (index : ℕ)
    → InjectsFitting fs
    → code_fits (injected_code fs index) ≡ true
unfolding injected_code code_fits
injected-fits [] index h = refl
injected-fits (f ∷ fs) index (first, others) = elim (Option-cases (injected_code fs index)) [
  | inr (found, is_found) ↦
      let later = injected-fits fs index others in rw is_found (rw is_found at later)
  | inl missing ↦ elim (Bool-cases (nat_eq f.index index)) [
    | inl same ↦ rw (missing, same) first
    | inr differs ↦ rw (missing, differs) refl
  ]
]

-- The injected code, or what validation says.
abbrev chosen : Option String → Result (Option String) → Result (Option String)
chosen none validated = validated
chosen (some error) validated = if is_blank error then validated else ok (some error)

Fitting-chosen :
    (found : Option String) (validated : Result (Option String))
    → code_fits found ≡ true
    → Fitting validated
    → Fitting (chosen found validated)
Fitting-chosen none validated h k = k
Fitting-chosen (some error) validated h k = Fitting-if (is_blank error) validated _ k h

module _ (is_decimal : Char → Bool) (str_of_json : Json → String) where
  action_error-fits :
      (known_actions : List String) (action : Json)
      → code_fits (action_error is_decimal str_of_json known_actions action) ≡ true
  unfolding action_error code_fits
  action_error-fits known_actions (text action) =
      elim (Bool-cases (matches_all (conversion_action is_decimal) action)) [
        | inr bad ↦ rw bad refl
        | inl fine ↦ elim (Bool-cases (text_in (action_name action) known_actions)) [
          | inl known ↦ rw (fine, known) refl
          | inr unknown ↦ rw (fine, unknown) refl
        ]
      ]
  action_error-fits known_actions _ = refl

  time_error-fits : (when : Json) → code_fits (time_error is_decimal str_of_json when) ≡ true
  unfolding time_error code_fits
  time_error-fits (text when) = elim (Bool-cases (matches_all (date_time is_decimal) when)) [
    | inl fine ↦ rw fine refl
    | inr bad ↦ rw bad refl
  ]
  time_error-fits _ = refl

  Fitting-consent_error :
      (identifiers consent : Json)
      → Fitting (consent_error is_decimal str_of_json identifiers consent)
  unfolding consent_error code_fits
  Fitting-consent_error identifiers consent =
      Fitting-if (is_true identifiers) _ (ok none)
        (Fitting-bind (get (or_empty consent) "adUserData" null) _
          λ ad_user_data. Fitting-if (is_text "GRANTED" ad_user_data) (ok none) _ refl refl)
        refl

  Fitting-identifier_error :
      (gclid identifiers consent : Json)
      → Fitting (identifier_error is_decimal str_of_json gclid identifiers consent)
  unfolding identifier_error code_fits
  Fitting-identifier_error gclid identifiers consent =
      Fitting-if (not (is_true gclid) && not (is_true identifiers)) _ _ refl (
        Fitting-bind (iterate identifiers) _ λ idents.
          Fitting-bind (has_bad_identifier is_decimal str_of_json idents) _ λ bad.
            Fitting-if bad (ok (some "INVALID_USER_IDENTIFIER")) _ refl
              (Fitting-consent_error identifiers consent))

  Fitting-validate_row :
      (known_actions : List String) (row : Json)
      → Fitting (validate_row is_decimal str_of_json known_actions row)
  unfolding validate_row code_fits
  Fitting-validate_row known_actions (object fields) =
      let action = field_of "conversionAction" fields in
      let when = field_of "conversionDateTime" fields in
      let gclid = field_of "gclid" fields in
      let identifiers = or_list (field_of "userIdentifiers" fields) in
      let consent = field_of "consent" fields in
      let last = identifier_error is_decimal str_of_json gclid identifiers consent in
      let timed = time_error is_decimal str_of_json when in
      Fitting-unless (action_error is_decimal str_of_json known_actions action)
        (unless_returned timed last) (action_error-fits known_actions action)
        (Fitting-unless timed last (time_error-fits when)
          (Fitting-identifier_error gclid identifiers consent))
  Fitting-validate_row known_actions _ = refl

  judged-chosen :
      (known_actions : List String) (fail_rows : List RowFailure) (index : ℕ) (row : Json)
      → judged is_decimal str_of_json known_actions fail_rows index row
        ≡ chosen
            (injected_code fail_rows index)
            (validate_row is_decimal str_of_json known_actions row)
  unfolding judged
  judged-chosen known_actions fail_rows index row =
      elim (Option-cases (injected_code fail_rows index)) [
        | inl missing ↦ rw (missing, judged) refl
        | inr (error, is_injected) ↦ rw (is_injected, judged) refl
      ]

  Fitting-judged :
      (known_actions : List String) (fail_rows : List RowFailure) (index : ℕ) (row : Json)
      → InjectsFitting fail_rows
      → Fitting (judged is_decimal str_of_json known_actions fail_rows index row)
  Fitting-judged known_actions fail_rows index row h =
      subst Fitting (sym (judged-chosen known_actions fail_rows index row)) (
        Fitting-chosen (injected_code fail_rows index) _ (injected-fits fail_rows index h)
          (Fitting-validate_row known_actions row))

  CodeFits-row :
      (index : ℕ) (code : Option String) → code_fits code ≡ true → CodeFits (row_result index code)
  unfolding code_fits
  CodeFits-row index none h = refl
  CodeFits-row index (some error) h = elim (Bool-cases (is_blank error)) [
    | inl blank ↦ rw blank refl
    | inr filled ↦ rw filled h
  ]

  -- What the client reads of the mock's judgement has codes that fit.
  pub All-CodeFits :
      (known_actions : List String) (fail_rows : List RowFailure) (index : ℕ) (cs : List Conversion)
      (codes : List (Option String))
      → InjectsFitting fail_rows
      → JudgedRows is_decimal str_of_json known_actions fail_rows index cs codes
      → All CodeFits (row_results index codes)
  All-CodeFits known_actions fail_rows index [] [] h judgement = tt
  All-CodeFits known_actions fail_rows index [] (code ∷ codes) h judgement = cc
  All-CodeFits known_actions fail_rows index (c ∷ cs) [] h judgement = cc
  All-CodeFits known_actions fail_rows index (c ∷ cs) (code ∷ codes) h (first, rest) = (
    CodeFits-row index code
        (subst Fitting first (Fitting-judged known_actions fail_rows index (row_json c) h)),
    All-CodeFits known_actions fail_rows (index + 1) cs codes h rest,
  )
