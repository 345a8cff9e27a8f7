-- ===== src/Observability/Redaction.antt =====
-- `_scrub` and `redact_pii`. `str.lower` and Unicode's digits and spaces are parameters.
use conversion_gateway.Prelude.{
  leb, nat_eq, if◌then◌else◌, is_some, is_blank, ℕ, String, Char, code, Bool, false, ◌&&◌, ◌||◌,
  not, List, [], ◌∷◌, ◌==◌, find?,
}
use conversion_gateway.Observability.Regex.{sub, Part, at_least, maybe, one, not_behind, not_ahead}
use package.text.Mathlib.Text.{starts_with}

-- A logged value: a text, a list or tuple, a dict, a pydantic model by its `model_dump`, or another
-- one.
mutual
  pub data Value : Type 0 where
    text : String → Value
    listing : Values → Value
    dict : Entries → Value
    model : Value → Value
    other : ℕ → Value

  pub data Values : Type 0 where
    nil : Values
    item : Value → Values → Values

  pub data Entries : Type 0 where
    end : Entries
    entry : String → Value → Entries → Entries

abbrev redacted : String
redacted = "[REDACTED]"

-- `_SENSITIVE_KEYS`
abbrev sensitive_keys : List String
sensitive_keys =
    "email" ∷ "phone" ∷ "given_name" ∷ "family_name" ∷ "first_name" ∷ "last_name" ∷ "firstname"
    ∷ "lastname" ∷ "street" ∷ "address" ∷ "identifiers" ∷ "raw" ∷ "body" ∷ []

any_in : List String → String → Bool
any_in [] key = false
any_in (marker ∷ markers) key = is_some (find? key marker) || any_in markers key

abbrev between : ℕ → ℕ → Char → Bool
between low high c = leb low (code c) && leb (code c) high

abbrev is_letter : Char → Bool
is_letter c = between 65 90 c || between 97 122 c

abbrev is_alphanumeric : Char → Bool
is_alphanumeric c = is_letter c || between 48 57 c

abbrev is_code : ℕ → Char → Bool
is_code n c = nat_eq (code c) n

-- `_EMAIL`
abbrev email : List Part
email =
    at_least 1 (λ c.
      is_alphanumeric c
      || is_code 46 c
      || is_code 95 c
      || is_code 37 c
      || is_code 43 c
      || is_code 45 c)
    ∷ one (is_code 64)
    ∷ at_least 1 (λ c. is_alphanumeric c || is_code 46 c || is_code 45 c)
    ∷ one (is_code 46)
    ∷ at_least 2 is_letter
    ∷ []

pub record LogLibs : Type 0 where
  pub lower : String → String
  pub is_decimal : Char → Bool
  pub is_space : Char → Bool

module _ (libs : LogLibs) where
  -- `_PHONE`
  abbrev phone : List Part
  phone =
      not_behind (λ c. between 48 57 c || between 97 102 c)
      ∷ maybe (is_code 43)
      ∷ one libs.is_decimal
      ∷ at_least 6 (λ c.
        libs.is_decimal c
        || libs.is_space c
        || is_code 40 c
        || is_code 41 c
        || is_code 46 c
        || is_code 45 c)
      ∷ one libs.is_decimal
      ∷ not_ahead (λ c. between 48 57 c || between 97 102 c)
      ∷ []

  unfoldable pub key_is_sensitive : String → Bool
  unfolding any_in
  key_is_sensitive key =
      if starts_with (libs.lower key) "hashed_"
      then false
      else any_in sensitive_keys (libs.lower key)

  unfoldable pub scrub_string : String → String
  unfolding sub
  scrub_string value = sub phone redacted (sub email redacted value)

  -- `key and _key_is_sensitive(key)`
  abbrev pub hides : String → Bool
  hides key = not (is_blank key) && key_is_sensitive key

  -- `_scrub`
  unfoldable mutual
    unfolding key_is_sensitive scrub_string

    scrub : Value → String → Value
    scrub (text value) key = if hides key then text redacted else text (scrub_string value)
    scrub (dict entries) key =
        let inner = scrub_entries entries in if hides key then text redacted else dict inner
    scrub (listing values) key =
        let inner = scrub_values values in if hides key then text redacted else listing inner
    scrub (model dump) key =
        let inner = scrub dump key in if hides key then text redacted else inner
    scrub (other value) key = if hides key then text redacted else other value

    scrub_values : Values → Values
    scrub_values nil = nil
    scrub_values (item value values) = item (scrub value "") (scrub_values values)

    scrub_entries : Entries → Entries
    scrub_entries end = end
    scrub_entries (entry key value entries) = entry key (scrub value key) (scrub_entries entries)

  -- `redact_pii`: the message itself stands under `event`.
  unfoldable redact_pii : Entries → Entries
  unfolding scrub
  redact_pii end = end
  redact_pii (entry key value entries) =
      entry key (scrub value (if key == "event" then "" else key)) (redact_pii entries)
