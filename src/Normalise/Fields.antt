-- ===== src/Normalise/Fields.antt =====
-- The normalisers of src/gateway/normalise/email.py, name.py, address.py and phone.py, and the reasons
-- of rejection.py.
use text.Mathlib.Text.{starts_with}
use conversion_gateway.Prelude.{
  nat_eq, if◌then◌else◌, select, is_some, ◌<>◌, is_blank, join, String, code, ◌&&◌, ◌||◌, not,
  Option, none, some, List, [], ◌∷◌,
}
use conversion_gateway.Normalise.Libs.{Libs}
use conversion_gateway.Normalise.Strings.{
  remove_if, contains_code, before_code, partition_code, char_count, all_chars, text_in, strip,
  split,
}

pub data RejectionReason : Type 0 where
  missing empty malformed unparseable invalid no_default_region not_alpha2 no_match_key :
      RejectionReason

abbrev pub rejection_value : RejectionReason → String
rejection_value missing = "missing"
rejection_value empty = "empty"
rejection_value malformed = "malformed"
rejection_value unparseable = "unparseable"
rejection_value invalid = "invalid"
rejection_value no_default_region = "no_default_region"
rejection_value not_alpha2 = "not_alpha2"
rejection_value no_match_key = "no_match_key"

-- `str | RejectionReason`
pub data Outcome : Type 0 where
  value : String → Outcome
  reject : RejectionReason → Outcome

-- `_DOT_INSENSITIVE_DOMAINS`, `_TITLES` and `_SUFFIXES`
abbrev pub dot_insensitive_domains : List String
dot_insensitive_domains = "gmail.com" ∷ "googlemail.com" ∷ []

abbrev strip_tokens : List String
strip_tokens =
    "mr" ∷ "mrs" ∷ "ms" ∷ "miss" ∷ "mx" ∷ "dr" ∷ "prof" ∷ "sir" ∷ "madam" ∷ "jr" ∷ "sr" ∷ "ii"
    ∷ "iii" ∷ "iv" ∷ "esq" ∷ "phd" ∷ "md" ∷ []

-- The mailbox of a local part at a dot-insensitive domain.
unfoldable pub mailbox : String → String
unfolding remove_if before_code
mailbox local = before_code b'+' (remove_if (λ c. nat_eq (code c) b'.') local)

-- The end of `normalise_email`, on the two sides of the first "@".
unfoldable pub canonical_address : String → String → Outcome
unfolding contains_code text_in mailbox
canonical_address local domain =
    if is_blank local || is_blank domain || contains_code b'@' domain
    then reject malformed
    else if text_in domain dot_insensitive_domains
    then (if is_blank (mailbox local)
        then reject malformed
        else value (mailbox local <> ("@" <> domain)))
    else value (local <> ("@" <> domain))

unfoldable partitioned : Option (String × String) → Outcome
unfolding canonical_address
partitioned none = reject malformed
partitioned (some (local, domain)) = canonical_address local domain

-- "".join(parts)
unfoldable concat : List String → String
concat [] = ""
concat (p ∷ ps) = p <> concat ps

abbrev nonempty : List String → (List String → String) → Outcome
nonempty [] f = reject empty
nonempty (t ∷ ts) f = value (f (t ∷ ts))

module _ (libs : Libs) where
  unfoldable pub normalise_email : Option String → Outcome
  unfolding partitioned partition_code strip
  normalise_email none = reject missing
  normalise_email (some raw) =
      let address = libs.lower (strip libs.is_space raw) in
      if is_blank address then reject empty else partitioned (partition_code b'@' address)

  unfoldable strip_accents : String → String
  unfolding remove_if
  strip_accents text = remove_if libs.is_mark (libs.nfkd text)

  unfoldable strip_punctuation : String → String
  unfolding remove_if
  strip_punctuation text = remove_if libs.is_punctuation text

  unfoldable pub normalise_name : Option String → Outcome
  unfolding strip_accents strip_punctuation strip split text_in concat
  normalise_name none = reject missing
  normalise_name (some raw) =
      let bare = strip_punctuation (strip_accents (libs.lower (strip libs.is_space raw))) in
      nonempty (select (λ t. not (text_in t strip_tokens)) (split libs.is_space bare)) concat

  unfoldable pub normalise_street : Option String → Outcome
  unfolding strip_accents strip_punctuation strip split join
  normalise_street none = reject missing
  normalise_street (some raw) =
      let bare = strip_punctuation (strip_accents (libs.lower (strip libs.is_space raw))) in
      nonempty (split libs.is_space bare) (join " ")

  lowercase_collapsed : Option String → Outcome
  unfolding strip split join
  lowercase_collapsed none = reject missing
  lowercase_collapsed (some raw) =
      let text = join " " (split libs.is_space (libs.lower (strip libs.is_space raw))) in
      if is_blank text then reject empty else value text

  unfoldable pub normalise_city : Option String → Outcome
  unfolding lowercase_collapsed
  normalise_city raw = lowercase_collapsed raw

  unfoldable pub normalise_region : Option String → Outcome
  unfolding lowercase_collapsed
  normalise_region raw = lowercase_collapsed raw

  unfoldable pub normalise_postal_code : Option String → Outcome
  unfolding strip
  normalise_postal_code none = reject missing
  normalise_postal_code (some raw) =
      let text = strip libs.is_space raw in if is_blank text then reject empty else value text

  unfoldable pub normalise_country : Option String → Outcome
  unfolding strip char_count all_chars
  normalise_country none = reject missing
  normalise_country (some raw) =
      let text = libs.upper (strip libs.is_space raw) in
      if is_blank text
      then reject empty
      else if not (nat_eq (char_count text) 2) || not (all_chars libs.is_alpha text)
      then reject not_alpha2
      else value text

  abbrev upper_region : Option String → Option String
  upper_region none = none
  upper_region (some region) = some (libs.upper region)

  valid_number : Option libs.PhoneNumber → Outcome
  valid_number none = reject unparseable
  valid_number (some parsed) =
      if not (libs.is_valid_number parsed) then reject invalid else value (libs.format_e164 parsed)

  unfoldable pub normalise_phone : Option String → Option String → Outcome
  unfolding strip valid_number
  normalise_phone none default_region = reject missing
  normalise_phone (some raw) default_region =
      let text = strip libs.is_space raw in
      if is_blank text
      then reject empty
      else if not (is_some default_region) && not (starts_with text "+")
      then reject no_default_region
      else valid_number (libs.parse_phone text (upper_region default_region))
