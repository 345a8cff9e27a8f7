-- ===== src/MockAds/Formats.antt =====
-- The resource names and times that the gateway formats, as the mock's patterns read them.
use conversion_gateway.Prelude.{
  nat_eq, if◌then◌else◌, ◌<>◌, is_blank, str_of, ℕ, zero, suc, ◌/◌, ◌%◌, ◌<◌, String, Char, code,
  ◌≡◌, refl, sym, ap, ◌∙◌, subst, Bool, true, false, ◌&&◌, ◌||◌, List, [], ◌∷◌, arith, nil-append,
  cons-append, text_assoc, text-nil,
}
use conversion_gateway.Normalise.Strings.{cons, contains_code, all_chars}
use conversion_gateway.Models.Payload.{CivilTime}
use conversion_gateway.Upload.Conversion.{
  padded, format_conversion_time, conversion_action_resource,
}
use conversion_gateway.MockAds.Pattern.{
  skip_while, matches_all, times, literal, is_ascii_digit, is_word, is_sign, conversion_action,
  date_time, Piece, one, many,
}
use conversion_gateway.MockAds.Validation.{action_name}

-- The decimal digits of ASCII are Unicode decimal digits, and a slash is none.
abbrev pub KnowsDigits : (Char → Bool) → Type 0
KnowsDigits is_decimal =
    ((c : Char) → is_ascii_digit c ≡ true → is_decimal c ≡ true) × (is_decimal "/" ≡ false)

-- The text is not empty and all its characters pass.
abbrev pub IsRun : (Char → Bool) → String → Type 0
IsRun p s = (is_blank s ≡ false) × (all_chars p s ≡ true)

nat_eq_refl : (k : ℕ) → nat_eq k k ≡ true
nat_eq_refl k = ground arith

digit-text : (d : ℕ) → d < 10 → (c : Char) × (str_of d ≡ cons c "") × (is_ascii_digit c ≡ true)
unfolding str_of
digit-text zero h = ("0", refl, refl)
digit-text (suc zero) h = ("1", refl, refl)
digit-text (suc (suc zero)) h = ("2", refl, refl)
digit-text (suc (suc (suc zero))) h = ("3", refl, refl)
digit-text (suc (suc (suc (suc zero)))) h = ("4", refl, refl)
digit-text (suc (suc (suc (suc (suc zero))))) h = ("5", refl, refl)
digit-text (suc (suc (suc (suc (suc (suc zero)))))) h = ("6", refl, refl)
digit-text (suc (suc (suc (suc (suc (suc (suc zero))))))) h = ("7", refl, refl)
digit-text (suc (suc (suc (suc (suc (suc (suc (suc zero)))))))) h = ("8", refl, refl)
digit-text (suc (suc (suc (suc (suc (suc (suc (suc (suc zero))))))))) h = ("9", refl, refl)
digit-text (suc (suc (suc (suc (suc (suc (suc (suc (suc (suc n)))))))))) h = absurd (omega arith)

both_true : (a b : Bool) → (a && b) ≡ true → (a ≡ true) × (b ≡ true)
both_true true b h = (refl, h)
both_true false b h = cc

module _ (p : Char → Bool) where
  all_chars-skip :
      (s rest : String) → all_chars p s ≡ true → skip_while p (s <> rest) ≡ skip_while p rest
  unfolding skip_while all_chars
  all_chars-skip String.[] rest h = rw nil-append refl
  all_chars-skip (String.◌∷◌ c s) rest h =
      let (first, others) = both_true (p c) (all_chars p s) h in
      rw cons-append (rw first (all_chars-skip s rest others))

  many-run :
      (s rest : String) (ps : List Piece)
      → IsRun p s
      → skip_while p rest ≡ rest
      → matches_all (many p ∷ ps) (s <> rest) ≡ matches_all ps rest
  unfolding matches_all all_chars
  many-run String.[] rest ps (filled, passes) stops = cc
  many-run (String.◌∷◌ c s) rest ps (filled, passes) stops =
      let (first, others) = both_true (p c) (all_chars p s) passes in
      rw cons-append (rw (first, all_chars-skip s rest others, stops) refl)

  last_run : (s : String) → IsRun p s → matches_all (many p ∷ []) s ≡ true
  unfolding matches_all skip_while
  last_run s is_run =
      ap (matches_all (many p ∷ [])) (sym (text-nil s)) ∙ many-run s "" [] is_run refl

module _ (is_decimal : Char → Bool) (digits : KnowsDigits is_decimal) where
  matches-char :
      (p : Char → Bool) (c : Char) (ps : List Piece) (s : String)
      → p c ≡ true
      → matches_all (one p ∷ ps) (cons c "" <> s) ≡ matches_all ps s
  unfolding matches_all
  matches-char p c ps s passes = rw (cons-append, nil-append) (rw passes refl)

  matches-digit :
      (d : ℕ) (ps : List Piece) (s : String)
      → d < 10
      → matches_all (one is_decimal ∷ ps) (str_of d <> s) ≡ matches_all ps s
  matches-digit d ps s h =
      let (c, written, is_digit) = digit-text d h in
      rw written (matches-char is_decimal c ps s (digits.0 c is_digit))

  matches-padded :
      (width n : ℕ) (ps : List Piece) (s : String)
      → matches_all (times width is_decimal ps) (padded width n <> s) ≡ matches_all ps s
  unfolding times padded
  matches-padded zero n ps s = rw nil-append refl
  matches-padded (suc width) n ps s = rw text_assoc (
      matches-padded width (n / 10) (one is_decimal ∷ ps) (str_of (n % 10) <> s)
      ∙ matches-digit (n % 10) ps s (omega arith))

  matches-literal :
      (t : String) (ps : List Piece) (s : String)
      → matches_all (literal t ps) (t <> s) ≡ matches_all ps s
  unfolding literal matches_all
  matches-literal String.[] ps s = rw nil-append refl
  matches-literal (String.◌∷◌ c t) ps s =
      rw cons-append (rw (nat_eq_refl (code c)) (matches-literal t ps s))

  matches-sign :
      (minus : Bool) (ps : List Piece) (s : String)
      → matches_all (one is_sign ∷ ps) ((if minus then "-" else "+") <> s) ≡ matches_all ps s
  matches-sign true ps s = matches-char is_sign "-" ps s refl
  matches-sign false ps s = matches-char is_sign "+" ps s refl

  last_number : (n : ℕ) → matches_all (times 2 is_decimal []) (padded 2 n) ≡ true
  unfolding matches_all
  last_number n =
      ap (matches_all (times 2 is_decimal [])) (sym (text-nil (padded 2 n)))
      ∙ matches-padded 2 n [] ""

  -- A number and the separator after it.
  number_then :
      (width n : ℕ) (separator : String) (ps : List Piece) (s : String)
      → matches_all
          (times width is_decimal (literal separator ps))
          (padded width n <> (separator <> s))
        ≡ matches_all ps s
  number_then width n separator ps s =
      matches-padded width n (literal separator ps) (separator <> s)
      ∙ matches-literal separator ps s

  pub date_time-format :
      (t : CivilTime) → matches_all (date_time is_decimal) (format_conversion_time t) ≡ true
  unfolding date_time format_conversion_time
  date_time-format t =
      number_then 4 t.year "-" _ _
      ∙ number_then 2 t.month "-" _ _
      ∙ number_then 2 t.day " " _ _
      ∙ number_then 2 t.hour ":" _ _
      ∙ number_then 2 t.minute ":" _ _
      ∙ matches-padded 2 t.second _ _
      ∙ matches-sign t.west_of_utc _ _
      ∙ number_then 2 (t.offset_minutes / 60) ":" _ _
      ∙ last_number (t.offset_minutes % 60)

  all_chars-decimal :
      (s : String) → all_chars is_ascii_digit s ≡ true → all_chars is_decimal s ≡ true
  unfolding all_chars
  all_chars-decimal String.[] h = refl
  all_chars-decimal (String.◌∷◌ c s) h =
      let (first, rest) = both_true (is_ascii_digit c) (all_chars is_ascii_digit s) h in
      rw (digits.0 c first) (all_chars-decimal s rest)

  starts-slash :
      (action : String)
      → skip_while is_decimal ("/conversionActions/" <> action) ≡ "/conversionActions/" <> action
  unfolding skip_while
  starts-slash action =
      subst (λ t. skip_while is_decimal t ≡ t) (sym (cons-append "/" "conversionActions/" action))
        (rw (digits.1) refl)

  pub action-resource :
      (customer_id action : String)
      → IsRun is_ascii_digit customer_id
      → IsRun is_word action
      → matches_all (conversion_action is_decimal) (conversion_action_resource customer_id action)
        ≡ true
  unfolding conversion_action conversion_action_resource
  action-resource customer_id action (some_digit, digits_only) is_run =
      matches-literal "customers/" _ _
      ∙ many-run is_decimal customer_id _ _ (some_digit, all_chars-decimal customer_id digits_only)
          (starts-slash action)
      ∙ matches-literal "/conversionActions/" _ _
      ∙ last_run is_word action is_run

slash-cons : (t : String) → "/" <> t ≡ cons "/" t
slash-cons t = cons-append "/" "" t ∙ ap (cons "/") (nil-append t)

or_true : (b : Bool) → (b || true) ≡ true
or_true true = refl
or_true false = refl

contains_slash : (s t : String) → contains_code 47 (s <> ("/" <> t)) ≡ true
unfolding contains_code
contains_slash String.[] t = rw (nil-append, slash-cons t) refl
contains_slash (String.◌∷◌ c s) t =
    rw (cons-append c s ("/" <> t)) (rw (contains_slash s t) (or_true (nat_eq (code c) 47)))

action_name-prefix : (s t : String) → action_name (s <> ("/" <> t)) ≡ action_name ("/" <> t)
unfolding action_name
action_name-prefix String.[] t = rw nil-append refl
action_name-prefix (String.◌∷◌ c s) t =
    rw (cons-append c s ("/" <> t)) (rw (contains_slash s t) (action_name-prefix s t))

word_no_slash : (c : Char) → is_word c ≡ true → nat_eq (code c) 47 ≡ false
word_no_slash c h = ground arith

words_no_slash : (s : String) → all_chars is_word s ≡ true → contains_code 47 s ≡ false
unfolding contains_code all_chars
words_no_slash String.[] h = refl
words_no_slash (String.◌∷◌ c s) h =
    let (first, rest) = both_true (is_word c) (all_chars is_word s) h in
    rw (word_no_slash c first) (words_no_slash s rest)

resource-split :
    (customer_id action : String)
    → conversion_action_resource customer_id action
      ≡ ("customers/" <> (customer_id <> "/conversionActions")) <> ("/" <> action)
unfolding conversion_action_resource
resource-split customer_id action =
    ap (λ t. "customers/" <> (customer_id <> t)) (text_assoc "/conversionActions" "/" action)
    ∙ ap (λ t. "customers/" <> t)
        (sym (text_assoc customer_id "/conversionActions" ("/" <> action)))
    ∙ sym (text_assoc "customers/" (customer_id <> "/conversionActions") ("/" <> action))

-- The mock looks up the action's own name.
pub action_name-resource :
    (customer_id action : String)
    → all_chars is_word action ≡ true
    → action_name (conversion_action_resource customer_id action) ≡ action
unfolding action_name
action_name-resource customer_id action words =
    ap action_name (resource-split customer_id action)
    ∙ action_name-prefix ("customers/" <> (customer_id <> "/conversionActions")) action
    ∙ ap action_name (slash-cons action)
    ∙ rw (words_no_slash action words) refl
