-- ===== src/Api/Signature.antt =====
-- Webhook authentication: src/gateway/api/signature.py. HMAC, UTF-8, `int` and `str.lower` are
-- parameters. The clock is a number of microseconds, where the code has a float of seconds.
use conversion_gateway.Prelude.{
  ltb, leb, nat_eq, if◌then◌else◌, ◌<>◌, is_blank, ℕ, ◌+◌, ◌-◌, ◌*◌, ◌^◌, String, code, Bool, true,
  ◌&&◌, ◌||◌, not, Option, none, some, List, [], ◌∷◌, ◌++◌, ◌==◌,
}
use conversion_gateway.Normalise.Strings.{char_count}
use text.Mathlib.Text.{starts_with}

pub data SignatureFailure : Type 0 where
  missing_timestamp missing_signature malformed_timestamp malformed_signature : SignatureFailure
  timestamp_out_of_window signature_mismatch source_not_configured : SignatureFailure

-- An `int`: its sign and its magnitude.
pub record Integer : Type 0 where
  pub below_zero : Bool
  pub magnitude : ℕ

abbrev pub Bytes : Type 0
Bytes = List ℕ

pub record Primitives : Type 0 where
  pub utf8 : String → Bytes
  pub hmac_sha256_hex : Bytes → Bytes → String
  pub lower : String → String
  -- `int(text)`, with `none` for its ValueError
  pub parse_int : String → Option Integer

-- The answer of `verify`, or an exception that it lets through: UnicodeEncodeError, TypeError or
-- OverflowError.
pub data Verdict : Type 0 where
  answer : Option SignatureFailure → Verdict
  unicode_encode_error type_error overflow_error : Verdict

unfoldable pub is_ascii : String → Bool
is_ascii String.[] = true
is_ascii (String.◌∷◌ c s) = ltb (code c) 128 && is_ascii s

unfoldable pub codes : String → Bytes
codes String.[] = []
codes (String.◌∷◌ c s) = code c ∷ codes s

-- `abs(now - sent_at) > tolerance_seconds`
unfoldable pub out_of_window : ℕ → Integer → ℕ → Bool
out_of_window now sent tolerance_seconds =
    let sent_at = sent.magnitude * 1000000 in
    let limit = tolerance_seconds * 1000000 in
    if sent.below_zero
    then ltb limit (now + sent_at)
    else ltb limit (now - sent_at) || ltb limit (sent_at - now)

-- A magnitude that rounds to no float.
abbrev pub is_huge : Integer → Bool
is_huge sent = leb (2 ^ 1024 - 2 ^ 970) sent.magnitude

module _ (prim : Primitives) where
  -- `compute_signature`, of a timestamp that is ASCII
  unfoldable pub compute_signature : String → String → Bytes → String
  unfolding codes
  compute_signature secret timestamp body =
      "sha256=" <> prim.hmac_sha256_hex (prim.utf8 secret) (codes timestamp ++ b'.' ∷ body)

  -- From the comparison on. `compare_digest` takes ASCII text alone.
  unfoldable pub compared : String → String → String → Bytes → Verdict
  unfolding compute_signature is_ascii
  compared secret timestamp signature body =
      if not (is_ascii timestamp)
      then unicode_encode_error
      else if not (is_ascii (prim.lower signature))
      then type_error
      else if compute_signature secret timestamp body == prim.lower signature
      then answer none
      else answer (some signature_mismatch)

  -- From the window on.
  unfoldable pub windowed : String → String → Integer → String → Bytes → ℕ → ℕ → Verdict
  unfolding compared out_of_window
  windowed secret timestamp sent signature body now tolerance_seconds =
      if is_huge sent
      then overflow_error
      else if out_of_window now sent tolerance_seconds
      then answer (some timestamp_out_of_window)
      else compared secret timestamp signature body

  -- From the parsed timestamp on.
  unfoldable pub structured : String → String → Option Integer → String → Bytes → ℕ → ℕ → Verdict
  unfolding windowed char_count
  structured secret timestamp none signature body now tolerance_seconds =
      answer (some malformed_timestamp)
  structured secret timestamp (some sent) signature body now tolerance_seconds =
      if not (starts_with signature "sha256=") || not (nat_eq (char_count signature) 71)
      then answer (some malformed_signature)
      else windowed secret timestamp sent signature body now tolerance_seconds

  -- The two headers.
  unfoldable pub headers : String → Option String → Option String → Bytes → ℕ → ℕ → Verdict
  unfolding structured
  headers secret none signature body now tolerance_seconds = answer (some missing_timestamp)
  headers secret (some timestamp) none body now tolerance_seconds = answer (some missing_signature)
  headers secret (some timestamp) (some signature) body now tolerance_seconds =
      structured secret timestamp (prim.parse_int timestamp) signature body now tolerance_seconds

  unfoldable pub verify : String → Option String → Option String → Bytes → ℕ → ℕ → Verdict
  unfolding headers
  verify secret timestamp_header signature_header body now tolerance_seconds =
      if is_blank secret
      then answer (some source_not_configured)
      else headers secret timestamp_header signature_header body now tolerance_seconds
