-- ===== src/Normalise/Libs.antt =====
-- What the normalisers take from elsewhere: the Unicode tables behind `str` and `unicodedata`, the
-- phonenumbers package, and SHA-256 (src/gateway/normalise/hashing.py encodes as UTF-8 and calls it).
use conversion_gateway.Prelude.{String, Char, Bool, Option}

pub record Libs : Type 1 where
  pub is_space : Char → Bool
  pub lower : String → String
  pub upper : String → String
  pub is_alpha : Char → Bool
  pub nfkd : String → String
  -- category Mn, and the categories that begin with P
  pub is_mark : Char → Bool
  pub is_punctuation : Char → Bool
  pub PhoneNumber : Type 0
  -- `phonenumbers.parse`, with `none` for NumberParseException
  pub parse_phone : String → Option String → Option PhoneNumber
  pub is_valid_number : PhoneNumber → Bool
  pub format_e164 : PhoneNumber → String
  pub sha256_hex : String → String
