-- ===== src/Normalise/Strings.antt =====
-- The methods of `str` that the normalisers call.
use conversion_gateway.Prelude.{
  nat_eq, if◌then◌else◌, ◌<>◌, is_blank, ℕ, suc, String, Char, code, Bool, true, false, ◌&&◌, ◌||◌,
  Option, none, some, List, [], ◌∷◌, ◌==◌,
}

abbrev pub cons : Char → String → String
cons c s = String.◌∷◌ c s

-- The text without the characters that a test picks out.
unfoldable pub remove_if : (Char → Bool) → String → String
remove_if p String.[] = ""
remove_if p (String.◌∷◌ c s) = if p c then remove_if p s else String.◌∷◌ c (remove_if p s)

-- `ch in s`
unfoldable pub contains_code : ℕ → String → Bool
contains_code k String.[] = false
contains_code k (String.◌∷◌ c s) = nat_eq (code c) k || contains_code k s

-- `s.split(ch, 1)[0]`
unfoldable pub before_code : ℕ → String → String
before_code k String.[] = ""
before_code k (String.◌∷◌ c s) = if nat_eq (code c) k then "" else String.◌∷◌ c (before_code k s)

abbrev prefixed : Char → Option (String × String) → Option (String × String)
prefixed c none = none
prefixed c (some (head, rest)) = some (String.◌∷◌ c head, rest)

-- `s.partition(ch)`, with `none` where the separator is not found
unfoldable pub partition_code : ℕ → String → Option (String × String)
partition_code k String.[] = none
partition_code k (String.◌∷◌ c s) =
    if nat_eq (code c) k then some ("", s) else prefixed c (partition_code k s)

-- `len(s)`, in characters
unfoldable pub char_count : String → ℕ
char_count String.[] = 0
char_count (String.◌∷◌ c s) = suc (char_count s)

unfoldable pub all_chars : (Char → Bool) → String → Bool
all_chars p String.[] = true
all_chars p (String.◌∷◌ c s) = p c && all_chars p s

unfoldable pub text_in : String → List String → Bool
text_in s [] = false
text_in s (t ∷ ts) = s == t || text_in s ts

module _ (is_space : Char → Bool) where
  lstrip : String → String
  lstrip String.[] = ""
  lstrip (String.◌∷◌ c s) = if is_space c then lstrip s else String.◌∷◌ c s

  abbrev keep_unless_trailing : Char → String → String
  keep_unless_trailing c String.[] = if is_space c then "" else cons c ""
  keep_unless_trailing c (String.◌∷◌ d s) = cons c (String.◌∷◌ d s)

  rstrip : String → String
  rstrip String.[] = ""
  rstrip (String.◌∷◌ c s) = keep_unless_trailing c (rstrip s)

  -- `s.strip()`
  unfoldable pub strip : String → String
  unfolding lstrip rstrip
  strip s = rstrip (lstrip s)

  -- The word that is being read, and those after it.
  split_from : String → String → List String
  split_from word String.[] = if is_blank word then [] else word ∷ []
  split_from word (String.◌∷◌ c s) =
      let ended = split_from "" s in
      let longer = split_from (word <> cons c "") s in
      if is_space c then (if is_blank word then ended else word ∷ ended) else longer

  -- `s.split()`
  unfoldable pub split : String → List String
  unfolding split_from
  split s = split_from "" s
