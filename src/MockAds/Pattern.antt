-- ===== src/MockAds/Pattern.antt =====
-- The regular expressions of the mock, as `re.match` reads them. A repetition takes what it can and
-- gives nothing back: in each of the patterns what follows it starts with another character.
use conversion_gateway.Prelude.{
  leb, nat_eq, if◌then◌else◌, is_blank, ℕ, zero, suc, String, Char, code, Bool, true, false, ◌&&◌,
  ◌||◌, List, [], ◌∷◌,
}

pub data Piece : Type 0 where
  one : (Char → Bool) → Piece
  many : (Char → Bool) → Piece

-- `$`: the end, or a newline before it
unfoldable pub at_end : String → Bool
at_end String.[] = true
at_end (String.◌∷◌ c s) = nat_eq (code c) 10 && is_blank s

unfoldable pub skip_while : (Char → Bool) → String → String
skip_while p String.[] = ""
skip_while p (String.◌∷◌ c s) = if p c then skip_while p s else String.◌∷◌ c s

-- `re.compile("^…$").match(s)`
unfoldable pub matches_all : List Piece → String → Bool
unfolding at_end skip_while
matches_all [] s = at_end s
matches_all (piece ∷ ps) String.[] = false
matches_all (one p ∷ ps) (String.◌∷◌ c s) = p c && matches_all ps s
matches_all (many p ∷ ps) (String.◌∷◌ c s) = p c && matches_all ps (skip_while p s)

-- So many characters of a class, and then the rest.
unfoldable pub times : ℕ → (Char → Bool) → List Piece → List Piece
times zero p ps = ps
times (suc n) p ps = times n p (one p ∷ ps)

abbrev is_char : Char → Char → Bool
is_char c d = nat_eq (code c) (code d)

-- The characters of a text as they stand.
unfoldable pub literal : String → List Piece → List Piece
literal String.[] ps = ps
literal (String.◌∷◌ c s) ps = one (is_char c) ∷ literal s ps

-- `[0-9]`
abbrev pub is_ascii_digit : Char → Bool
is_ascii_digit c = leb 48 (code c) && leb (code c) 57

-- `[0-9a-f]`
abbrev is_hex : Char → Bool
is_hex c = is_ascii_digit c || (leb 97 (code c) && leb (code c) 102)

-- `[A-Za-z0-9_]`
abbrev pub is_word : Char → Bool
is_word c =
    is_ascii_digit c
    || (leb 65 (code c) && leb (code c) 90)
    || (leb 97 (code c) && leb (code c) 122)
    || nat_eq (code c) 95

-- `[+-]`
abbrev pub is_sign : Char → Bool
is_sign c = nat_eq (code c) 43 || nat_eq (code c) 45

-- `HEX64`
unfoldable pub hex64 : List Piece
unfolding times
hex64 = times 64 is_hex []

-- `\d` is Unicode's decimal digits.
module _ (is_decimal : Char → Bool) where
  -- `CONVERSION_ACTION`
  unfoldable pub conversion_action : List Piece
  conversion_action =
      literal "customers/" (many is_decimal ∷ literal "/conversionActions/" (many is_word ∷ []))

  -- `DATE_TIME`
  unfoldable pub date_time : List Piece
  date_time = times 4 is_decimal (
      literal "-" (
        times 2 is_decimal (
          literal "-" (
            times 2 is_decimal (
              literal " " (
                times 2 is_decimal (
                  literal ":" (
                    times 2 is_decimal (
                      literal ":" (
                        times 2 is_decimal (
                          one is_sign
                          ∷ times 2 is_decimal (literal ":" (times 2 is_decimal [])))))))))))))
