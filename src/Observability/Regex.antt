-- ===== src/Observability/Regex.antt =====
-- `re.sub` for patterns of repetitions, which give back what they took, and looks at the neighbours. A
-- place in a text is the character before it and the text after it.
use conversion_gateway.Prelude.{
  nat_eq, if◌then◌else◌, ◌<>◌, ℕ, zero, suc, ◌-◌, String, Char, Bool, false, Option, none, some,
  List, [], ◌∷◌,
}
use conversion_gateway.Normalise.Strings.{char_count}

abbrev Place : Type 0
Place = Option Char × String

pub data Part : Type 0 where
  -- `[…]{n,}`, `[…]?`, `[…]`
  at_least : ℕ → (Char → Bool) → Part
  maybe : (Char → Bool) → Part
  one : (Char → Bool) → Part
  -- `(?<![…])`, `(?![…])`
  not_behind : (Char → Bool) → Part
  not_ahead : (Char → Bool) → Part

abbrev or_else : Option Place → Option Place → Option Place
or_else none other = other
or_else (some place) other = some place

-- As many characters of the class as the rest of the pattern lets it keep, and at least so many.
greedy :
    ℕ → (Char → Bool) → (Option Char → String → Option Place) → Option Char → String → Option Place
greedy n p rest before String.[] = if nat_eq n 0 then rest before "" else none
greedy n p rest before (String.◌∷◌ c s) =
    let longer = greedy (n - 1) p rest (some c) s in
    let stop = if nat_eq n 0 then rest before (String.◌∷◌ c s) else none in
    if p c then or_else longer stop else stop

abbrev step : (Char → Bool) → (Option Char → String → Option Place) → String → Option Place
step p rest String.[] = none
step p rest (String.◌∷◌ c s) = if p c then rest (some c) s else none

abbrev is_at : (Char → Bool) → Option Char → Bool
is_at p none = false
is_at p (some c) = p c

abbrev head_of : String → Option Char
head_of String.[] = none
head_of (String.◌∷◌ c s) = some c

-- The end of the match that begins at the place.
unfoldable match_at : List Part → Option Char → String → Option Place
unfolding greedy
match_at [] before s = some (before, s)
match_at (at_least n p ∷ ps) before s = greedy n p (match_at ps) before s
match_at (maybe p ∷ ps) before s = or_else (step p (match_at ps) s) (match_at ps before s)
match_at (one p ∷ ps) before s = step p (match_at ps) s
match_at (not_behind p ∷ ps) before s =
    let rest = match_at ps before s in if is_at p before then none else rest
match_at (not_ahead p ∷ ps) before s =
    let rest = match_at ps before s in if is_at p (head_of s) then none else rest

-- The text from a place on; a match is never empty, so a round of the fuel passes a character.
replace_from : ℕ → List Part → String → Option Char → String → String
unfolding match_at
replace_from zero pattern by before s = s
replace_from (suc fuel) pattern by before String.[] = ""
replace_from (suc fuel) pattern by before (String.◌∷◌ c s) =
    elim (match_at pattern before (String.◌∷◌ c s)) [
      | some (last, rest) ↦ by <> replace_from fuel pattern by last rest
      | none ↦ String.◌∷◌ c (replace_from fuel pattern by (some c) s)
    ]

-- `pattern.sub(by, text)`
unfoldable pub sub : List Part → String → String → String
unfolding replace_from char_count
sub pattern by s = replace_from (suc (char_count s)) pattern by none s
