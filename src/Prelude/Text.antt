-- ===== src/Prelude/Text.antt =====
-- Texts as the program uses them: decimal numbers, slices from the left, joins.
use Prim.Native.Nat.{ℕ, zero, suc, ◌/◌, ◌%◌}
use Prim.Native.String
use Prim.Native.String.{String}
use mathlib.Core.Bool.{Bool, true, false}
use mathlib.Core.Option.{Option, none, some}
use mathlib.Core.List.{List, [], ◌∷◌}
use conversion_gateway.Prelude.Tests.{ltb, if◌then◌else◌}

infixr 65 ◌<>◌
-- `s + t` on texts.
abbrev pub ◌<>◌ : String → String → String
s <> t = String.◌++◌ s t

abbrev pub is_blank : String → Bool
is_blank String.[] = true
is_blank (String.◌∷◌ c s) = false

-- `s[:n]`
unfoldable pub left : ℕ → String → String
left zero s = ""
left (suc n) String.[] = ""
left (suc n) (String.◌∷◌ c s) = String.◌∷◌ c (left n s)

-- `sep.join(parts)`
unfoldable pub join : String → List String → String
join sep [] = ""
join sep (p ∷ []) = p
join sep (p ∷ q ∷ ps) = p <> (sep <> join sep (q ∷ ps))

abbrev digit : ℕ → String
digit d = elim d [
  | zero ↦ "0"
  | suc zero ↦ "1"
  | suc (suc zero) ↦ "2"
  | suc (suc (suc zero)) ↦ "3"
  | suc (suc (suc (suc zero))) ↦ "4"
  | suc (suc (suc (suc (suc zero)))) ↦ "5"
  | suc (suc (suc (suc (suc (suc zero))))) ↦ "6"
  | suc (suc (suc (suc (suc (suc (suc zero)))))) ↦ "7"
  | suc (suc (suc (suc (suc (suc (suc (suc zero))))))) ↦ "8"
  | _ ↦ "9"
]

-- The digits of a number below 10 ^ rounds.
decimal_from : ℕ → ℕ → String
decimal_from zero n = ""
decimal_from (suc rounds) n =
    let more = decimal_from rounds (n / 10) <> digit (n % 10) in if ltb n 10 then digit n else more

-- `str(n)`: a number n has at most n + 1 digits.
unfoldable pub str_of : ℕ → String
unfolding decimal_from
str_of n = decimal_from (suc n) n

-- `value or None`, and the truth value of an optional text
abbrev pub truthy : Option String → Bool
truthy none = false
truthy (some String.[]) = false
truthy (some (String.◌∷◌ c s)) = true
