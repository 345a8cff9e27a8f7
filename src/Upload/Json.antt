-- ===== src/Upload/Json.antt =====
-- Decoded JSON and what Python does with it: subscripts, `get`, loops, truth values.
use conversion_gateway.Prelude.{
  if◌then◌else◌, is_blank, ℕ, zero, suc, String, Bool, true, false, not, Option, none, some, List,
  [], ◌∷◌, ◌==◌,
}
use conversion_gateway.Exec.{key_error, type_error, attribute_error, Result, ok, err}

mutual
  pub data Json : Type 0 where
    null : Json
    boolean : Bool → Json
    integer : ℕ → Json
    negative : ℕ → Json
    -- with whether it differs from zero
    float : Bool → Json
    text : String → Json
    array : Items → Json
    object : Fields → Json

  pub data Items : Type 0 where
    nil : Items
    item : Json → Items → Items

  pub data Fields : Type 0 where
    end : Fields
    field : String → Json → Fields → Fields

unfoldable pub elements : Items → List Json
elements nil = []
elements (item j rest) = j ∷ elements rest

unfoldable pub lookup : String → Fields → Option Json
lookup key end = none
lookup key (field k v rest) = if k == key then some v else lookup key rest

-- `body[key]`
unfoldable pub subscript : Json → String → Result Json
unfolding lookup
subscript (object fields) key = elim (lookup key fields) [ some v ↦ ok v | none ↦ err key_error ]
subscript _ key = err type_error

-- `value.get(key, default)`
unfoldable pub get : Json → String → Json → Result Json
unfolding lookup
get (object fields) key default = elim (lookup key fields) [ some v ↦ ok v | none ↦ ok default ]
get _ key default = err attribute_error

-- The truth value of a JSON value.
unfoldable pub is_true : Json → Bool
is_true null = false
is_true (boolean b) = b
is_true (integer zero) = false
is_true (integer (suc n)) = true
is_true (negative n) = true
is_true (float nonzero) = nonzero
is_true (text t) = not (is_blank t)
is_true (array nil) = false
is_true (array (item j rest)) = true
is_true (object end) = false
is_true (object (field k v rest)) = true

abbrev pub empty_object : Json
empty_object = object end

-- `value or {}`
abbrev pub or_empty : Json → Json
or_empty j = if is_true j then j else empty_object

keys : Fields → List Json
keys end = []
keys (field k v rest) = text k ∷ keys rest

characters : String → List Json
characters String.[] = []
characters (String.◌∷◌ c s) = text (String.◌∷◌ c String.[]) ∷ characters s

-- What a `for` loop over the value goes through.
unfoldable pub iterate : Json → Result (List Json)
unfolding elements keys characters
iterate (array items) = ok (elements items)
iterate (object fields) = ok (keys fields)
iterate (text t) = ok (characters t)
iterate _ = err type_error

-- `next(iter(value.values()), "UNKNOWN")`
unfoldable pub first_value : Json → Result Json
first_value (object end) = ok (text "UNKNOWN")
first_value (object (field k v rest)) = ok v
first_value _ = err attribute_error

infixl 5 ◌>>?◌
abbrev pub ◌>>?◌ : {A B : Type 0} → Result A → (A → Result B) → Result B
ok a >>? f = f a
err e >>? f = err e
