-- ===== src/Prelude/Orders.antt =====
-- What selecting, sorting and cutting a list keep: its items, and their order by a key.
use Prim.Native.Nat.{ℕ, zero, suc, ◌≤◌}
use mathlib.Core.Path.{◌≡◌, refl}
use mathlib.Core.Logic.{◌⊎◌, inl, inr}
use mathlib.Core.Bool.{Bool, true, false}
use mathlib.Core.List.{List, [], ◌∷◌}
use native.Mathlib.Omega.{arith}
use conversion_gateway.Prelude.Tests.{leb, Bool-cases}
use conversion_gateway.Prelude.Lists.{
  length, take, select, insert_by, order_by, insert_by_desc, order_by_desc, All, All-map, All-take,
  All-select, All-insert_by,
}

module _ {A : Type 0} where
  -- The list has the item.
  abbrev pub Has : List A → A → Type 0
  Has [] x = Path Bool true false
  Has (y ∷ ys) x = (x ≡ y) ⊎ Has ys x

  -- A list has its own items.
  pub All-Has : (xs : List A) → All (Has xs) xs
  All-Has [] = tt
  All-Has (x ∷ xs) = (inl refl, All-map xs (λ y h. inr h) (All-Has xs))

  pub Has-select :
      (p : A → Bool) (x : A) (xs : List A) → p x ≡ true → Has xs x → Has (select p xs) x
  Has-select p x [] passes h = h
  Has-select p x (y ∷ ys) passes (inl same) = rw (rw same at passes) (inl same)
  Has-select p x (y ∷ ys) passes (inr later) = elim (Bool-cases (p y)) [
    | inl kept ↦ rw kept (inr (Has-select p x ys passes later))
    | inr dropped ↦ rw dropped (Has-select p x ys passes later)
  ]

  module _ (key : A → ℕ) where
    Has-insert_self : (x : A) (ys : List A) → Has (insert_by key x ys) x
    Has-insert_self x [] = inl refl
    Has-insert_self x (y ∷ ys) = elim (Bool-cases (leb (key x) (key y))) [
      | inl before ↦ rw before (inl refl)
      | inr after ↦ rw after (inr (Has-insert_self x ys))
    ]

    Has-insert_by : (x z : A) (ys : List A) → Has ys z → Has (insert_by key x ys) z
    Has-insert_by x z [] h = inr h
    Has-insert_by x z (y ∷ ys) h = elim (Bool-cases (leb (key x) (key y))) [
      | inl before ↦ rw before (inr h)
      | inr after ↦
          rw after (elim h [ inl same ↦ inl same | inr later ↦ inr (Has-insert_by x z ys later) ])
    ]

    pub Has-order_by : (z : A) (xs : List A) → Has xs z → Has (order_by key xs) z
    Has-order_by z [] h = h
    Has-order_by z (x ∷ xs) (inl same) = rw same (Has-insert_self x (order_by key xs))
    Has-order_by z (x ∷ xs) (inr later) =
        Has-insert_by x z (order_by key xs) (Has-order_by z xs later)

    -- No item comes before one with a smaller key.
    abbrev pub IsOrdered : List A → Type 0
    IsOrdered [] = Unit
    IsOrdered (x ∷ xs) = All (λ y. key x ≤ key y) xs × IsOrdered xs

    insert_by-IsOrdered : (x : A) (ys : List A) → IsOrdered ys → IsOrdered (insert_by key x ys)
    insert_by-IsOrdered x [] h = (tt, tt)
    insert_by-IsOrdered x (y ∷ ys) (first, rest) = elim (Bool-cases (leb (key x) (key y))) [
      | inl before ↦
          let below : key x ≤ key y = ground arith in
          rw before ((below, All-map ys (λ z h. omega (arith, below, h)) first), (first, rest))
      | inr after ↦ rw after (
        All-insert_by (λ z. key y ≤ key z) key x ys (ground arith) first,
        insert_by-IsOrdered x ys rest,
      )
    ]

    pub order_by-IsOrdered : (xs : List A) → IsOrdered (order_by key xs)
    order_by-IsOrdered [] = tt
    order_by-IsOrdered (x ∷ xs) = insert_by-IsOrdered x (order_by key xs) (order_by-IsOrdered xs)

    All-kept : (P : A → Type 0) (p : A → Bool) (xs : List A) → All P xs → All P (select p xs)
    All-kept P p xs h = All-map (select p xs) (λ x k. k.0) (All-select P p xs h)

    pub select-IsOrdered : (p : A → Bool) (xs : List A) → IsOrdered xs → IsOrdered (select p xs)
    select-IsOrdered p [] h = tt
    select-IsOrdered p (x ∷ xs) (first, rest) = elim (Bool-cases (p x)) [
      | inl kept ↦ rw kept (All-kept (λ y. key x ≤ key y) p xs first, select-IsOrdered p xs rest)
      | inr dropped ↦ rw dropped (select-IsOrdered p xs rest)
    ]

    pub take-IsOrdered : (n : ℕ) (xs : List A) → IsOrdered xs → IsOrdered (take n xs)
    take-IsOrdered zero xs h = tt
    take-IsOrdered (suc n) [] h = tt
    take-IsOrdered (suc n) (x ∷ xs) (first, rest) =
        (All-take (λ y. key x ≤ key y) n xs first, take-IsOrdered n xs rest)

    below-Has : (x z : A) (ys : List A) → All (λ y. key x ≤ key y) ys → Has ys z → key x ≤ key z
    below-Has x z [] h has = cc
    below-Has x z (y ∷ ys) (first, rest) (inl same) = rw same first
    below-Has x z (y ∷ ys) (first, rest) (inr later) = below-Has x z ys rest later

    -- What a cut of an ordered list leaves out comes after all that it takes, and the cut is full.
    pub take-first :
        (n : ℕ) (z : A) (xs : List A)
        → IsOrdered xs
        → Has xs z
        → Has (take n xs) z ⊎ ((length (take n xs) ≡ n) × All (λ x. key x ≤ key z) (take n xs))
    take-first zero z xs ordered has = inr (refl, tt)
    take-first (suc n) z [] ordered has = cc
    take-first (suc n) z (x ∷ xs) (first, rest) (inl same) = inl (inl same)
    take-first (suc n) z (x ∷ xs) (first, rest) (inr later) = elim (take-first n z xs rest later) [
      | inl taken ↦ inl (inr taken)
      | inr (full, earlier) ↦ inr (omega (arith, full), (below-Has x z xs first later, earlier))
    ]

    insert_by_desc-cases :
        (x y : A) (ys : List A)
        → (insert_by_desc key x (y ∷ ys) ≡ x ∷ y ∷ ys)
          ⊎ (insert_by_desc key x (y ∷ ys) ≡ y ∷ insert_by_desc key x ys)
    insert_by_desc-cases x y ys = elim (Bool-cases (leb (key y) (key x))) [
      | inl before ↦ inl (rw before refl)
      | inr after ↦ inr (rw after refl)
    ]

    Has-insert_desc : (x z : A) (ys : List A) → Has (x ∷ ys) z → Has (insert_by_desc key x ys) z
    Has-insert_desc x z [] h = h
    Has-insert_desc x z (y ∷ ys) h = elim (insert_by_desc-cases x y ys) [
      | inl e ↦ rw e h
      | inr e ↦ rw e (elim h [
        | inl same ↦ inr (Has-insert_desc x z ys (inl same))
        | inr (inl same) ↦ inl same
        | inr (inr later) ↦ inr (Has-insert_desc x z ys (inr later))
      ])
    ]

    pub Has-order_by_desc : (z : A) (xs : List A) → Has xs z → Has (order_by_desc key xs) z
    Has-order_by_desc z [] h = h
    Has-order_by_desc z (x ∷ xs) (inl same) = Has-insert_desc x z (order_by_desc key xs) (inl same)
    Has-order_by_desc z (x ∷ xs) (inr later) =
        Has-insert_desc x z (order_by_desc key xs) (inr (Has-order_by_desc z xs later))

    All-insert_desc :
        (P : A → Type 0) (x : A) (ys : List A) → P x → All P ys → All P (insert_by_desc key x ys)
    All-insert_desc P x [] h hs = (h, hs)
    All-insert_desc P x (y ∷ ys) h (hy, hs) = elim (insert_by_desc-cases x y ys) [
      | inl e ↦ rw e (h, (hy, hs))
      | inr e ↦ rw e (hy, All-insert_desc P x ys h hs)
    ]

    pub All-order_by_desc : (P : A → Type 0) (xs : List A) → All P xs → All P (order_by_desc key xs)
    All-order_by_desc P [] h = tt
    All-order_by_desc P (x ∷ xs) (h, hs) =
        All-insert_desc P x (order_by_desc key xs) h (All-order_by_desc P xs hs)

  -- A cut has the item or is full.
  pub Has-take :
      (n : ℕ) (z : A) (xs : List A) → Has xs z → Has (take n xs) z ⊎ (length (take n xs) ≡ n)
  Has-take zero z xs has = inr refl
  Has-take (suc n) z [] has = cc
  Has-take (suc n) z (x ∷ xs) (inl same) = inl (inl same)
  Has-take (suc n) z (x ∷ xs) (inr later) = elim (Has-take n z xs later) [
    | inl taken ↦ inl (inr taken)
    | inr full ↦ inr (omega (arith, full))
  ]
