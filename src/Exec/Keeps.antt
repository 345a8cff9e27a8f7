-- ===== src/Exec/Keeps.antt =====
-- Invariants of the world under an action, one rule for each way to build an action.
use conversion_gateway.Prelude.{if◌then◌else◌, Bool, true, false, Option, none, some, List, [], ◌∷◌}
use conversion_gateway.Exec.{
  Exec, pure, or_raise, close, transaction, continue, ◌>>=◌, for_each, for_collect, Db, World,
  Error, Result, ok, err,
}

-- `m` keeps `P`, whether it returns or raises.
abbrev pub Keeps : {A : Type 0} → (World → Type 0) → Exec A → Type 0
Keeps P m = (w : World) → P w → P (m w).1

module _ {A B : Type 0} (P : World → Type 0) where
  pub Keeps-bind :
      (m : Exec A) (f : A → Exec B) → Keeps P m → ((a : A) → Keeps P (f a)) → Keeps P (m >>= f)
  Keeps-bind m f km kf w h = continued (m w) (km w h)
    where
      continued : (r : Result A × World) → P r.1 → P (continue f r).1
      continued (ok a, w') h' = kf a w' h'
      continued (err e, w') h' = h'

module _ {A : Type 0} (P : World → Type 0) where
  pub Keeps-for_each :
      (body : A → Exec (Unit {0})) (xs : List A)
      → ((x : A) → Keeps P (body x))
      → Keeps P (for_each xs body)
  unfolding for_each
  Keeps-for_each body [] kb = λ w h. h
  Keeps-for_each body (x ∷ xs) kb =
      Keeps-bind P (body x) (λ _. for_each xs body) (kb x) (λ _. Keeps-for_each body xs kb)

  pub Keeps-if : (b : Bool) (m n : Exec A) → Keeps P m → Keeps P n → Keeps P (if b then m else n)
  Keeps-if true m n km kn = km
  Keeps-if false m n km kn = kn

module _ {A B : Type 0} (P : World → Type 0) where
  pub Keeps-collect :
      (body : A → Exec B) (xs : List A)
      → ((x : A) → Keeps P (body x))
      → Keeps P (for_collect xs body)
  unfolding for_collect
  Keeps-collect body [] kb = λ w h. h
  Keeps-collect body (x ∷ xs) kb =
      Keeps-bind P (body x) (λ y. for_collect xs body >>= λ ys. pure (y ∷ ys)) (kb x)
        λ y.
          Keeps-bind P (for_collect xs body) (λ ys. pure (y ∷ ys)) (Keeps-collect body xs kb)
            λ ys w h. h

module _ {A : Type 0} (Q : Db → Type 0) where
  -- A transaction keeps what is said of the database alone.
  pub Keeps-transaction : (m : Exec A) → Keeps (λ w. Q w.db) m → Keeps (λ w. Q w.db) (transaction m)
  Keeps-transaction m km w h = closed (m w) (km w h)
    where
      closed : (r : Result A × World) → Q r.1.db → Q (close w.db r).1.db
      closed (ok a, w') h' = h'
      closed (err e, w') h' = h

module _ {A : Type 0} (P : World → Type 0) where
  pub Keeps-or_raise : (o : Option A) (e : Error) → Keeps P (or_raise o e)
  Keeps-or_raise none e w h = h
  Keeps-or_raise (some a) e w h = h
