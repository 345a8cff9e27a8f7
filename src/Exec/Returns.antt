-- ===== src/Exec/Returns.antt =====
-- What is known of the parts of an action that returned.
use conversion_gateway.Prelude.{if◌then◌else◌, ◌≡◌, refl, subst, Bool, true, false}
use conversion_gateway.Exec.{
  Exec, pure, raise, close, transaction, continue, ◌>>=◌, World, Error, Result, ok, err,
}

-- An action returned `b` with the world `w`.
module _ {A B : Type 0} where
  pub bind-returns :
      (m : Exec A) (f : A → Exec B) (b : B) (w : World)
      → ((m >>= f) w).0 ≡ ok b
      → (a : A) × ((m w).0 ≡ ok a) × ((f a (m w).1).0 ≡ ok b)
  bind-returns m f b w h = returned (m w) refl h
    where
      returned :
          (r : Result A × World)
          → m w ≡ r
          → (continue f r).0 ≡ ok b
          → (a : A) × (r.0 ≡ ok a) × ((f a r.1).0 ≡ ok b)
      returned (ok a, w') e h' = (a, refl, h')
      returned (err x, w') e h' = cc

  pub bind-runs :
      (m : Exec A) (f : A → Exec B) (a : A) (w : World) → (m w).0 ≡ ok a → (m >>= f) w ≡ f a (m w).1
  bind-runs m f a w h = rw h refl

module _ {A : Type 0} where
  pub transaction-returns :
      (m : Exec A) (a : A) (w : World) → (transaction m w).0 ≡ ok a → (m w).0 ≡ ok a
  transaction-returns m a w h = closed (m w) h
    where
      closed : (r : Result A × World) → (close w.db r).0 ≡ ok a → r.0 ≡ ok a
      closed (ok b, w') h' = h'
      closed (err x, w') h' = h'

  pub transaction-runs : (m : Exec A) (a : A) (w : World) → (m w).0 ≡ ok a → transaction m w ≡ m w
  transaction-runs m a w h = closed (m w) h
    where
      closed : (r : Result A × World) → r.0 ≡ ok a → close w.db r ≡ r
      closed (ok b, w') h' = refl
      closed (err x, w') h' = cc

  pub ok-injective : {a b : A} → Path (Result A) (ok a) (ok b) → a ≡ b
  ok-injective h = cc

  -- A transaction that does not return leaves the database as it was.
  pub transaction-raises :
      (m : Exec A) (w : World)
      → ((a : A) → ¬ ((m w).0 ≡ ok a))
      → (e : Error) × ((transaction m w).0 ≡ err e) × ((transaction m w).1.db ≡ w.db)
  transaction-raises m w h = closed (m w) h
    where
      closed :
          (r : Result A × World)
          → ((a : A) → ¬ (r.0 ≡ ok a))
          → (e : Error) × ((close w.db r).0 ≡ err e) × ((close w.db r).1.db ≡ w.db)
      closed (ok b, w') h' = elim (h' b refl) [ ]
      closed (err x, w') h' = (x, refl, refl)

-- Every value that the action returns has the property.
abbrev pub Yields : {A : Type 0} → (A → Type 0) → Exec A → Type 0
Yields {A} P m = (w : World) (a : A) → (m w).0 ≡ ok a → P a

module _ {A : Type 0} (P : A → Type 0) where
  pub Yields-pure : (a : A) → P a → Yields P (pure a)
  Yields-pure a h w b e = subst P (ok-injective e) h

  pub Yields-raise : (e : Error) → Yields P (raise e)
  Yields-raise e w b h = cc

  pub Yields-if :
      (b : Bool) (m n : Exec A) → Yields P m → Yields P n → Yields P (if b then m else n)
  Yields-if true m n ym yn = ym
  Yields-if false m n ym yn = yn

  pub Yields-transaction : (m : Exec A) → Yields P m → Yields P (transaction m)
  Yields-transaction m ym w a h = ym w a (transaction-returns m a w h)

  pub Yields-bind :
      {B : Type 0} (m : Exec B) (f : B → Exec A) → ((b : B) → Yields P (f b)) → Yields P (m >>= f)
  Yields-bind m f yf w a h = let (b, _, rest) = bind-returns m f a w h in yf b (m w).1 a rest
