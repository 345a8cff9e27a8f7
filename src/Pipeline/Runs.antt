-- ===== src/Pipeline/Runs.antt =====
-- Runs of the pipeline, put together.
use conversion_gateway.Prelude.{◌≡◌}
use conversion_gateway.Exec.{Exec, continue, ◌>>=◌, World, Result, ok, err}
use conversion_gateway.Normalise.Libs.{Libs}
use conversion_gateway.Pipeline.Steps.{Step, Reach}

module _ (libs : Libs) where
  pub Reach-trans : {u v w : World} → Reach libs u v → Reach libs v w → Reach libs u w
  Reach-trans r Reach.here = r
  Reach-trans r (Reach.next s t) = Reach.next (Reach-trans r s) t

  pub once : {u v : World} → Step libs u v → Reach libs u v
  once s = Reach.next Reach.here s

  pub quietly : (u v : World) → v.db ≡ u.db → Reach libs u v
  quietly u v e = once (Step.elsewhere e)

  -- The rest of an action, after what it did first.
  pub Reach-bind :
      {A B : Type 0} (m : Exec A) (f : A → Exec B) (w : World)
      → Reach libs w (m w).1
      → ((a : A) (v : World) → Reach libs v (f a v).1)
      → Reach libs w ((m >>= f) w).1
  Reach-bind {A} {B} m f w first rest = continued (m w) first
    where
      continued : (r : Result A × World) → Reach libs w r.1 → Reach libs w (continue f r).1
      continued (ok a, v) first' = Reach-trans first' (rest a v)
      continued (err e, v) first' = first'
