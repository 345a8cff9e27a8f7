-- ===== src/Seed/Landed.antt =====
-- What the answer of a demo run (src/gateway/seed.py) says of its events.
use conversion_gateway.Prelude.{All, String, ◌≡◌, refl, Bool, true, false, ◌&&◌, List, [], ◌∷◌}
use conversion_gateway.Exec.{Result, ok, err}
use conversion_gateway.Upload.Json.{◌>>?◌, Json}
use conversion_gateway.Seed.{Final, landed, report, Seeded}

module _ (str_of_json : Json → String) (final : Final) where
  abbrev Landed : Seeded → Type 0
  Landed s = landed str_of_json final s ≡ ok true

  both_good :
      (first others : Result Bool)
      → (first >>? λ good. others >>? λ all_good. ok (good && all_good)) ≡ ok true
      → (first ≡ ok true) × (others ≡ ok true)
  both_good (ok true) (ok true) h = (refl, refl)
  both_good (ok true) (ok false) h = cc
  both_good (ok false) (ok b) h = cc
  both_good (ok b) (err e) h = cc
  both_good (err e) others h = cc

  -- Where the report is good, every event has landed where it was to.
  report-All :
      (seeded : List Seeded) → report str_of_json final seeded ≡ ok true → All Landed seeded
  unfolding report
  report-All [] h = tt
  report-All (s ∷ rest) h =
      let (first, others) =
        both_good (landed str_of_json final s) (report str_of_json final rest) h in
      (first, report-All rest others)
