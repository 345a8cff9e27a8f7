-- ===== src/Ledger/Exclusive.antt =====
-- The rows that `claim_for_upload` of src/gateway/ledger.py leaves behind.
use conversion_gateway.Prelude.{
  Bool-cases, All, All-map, ℕ, ◌+◌, ◌<◌, String, ◌≡◌, refl, sym, ap, ◌∙◌, subst, inl, inr, Bool,
  false, some, List, [], ◌∷◌, map, arith, ◌==◌, eq_refl,
}
use conversion_gateway.Models.Status.{uploading}
use conversion_gateway.Models.Rows.{Event}
use conversion_gateway.Exec.{pure, for_each, World, Result, ok}
use conversion_gateway.Exec.Keeps.{Keeps, Keeps-for_each}
use conversion_gateway.Exec.Returns.{bind-returns, bind-runs, ok-injective}
use conversion_gateway.Ledger.{find_event, is_eligible, claimable, claim_row, claim_for_upload}
use conversion_gateway.Ledger.Rounds.{Held, claim_row-cases}

abbrev HeldAt : ℕ → List Event → String → Type 0
HeldAt now es id = (e : Event) × (find_event id es ≡ some e) × Held now e

claim_row-keeps :
    (now : ℕ) (id other : String) (w : World)
    → HeldAt now w.db.events id
    → HeldAt now (claim_row now other w).1.db.events id
claim_row-keeps now id other w (e, found, held) = elim (claim_row-cases now other w) [
  | inl (e', held', replaces) ↦ elim (Bool-cases (other == id)) [
    | inl same ↦ (e', replaces id ∙ rw same refl, held')
    | inr differs ↦ (e, replaces id ∙ rw differs found, held)
  ]
  | inr (_, unchanged) ↦ (e, ap (find_event id) unchanged ∙ found, held)
]

claim_row-holds :
    (now : ℕ) (id : String) (w : World)
    → (claim_row now id w).0 ≡ ok tt
    → HeldAt now (claim_row now id w).1.db.events id
claim_row-holds now id w h = elim (claim_row-cases now id w) [
  | inl (e, held, replaces) ↦ (e, replaces id ∙ rw (eq_refl id) refl, held)
  | inr (fails, _) ↦ elim (fails h) [ ]
]

Keeps-loop :
    (now : ℕ) (id : String) (ids : List String)
    → Keeps (λ w. HeldAt now w.db.events id) (for_each ids (claim_row now))
Keeps-loop now id ids =
    Keeps-for_each (λ w. HeldAt now w.db.events id) (claim_row now) ids
      λ other w h. claim_row-keeps now id other w h

loop-holds :
    (now : ℕ) (ids : List String) (w : World)
    → (for_each ids (claim_row now) w).0 ≡ ok tt
    → All (HeldAt now (for_each ids (claim_row now) w).1.db.events) ids
unfolding for_each
loop-holds now [] w h = tt
loop-holds now (id ∷ ids) w h =
    let (u, first, rest) =
      bind-returns (claim_row now id) (λ _. for_each ids (claim_row now)) tt w h in
    let after = (claim_row now id w).1 in
    subst (λ (r : Result (Unit {0}) × World). All (HeldAt now r.1.db.events) (id ∷ ids))
      (sym (bind-runs (claim_row now id) (λ _. for_each ids (claim_row now)) u w first))
      (Keeps-loop now id ids after (claim_row-holds now id w first), loop-holds now ids after rest)

-- A row that is held is not up for a claim until it is stale.
Held-ineligible :
    (now later delay stale_after : ℕ) (e : Event)
    → Held now e
    → later < now + stale_after
    → is_eligible later delay stale_after e ≡ false
Held-ineligible now later delay stale_after e (state, attempt) soon =
    rw (state, attempt) (ground arith)

abbrev pub Exclusive : ℕ → ℕ → List Event → String → Type 0
Exclusive now stale_after es id =
    (e : Event) × (find_event id es ≡ some e)
    × (e.status ≡ uploading)
    × (e.last_attempt_at ≡ some now)
    × ((later delay : ℕ)
        → later < now + stale_after
        → is_eligible later delay stale_after e ≡ false)

-- Every event that a claim at `now` returns is then on the ledger, UPLOADING since `now`, and no
-- claim is eligible for it before `stale_after` has passed, whatever its retry delay.
pub claim_for_upload-Exclusive :
    (locked : String → Bool) (now limit retry_after stale_after : ℕ) (w : World) (ids : List String)
    → (claim_for_upload locked now limit retry_after stale_after w).0 ≡ ok ids
    → All
        (Exclusive now stale_after
          (claim_for_upload locked now limit retry_after stale_after w).1.db.events)
        ids
unfolding claim_for_upload
claim_for_upload-Exclusive locked now limit retry_after stale_after w ids h =
    let claimed =
      map (λ (e : Event). e.event_id)
        (claimable locked now limit retry_after stale_after w.db.events) in
    let loop = for_each claimed (claim_row now) in
    let (u, looped, last) = bind-returns loop (λ _. pure claimed) ids w h in
    let after = (loop w).1 in
    rw (bind-runs loop (λ _. pure claimed) u w looped) (
      subst (All (Exclusive now stale_after after.db.events)) (ok-injective last) (
        All-map claimed
          (λ id (e, found, held). (
            e,
            found,
            held.0,
            held.1,
            λ later delay soon. Held-ineligible now later delay stale_after e held soon,
          ))
          (loop-holds now claimed w looped)))
