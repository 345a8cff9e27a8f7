-- ===== src/Ledger/Claims.antt =====
-- What `claim_for_upload` of src/gateway/ledger.py returns.
use conversion_gateway.Prelude.{
  Bool-cases, length, select, order_by, length-take-le, All, All-map, All-take, All-select,
  All-order_by, All-mapped, Has, Has-select, Has-order_by, IsOrdered, order_by-IsOrdered,
  select-IsOrdered, take-IsOrdered, take-first, ℕ, ◌≤◌, String, ◌≡◌, refl, ap, ◌∙◌, ◌⊎◌, inl, inr,
  Bool, true, false, ◌&&◌, ◌||◌, not, none, some, List, [], ◌∷◌, map, ◌==◌,
}
use conversion_gateway.Models.Status.{
  status_eq, status_in, allowed_transitions, EventStatus, processed, uploading, failed_retryable,
}
use conversion_gateway.Models.Rows.{Event}
use conversion_gateway.Exec.{pure, for_each, World, ok}
use conversion_gateway.Exec.Returns.{bind-runs}
use conversion_gateway.Ledger.{
  find_event, count_attempt, waited, is_eligible, claimable, claim_row, claim_for_upload,
}
use conversion_gateway.Ledger.Trail.{moved}
use conversion_gateway.Ledger.Transitions.{transition-allowed, find_event-save_self}
use conversion_gateway.Ledger.Rounds.{claim_row-cases}

-- The row may be claimed: it is UPLOADING or may become so.
abbrev Ready : Event → Type 0
Ready e = status_eq e.status uploading || status_in uploading (allowed_transitions e.status) ≡ true

abbrev ReadyAt : List Event → String → Type 0
ReadyAt es id = (e : Event) × (find_event id es ≡ some e) × Ready e

ready_state :
    (s : EventStatus) (a b : Bool)
    → (status_eq s processed || (status_eq s failed_retryable && a) || (status_eq s uploading && b))
      ≡ true
    → (status_eq s uploading || status_in uploading (allowed_transitions s)) ≡ true
ready_state processed a b h = refl
ready_state failed_retryable a b h = refl
ready_state uploading a b h = refl
ready_state _ a b h = cc

Ready-row :
    (now retry_after stale_after : ℕ) (e : Event)
    → is_eligible now retry_after stale_after e ≡ true
    → Ready e
Ready-row now retry_after stale_after e h =
    ready_state e.status (waited e.last_attempt_at retry_after now)
      (waited e.last_attempt_at stale_after now) h

second_of : (a b : Bool) → (a || b) ≡ true → a ≡ false → b ≡ true
second_of true b h k = cc
second_of false b h k = h

claim_row-ready :
    (now : ℕ) (id : String) (w : World) → ReadyAt w.db.events id → (claim_row now id w).0 ≡ ok tt
unfolding claim_row count_attempt
claim_row-ready now id w (e, found, ready) = elim (Bool-cases (status_eq e.status uploading)) [
  | inl stale ↦ rw (found, stale) (rw found refl)
  | inr moving ↦
      let fine =
        second_of (status_eq e.status uploading)
          (status_in uploading (allowed_transitions e.status)) ready moving in
      rw (found, moving)
        (rw (transition-allowed id uploading none now e w found fine)
          (rw (find_event-save_self id e (moved e uploading none) w.db.events found refl) refl))
]

Ready-kept :
    (now : ℕ) (id other : String) (w : World)
    → ReadyAt w.db.events id
    → ReadyAt (claim_row now other w).1.db.events id
Ready-kept now id other w (e, found, ready) = elim (claim_row-cases now other w) [
  | inl (e', (state, attempt), replaces) ↦ elim (Bool-cases (other == id)) [
    | inl same ↦ (e', replaces id ∙ rw same refl, rw state refl)
    | inr differs ↦ (e, replaces id ∙ rw differs found, ready)
  ]
  | inr (_, unchanged) ↦ (e, ap (find_event id) unchanged ∙ found, ready)
]

loop-returns :
    (now : ℕ) (ids : List String) (w : World)
    → All (ReadyAt w.db.events) ids
    → (for_each ids (claim_row now) w).0 ≡ ok tt
unfolding for_each
loop-returns now [] w ready = refl
loop-returns now (id ∷ ids) w (first, rest) =
    let after = (claim_row now id w).1 in
    ap (λ r. r.0)
      (bind-runs (claim_row now id) (λ _. for_each ids (claim_row now)) tt w
        (claim_row-ready now id w first))
    ∙ loop-returns now ids after (All-map ids (λ other h. Ready-kept now other id w h) rest)

-- The events table has one row for each id.
abbrev HasKeys : List Event → Type 0
HasKeys es = All (λ (e : Event). find_event e.event_id es ≡ some e) es

-- A row of the table that the claim may have, and that nobody else has locked.
abbrev pub Claimable : (String → Bool) → ℕ → ℕ → ℕ → List Event → Event → Type 0
Claimable locked now retry_after stale_after es e =
    (find_event e.event_id es ≡ some e)
    × (is_eligible now retry_after stale_after e ≡ true)
    × (not (locked e.event_id) ≡ true)

claimable-All :
    (locked : String → Bool) (now limit retry_after stale_after : ℕ) (es : List Event)
    → HasKeys es
    → All
        (Claimable locked now retry_after stale_after es)
        (claimable locked now limit retry_after stale_after es)
unfolding claimable
claimable-All locked now limit retry_after stale_after es keys =
    let eligible = select (λ e. is_eligible now retry_after stale_after e) es in
    let ordered = order_by (λ (e : Event). e.received_at) eligible in
    let fits = λ (e : Event). is_eligible now retry_after stale_after e ≡ true in
    let own = λ (e : Event). find_event e.event_id es ≡ some e in
    let free = select (λ (e : Event). not (locked e.event_id)) ordered in
    All-take (Claimable locked now retry_after stale_after es) limit free (
      All-map free (λ e ((own, fits), unlocked). (own, fits, unlocked))
        (All-select (λ e. own e × fits e) (λ (e : Event). not (locked e.event_id)) ordered
          (All-order_by (λ e. own e × fits e) (λ (e : Event). e.received_at) eligible
            (All-select own (λ e. is_eligible now retry_after stale_after e) es keys))))

length-claimable :
    (locked : String → Bool) (now limit retry_after stale_after : ℕ) (es : List Event)
    → length (claimable locked now limit retry_after stale_after es) ≤ limit
unfolding claimable
length-claimable locked now limit retry_after stale_after es = length-take-le limit _

-- The rows are the oldest ones: in the order of their arrival, and one that is left out, though it is
-- eligible and not locked, came no earlier than all of a full claim.
abbrev pub AreOldest : (String → Bool) → ℕ → ℕ → ℕ → ℕ → List Event → List Event → Type 0
AreOldest locked now limit retry_after stale_after es rows =
    IsOrdered (λ (e : Event). e.received_at) rows
    × ((e : Event)
        → Has es e
        → is_eligible now retry_after stale_after e ≡ true
        → not (locked e.event_id) ≡ true
        → Has rows e
          ⊎ ((length rows ≡ limit) × All (λ (r : Event). r.received_at ≤ e.received_at) rows))

claimable-AreOldest :
    (locked : String → Bool) (now limit retry_after stale_after : ℕ) (es : List Event)
    → AreOldest locked now limit retry_after stale_after es
        (claimable locked now limit retry_after stale_after es)
unfolding claimable
claimable-AreOldest locked now limit retry_after stale_after es =
    let arrival = λ (e : Event). e.received_at in
    let eligible = select (λ e. is_eligible now retry_after stale_after e) es in
    let free = select (λ (e : Event). not (locked e.event_id)) (order_by arrival eligible) in
    let in_order =
      select-IsOrdered arrival (λ (e : Event). not (locked e.event_id)) (order_by arrival eligible)
        (order_by-IsOrdered arrival eligible) in
    (
      take-IsOrdered arrival limit free in_order,
      λ e has fits unlocked. take-first arrival limit e free in_order (
          Has-select (λ (x : Event). not (locked x.event_id)) e (order_by arrival eligible) unlocked
            (Has-order_by arrival e eligible
              (Has-select (λ x. is_eligible now retry_after stale_after x) e es fits has))),
    )

-- On an events table with one row for each id, a claim never fails. It returns the ids of rows that
-- are eligible and not locked, as many as `limit` at most, oldest first; and a row that it leaves
-- out, though it is eligible and not locked, is no older than any that it takes, which are then
-- `limit`.
pub claim_for_upload-returns :
    (locked : String → Bool) (now limit retry_after stale_after : ℕ) (w : World)
    → HasKeys w.db.events
    → (rows : List Event) × ((claim_for_upload locked now limit retry_after stale_after w).0
        ≡ ok (map (λ (e : Event). e.event_id) rows))
      × All (Claimable locked now retry_after stale_after w.db.events) rows
      × (length rows ≤ limit)
      × AreOldest locked now limit retry_after stale_after w.db.events rows
unfolding claim_for_upload
claim_for_upload-returns locked now limit retry_after stale_after w keys =
    let rows = claimable locked now limit retry_after stale_after w.db.events in
    let ids = map (λ (e : Event). e.event_id) rows in
    let fits = claimable-All locked now limit retry_after stale_after w.db.events keys in
    let ready =
      All-map rows
        (λ e (own, eligible, _). (e, own, Ready-row now retry_after stale_after e eligible)) fits in
    let looped =
      loop-returns now ids w
        (All-mapped (ReadyAt w.db.events) (λ (e : Event). e.event_id) rows ready) in
    (
      rows,
      ap (λ r. r.0) (bind-runs (for_each ids (claim_row now)) (λ _. pure ids) tt w looped),
      fits,
      length-claimable locked now limit retry_after stale_after w.db.events,
      claimable-AreOldest locked now limit retry_after stale_after w.db.events,
    )
