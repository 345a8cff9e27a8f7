-- ===== src/Ledger/Rounds.antt =====
-- One round of the loop in `claim_for_upload` (src/gateway/ledger.py): what it does to the rows.
use conversion_gateway.Prelude.{
  if◌then◌else◌, Bool-cases, Option-cases, ℕ, ◌+◌, String, ◌≡◌, refl, ap, ◌⊎◌, inl, inr, true,
  false, none, some, List, arith, ◌==◌, eq_iff,
}
use conversion_gateway.Models.Status.{
  status_eq, status_in, allowed_transitions, eq_of_status_eq, uploading,
}
use conversion_gateway.Models.Rows.{Event}
use conversion_gateway.Exec.{World, illegal_transition, key_error, Result, ok, err}
use conversion_gateway.Ledger.{find_event, save_event, count_attempt, claim_row}
use conversion_gateway.Ledger.Trail.{find_event-id, find_event-save, moved}
use conversion_gateway.Ledger.Transitions.{
  transition-allowed, transition-refused, find_event-save_self,
}

-- The row is UPLOADING since `now`.
abbrev pub Held : ℕ → Event → Type 0
Held now e = (e.status ≡ uploading) × (e.last_attempt_at ≡ some now)

-- The events table with the row of `id` replaced by `e`.
abbrev Replaces : String → Event → List Event → List Event → Type 0
Replaces id e before after =
    (other : String)
    → find_event other after ≡ (if id == other then some e else find_event other before)

-- What one round of the claim does: it holds the row, or raises and changes nothing.
abbrev ClaimRow : ℕ → String → World → Result (Unit {0}) × World → Type 0
ClaimRow now id w (r, w') =
    ((e : Event) × Held now e × Replaces id e w.db.events w'.db.events)
    ⊎ (¬ (r ≡ ok tt) × (w'.db.events ≡ w.db.events))

-- The row after the attempt is counted.
abbrev attempted : ℕ → Event → Event
attempted now e = record e { attempt_count = e.attempt_count + 1; last_attempt_at = some now }

saved-Replaces :
    (id : String) (e e' : Event) (es : List Event)
    → find_event id es ≡ some e
    → e'.event_id ≡ id
    → Replaces id e' es (save_event e' es)
saved-Replaces id e e' es found same other =
    ground (arith, find_event-save other e' es, eq_iff id other)

saved_twice-Replaces :
    (id : String) (e e' e'' : Event) (es : List Event)
    → find_event id es ≡ some e
    → e'.event_id ≡ id
    → e''.event_id ≡ id
    → Replaces id e'' es (save_event e'' (save_event e' es))
saved_twice-Replaces id e e' e'' es found same same' other = ground (
  arith,
  find_event-save other e'' (save_event e' es),
  find_event-save other e' es,
  eq_iff id other,
)

-- The three ways of a round: a stale row, a row that may move, and a row that may not.
claim_row-stale :
    (now : ℕ) (id : String) (e : Event) (w : World)
    → find_event id w.db.events ≡ some e
    → status_eq e.status uploading ≡ true
    → (claim_row now id w).1.db.events ≡ save_event (attempted now e) w.db.events
unfolding claim_row count_attempt
claim_row-stale now id e w found stale = rw (found, stale) (rw found refl)

claim_row-moving :
    (now : ℕ) (id : String) (e : Event) (w : World)
    → find_event id w.db.events ≡ some e
    → status_eq e.status uploading ≡ false
    → status_in uploading (allowed_transitions e.status) ≡ true
    → (claim_row now id w).1.db.events
      ≡ save_event
          (attempted now (moved e uploading none))
          (save_event (moved e uploading none) w.db.events)
unfolding claim_row count_attempt
claim_row-moving now id e w found moving fine =
    rw (found, moving)
      (rw (transition-allowed id uploading none now e w found fine)
        (rw (find_event-save_self id e (moved e uploading none) w.db.events found refl) refl))

claim_row-refused :
    (now : ℕ) (id : String) (e : Event) (w : World)
    → find_event id w.db.events ≡ some e
    → status_eq e.status uploading ≡ false
    → status_in uploading (allowed_transitions e.status) ≡ false
    → claim_row now id w ≡ (err (illegal_transition e.event_id e.status uploading), w)
unfolding claim_row
claim_row-refused now id e w found moving wrong =
    rw (found, moving) (rw (transition-refused id uploading none now e w found wrong) refl)

claim_row-missing :
    (now : ℕ) (id : String) (w : World)
    → find_event id w.db.events ≡ none
    → claim_row now id w ≡ (err key_error, w)
unfolding claim_row
claim_row-missing now id w missing = rw missing refl

claim_row-found :
    (now : ℕ) (id : String) (e : Event) (w : World)
    → find_event id w.db.events ≡ some e
    → ClaimRow now id w (claim_row now id w)
claim_row-found now id e w found =
    let own = find_event-id id w.db.events {e = e} found in
    elim (Bool-cases (status_eq e.status uploading)) [
      | inl stale ↦ inl (
        attempted now e,
        (eq_of_status_eq e.status uploading stale, refl),
        rw (claim_row-stale now id e w found stale)
            (saved-Replaces id e (attempted now e) w.db.events found own),
      )
      | inr moving ↦ elim (Bool-cases (status_in uploading (allowed_transitions e.status))) [
        | inl fine ↦
            let e' = moved e uploading none in
            inl (
              attempted now e',
              (refl, refl),
              rw (claim_row-moving now id e w found moving fine)
                  (saved_twice-Replaces id e e' (attempted now e') w.db.events found own own),
            )
        | inr wrong ↦
            let run = claim_row-refused now id e w found moving wrong in
            inr (rw run λ h. cc, ap (λ r. r.1.db.events) run)
      ]
    ]

pub claim_row-cases : (now : ℕ) (id : String) (w : World) → ClaimRow now id w (claim_row now id w)
claim_row-cases now id w = elim (Option-cases (find_event id w.db.events)) [
  | inr (e, found) ↦ claim_row-found now id e w found
  | inl missing ↦
      let run = claim_row-missing now id w missing in
      inr (rw run λ h. cc, ap (λ r. r.1.db.events) run)
]
