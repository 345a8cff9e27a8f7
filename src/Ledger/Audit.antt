-- ===== src/Ledger/Audit.antt =====
-- The audit trail under the operations of src/gateway/ledger.py.
use conversion_gateway.Prelude.{
  Bool-cases, Option-cases, ℕ, ◌+◌, String, ◌≡◌, refl, inl, inr, Bool, Option, none, some, List,
  map, arith, eq_iff,
}
use conversion_gateway.Models.Status.{
  status_eq, status_in, allowed_transitions, status_eq_refl, EventStatus, received, validated,
  rejected, queued, processed, uploading, failed_retryable,
}
use conversion_gateway.Models.Rows.{HashedIdentifiers, Event, EventTransition}
use conversion_gateway.Models.Canonical.{CanonicalLeadEvent}
use conversion_gateway.Exec.{pure, ◌>>◌, for_each, World}
use conversion_gateway.Exec.Keeps.{Keeps, Keeps-bind, Keeps-for_each}
use conversion_gateway.Ledger.{
  find_event, list_transitions, save, add_transition, transition, creation, validated_row,
  rejected_row, record_validated, record_rejected, record_processed, count_attempt,
  record_retry_attempt, claimable, claim_row, claim_for_upload,
}
use conversion_gateway.Ledger.Trail.{
  advance, append-later, find_event-own, find_event-save, find_event-insert, list_transitions-add,
  trail-add, moved, step_row, reclaimed, with_created, in_order-reclaim, found_inserted, IsAudited,
  at,
}
use conversion_gateway.Models.Columns.{event_fits}

module _ (past : List EventTransition) where
  abbrev pub Audited : World → Type 0
  Audited w = IsAudited past w.db

  -- A write that leaves the status alone needs no transition.
  pub save-IsAudited :
      (e old : Event) (w : World)
      → find_event e.event_id w.db.events ≡ some old
      → e.status ≡ old.status
      → Audited w
      → Audited (save e w).1
  unfolding save
  save-IsAudited e old w found same h = record {
    explained = λ id.
        ground (arith, h.explained id, find_event-save id e w.db.events, eq_iff e.event_id id);
    appended = h.appended;
  }

  -- A write with a transition row that is in order.
  move-IsAudited :
      (e old : Event) (t : EventTransition) (w : World)
      → find_event e.event_id w.db.events ≡ some old
      → t.event_id ≡ e.event_id
      → advance (at old.status) t ≡ at e.status
      → Audited w
      → Audited ((save e >> add_transition t) w).1
  unfolding save add_transition
  move-IsAudited e old t w found own step h = record {
    explained = λ id. ground (
      arith,
      h.explained id,
      find_event-save id e w.db.events,
      list_transitions-add id w.db.transitions t,
      trail-add (list_transitions id w.db.transitions) t,
      eq_iff e.event_id id,
    );
    appended = append-later past w.db.transitions t h.appended;
  }

  pub transition-IsAudited :
      (id : String) (to : EventStatus) (reason : Option String) (now : ℕ)
      → Keeps Audited (transition id to reason now)
  unfolding transition
  transition-IsAudited id to reason now w h = elim (Option-cases (find_event id w.db.events)) [
    | inl missing ↦ rw missing h
    | inr (e, found) ↦ rw found (elim (Bool-cases (status_in to (allowed_transitions e.status))) [
      | inl fine ↦ rw fine (
          move-IsAudited (moved e to reason) e (step_row e to reason now) w
            (find_event-own id w.db.events {e = e} found) refl
            (rw (status_eq_refl e.status, fine) refl) h)
      | inr refused ↦ rw refused h
    ])
  ]

  count_attempt-IsAudited : (id : String) (now : ℕ) → Keeps Audited (count_attempt id now)
  unfolding count_attempt
  count_attempt-IsAudited id now w h = elim (Option-cases (find_event id w.db.events)) [
    | inl missing ↦ rw missing h
    | inr (e, found) ↦ rw found (
        save-IsAudited
          (record e { attempt_count = e.attempt_count + 1; last_attempt_at = some now }) e w
          (find_event-own id w.db.events {e = e} found) refl h)
  ]

  -- An attribute that is written before the change of state is saved with it.
  pub record_processed-IsAudited :
      (id : String) (hashed : HashedIdentifiers) (now : ℕ)
      → Keeps Audited (record_processed id hashed now)
  unfolding record_processed
  record_processed-IsAudited id hashed now w h = elim (Option-cases (find_event id w.db.events)) [
    | inl missing ↦ rw missing h
    | inr (e, found) ↦ rw found (
        transition-IsAudited id processed none now
          (save (record e { hashed_identifiers = some hashed }) w).1
          (save-IsAudited (record e { hashed_identifiers = some hashed }) e w
            (find_event-own id w.db.events {e = e} found) refl h))
  ]

  pub record_retry_attempt-IsAudited :
      (id reason : String) (now : ℕ) → Keeps Audited (record_retry_attempt id reason now)
  unfolding record_retry_attempt
  record_retry_attempt-IsAudited id reason now =
      Keeps-bind Audited (transition id failed_retryable (some reason) now) _
        (transition-IsAudited id failed_retryable (some reason) now)
        λ _.
          Keeps-bind Audited (transition id uploading none now) _
            (transition-IsAudited id uploading none now) λ _. count_attempt-IsAudited id now

  -- A transition row that records no change of state.
  remark-IsAudited :
      (e : Event) (t : EventTransition) (w : World)
      → find_event e.event_id w.db.events ≡ some e
      → t.event_id ≡ e.event_id
      → advance (at e.status) t ≡ at e.status
      → Audited w
      → Audited (add_transition t w).1
  unfolding add_transition
  remark-IsAudited e t w found own step h = record {
    explained = λ id. ground (
      arith,
      h.explained id,
      list_transitions-add id w.db.transitions t,
      trail-add (list_transitions id w.db.transitions) t,
      eq_iff e.event_id id,
    );
    appended = append-later past w.db.transitions t h.appended;
  }

  claim_row-IsAudited : (now : ℕ) (id : String) → Keeps Audited (claim_row now id)
  unfolding claim_row
  claim_row-IsAudited now id w h = elim (Option-cases (find_event id w.db.events)) [
    | inl missing ↦ rw missing h
    | inr (e, found) ↦ rw found (elim (Bool-cases (status_eq e.status uploading)) [
      | inl stale ↦ rw stale (
          count_attempt-IsAudited id now (add_transition (reclaimed e now) w).1 (
            remark-IsAudited e (reclaimed e now) w (find_event-own id w.db.events {e = e} found)
              refl (rw (in_order-reclaim e.status stale) refl) h))
      | inr fresh ↦ rw fresh (
          Keeps-bind Audited (transition id uploading none now) (λ _. count_attempt id now)
            (transition-IsAudited id uploading none now) (λ _. count_attempt-IsAudited id now) w h)
    ])
  ]

  pub claim_for_upload-IsAudited :
      (locked : String → Bool) (now limit retry_after stale_after : ℕ)
      → Keeps Audited (claim_for_upload locked now limit retry_after stale_after)
  unfolding claim_for_upload
  claim_for_upload-IsAudited locked now limit retry_after stale_after w =
      Keeps-bind Audited (for_each claimed (claim_row now)) (λ _. pure claimed)
        (Keeps-for_each Audited (claim_row now) claimed (claim_row-IsAudited now)) (λ _ w' h. h) w
    where
      claimed : List String
      claimed =
          map (λ (e : Event). e.event_id)
            (claimable locked now limit retry_after stale_after w.db.events)

  -- A new row with the transition row that marks its creation.
  created-IsAudited :
      (row : Event) (now : ℕ) (w : World)
      → find_event row.event_id w.db.events ≡ none
      → row.status ≡ received
      → Audited w
      → Audited (with_created row now w)
  created-IsAudited row now w new begun h = record {
    explained = λ id. ground (
      arith,
      h.explained id,
      find_event-insert id row w.db.events,
      list_transitions-add id w.db.transitions (creation row.event_id now),
      trail-add (list_transitions id w.db.transitions) (creation row.event_id now),
      eq_iff row.event_id id,
    );
    appended = append-later past w.db.transitions (creation row.event_id now) h.appended;
  }

  pub record_validated-IsAudited :
      (event : CanonicalLeadEvent) (now : ℕ) → Keeps Audited (record_validated event now)
  unfolding record_validated
  record_validated-IsAudited event now w h =
      elim (Bool-cases (event_fits (validated_row event now))) [
        | inr wide ↦ rw wide h
        | inl fits ↦ elim (Option-cases (find_event event.event_id w.db.events)) [
          | inr (old, found) ↦ rw (fits, found) h
          | inl new ↦
              rw (fits, new, found_inserted (validated_row event now) w.db.events new)
                (Keeps-bind Audited (transition event.event_id validated none now) _
                  (transition-IsAudited event.event_id validated none now)
                  (λ _.
                    Keeps-bind Audited (transition event.event_id queued none now) _
                      (transition-IsAudited event.event_id queued none now) (λ _ w' h'. h'))
                  (with_created (validated_row event now) now w)
                  (created-IsAudited (validated_row event now) now w new refl h))
        ]
      ]

  pub record_rejected-IsAudited :
      (id source source_id reason : String) (now : ℕ)
      → Keeps Audited (record_rejected id source source_id reason now)
  unfolding record_rejected
  record_rejected-IsAudited id source source_id reason now w h =
      let row = rejected_row id source source_id now in
      elim (Bool-cases (event_fits row)) [
        | inr wide ↦ rw wide h
        | inl fits ↦ elim (Option-cases (find_event id w.db.events)) [
          | inr (old, found) ↦ rw (fits, found) h
          | inl new ↦
              rw (fits, new, found_inserted row w.db.events new)
                (Keeps-bind Audited (transition id rejected (some reason) now) _
                  (transition-IsAudited id rejected (some reason) now) (λ _ w' h'. h')
                  (with_created row now w) (created-IsAudited row now w new refl h))
        ]
      ]
