-- ===== src/Pipeline/History.antt =====
-- What the audit trail gives for every run of the pipeline.
use conversion_gateway.Prelude.{
  String, code, ◌≡◌, refl, sym, ap, ◌∙◌, subst, ◌⊎◌, inl, inr, Option, none, some, List, [], ◌∷◌,
  foldl-append, append-nil, ◌++◌, foldl, arith,
}
use conversion_gateway.Models.Status.{allowed_transitions, EventStatus, received, uploaded}
use conversion_gateway.Models.Rows.{Event, EventTransition}
use conversion_gateway.Exec.{Exec, transaction, World}
use conversion_gateway.Exec.Keeps.{Keeps, Keeps-transaction}
use conversion_gateway.Normalise.Libs.{Libs}
use conversion_gateway.Ledger.{find_event, list_transitions}
use conversion_gateway.Ledger.Trail.{advance, trail, current, IsAudited, at, broken}
use conversion_gateway.Ledger.Audit.{Audited}
use conversion_gateway.Dlq.{replay}
use conversion_gateway.Upload.Uploader.{claim, on_retry, apply_result, dead_letter_all}
use conversion_gateway.Pipeline.Audit.{
  accept_event-IsAudited, record_rejection-IsAudited, replay-IsAudited, process_message-IsAudited,
  claim-IsAudited, on_retry-IsAudited, apply_result-IsAudited, dead_letter_all-IsAudited,
}
use conversion_gateway.Pipeline.Steps.{empty_world, Step, Reach}
use conversion_gateway.Processor.{process_message}
use conversion_gateway.Api.Ingest.{accept_event, record_rejection}

module _ (past : List EventTransition) where
  same_db : (w w' : World) → w'.db ≡ w.db → Audited past w → Audited past w'
  same_db w w' e h = subst (IsAudited past) (sym e) h

  committed :
      {A : Type 0} (m : Exec A) → Keeps (Audited past) m → Keeps (Audited past) (transaction m)
  committed m = Keeps-transaction (IsAudited past) m

  moved_to :
      {w' : World} {A : Type 0} (m : Exec A) (w : World)
      → Keeps (Audited past) m
      → w' ≡ (m w).1
      → Audited past w
      → Audited past w'
  moved_to {w'} m w k e h = same_db (m w).1 w' (ap (λ v. v.db) e) (k w h)

  Step-IsAudited : (libs : Libs) {w w' : World} → Step libs w w' → Audited past w → Audited past w'
  Step-IsAudited libs {w} (Step.ingest event now correlation_id e) h =
      moved_to (accept_event event now correlation_id) w
        (accept_event-IsAudited past event now correlation_id) e h
  Step-IsAudited libs {w} (Step.reject source source_event_id reason now correlation_id e) h =
      moved_to (record_rejection source source_event_id reason now correlation_id) w
        (record_rejection-IsAudited past source source_event_id reason now correlation_id) e h
  Step-IsAudited libs {w} (Step.process message now e) h =
      moved_to (transaction (process_message libs message now)) w
        (committed (process_message libs message now)
          (process_message-IsAudited past libs message now))
        e h
  Step-IsAudited libs {w} (Step.claim_rows settings locked now limit e) h =
      moved_to (claim settings locked now limit) w (claim-IsAudited past settings locked now limit)
        e h
  Step-IsAudited libs {w} (Step.retry_batch batch clock reason attempt e) h =
      moved_to (on_retry batch clock reason attempt) w
        (on_retry-IsAudited past batch clock reason attempt) e h
  Step-IsAudited libs {w} (Step.apply now batch rows e) h =
      moved_to (apply_result now batch rows) w (apply_result-IsAudited past now batch rows) e h
  Step-IsAudited libs {w} (Step.bury batch failure_class reason code message now e) h =
      moved_to (dead_letter_all batch failure_class reason code message now) w
        (dead_letter_all-IsAudited past batch failure_class reason code message now) e h
  Step-IsAudited libs {w} (Step.replay_one publish id now quiet e) h =
      moved_to (transaction (replay publish id now)) w
        (committed (replay publish id now)
          (replay-IsAudited past publish id now (λ m v k. same_db v (publish m v).1 (quiet m v) k)))
        e h
  Step-IsAudited libs {w} {w'} (Step.elsewhere e) h = same_db w w' e h

  pub Reach-IsAudited :
      (libs : Libs) {w w' : World} → Reach libs w w' → Audited past w → Audited past w'
  Reach-IsAudited libs Reach.here h = h
  Reach-IsAudited libs (Reach.next r s) h = Step-IsAudited libs s (Reach-IsAudited libs r h)

pub empty_world-IsAudited : IsAudited [] empty_world.db
unfolding trail list_transitions find_event
empty_world-IsAudited = record { explained = λ id. refl; appended = ([], refl) }

-- In every world that the pipeline reaches from an empty database, the transitions recorded for an
-- event lead from its creation to exactly the status in its row, each one allowed or the re-claim of
-- a stale UPLOADING row; an id without a row has none.
pub audit_complete :
    (libs : Libs) {w : World} (id : String)
    → Reach libs empty_world w
    → trail (list_transitions id w.db.transitions) ≡ current (find_event id w.db.events)
audit_complete libs id r = (Reach-IsAudited [] libs r empty_world-IsAudited).explained id

list_transitions-append :
    (id : String) (ts us : List EventTransition)
    → list_transitions id (ts ++ us) ≡ list_transitions id ts ++ list_transitions id us
unfolding list_transitions
list_transitions-append id [] us = refl
list_transitions-append id (t ∷ ts) us = ground (arith, list_transitions-append id ts us)

broken_stays : (ts : List EventTransition) → foldl advance broken ts ≡ broken
broken_stays [] = refl
broken_stays (t ∷ ts) = broken_stays ts

-- No row is in order after a state that no transition leaves.
advance_terminal :
    (s : EventStatus) (t : EventTransition) → allowed_transitions s ≡ [] → advance (at s) t ≡ broken
advance_terminal received t h = cc
advance_terminal uploaded t h = ground arith
advance_terminal EventStatus.rejected t h = ground arith
advance_terminal _ t h = cc

terminal_or_broken :
    (s : EventStatus) (ts : List EventTransition)
    → allowed_transitions s ≡ []
    → (foldl advance (at s) ts ≡ at s) ⊎ (foldl advance (at s) ts ≡ broken)
terminal_or_broken s [] h = inl refl
terminal_or_broken s (t ∷ ts) h = inr (rw (advance_terminal s t h) (broken_stays ts))

holds_status :
    (o : Option Event) (s : EventStatus)
    → (current o ≡ at s) ⊎ (current o ≡ broken)
    → (e : Event) × (o ≡ some e) × (e.status ≡ s)
holds_status none s (inl h) = cc
holds_status none s (inr h) = cc
holds_status (some e) s (inl h) = (e, refl, cc)
holds_status (some e) s (inr h) = cc

trail_after :
    (id : String) (past later ts : List EventTransition) (s : EventStatus)
    → ts ≡ past ++ later
    → trail (list_transitions id past) ≡ at s
    → trail (list_transitions id ts) ≡ foldl advance (at s) (list_transitions id later)
unfolding trail
trail_after id past later ts s e h =
    rw (e, list_transitions-append id past later, foldl-append) (rw h refl)

-- From a world with a complete audit trail, whatever the pipeline does, the transitions table only
-- grows, and an event in a state that no transition leaves (UPLOADED or REJECTED) stays in it.
pub terminal_forever :
    (libs : Libs) {w w' : World} (id : String) (e : Event)
    → IsAudited [] w.db
    → Reach libs w w'
    → find_event id w.db.events ≡ some e
    → allowed_transitions e.status ≡ []
    → ((later : List EventTransition) × (w'.db.transitions ≡ w.db.transitions ++ later))
      × ((e' : Event) × (find_event id w'.db.events ≡ some e') × (e'.status ≡ e.status))
terminal_forever libs {w} {w'} id e h r found terminal =
    let past = w.db.transitions in
    let begun : IsAudited past w.db = record {
      explained = h.explained;
      appended = ([], sym (append-nil past));
    } in
    let after = Reach-IsAudited past libs r begun in
    let later = after.appended.0 in
    let run =
      trail_after id past later w'.db.transitions e.status after.appended.1
        (h.explained id ∙ ap current found) in
    (
      after.appended,
      holds_status (find_event id w'.db.events) e.status (
          rw (sym (after.explained id), run)
            (terminal_or_broken e.status (list_transitions id later) terminal)),
    )
