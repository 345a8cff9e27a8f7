-- ===== src/Pipeline/Audit/Ingesting.antt =====
-- The audit trail under the transactions of the ingest route.
use conversion_gateway.Prelude.{Option-cases, ℕ, String, refl, inl, inr, Option, none, some, List}
use conversion_gateway.Models.Status.{source_value, Source}
use conversion_gateway.Models.Rows.{EventTransition}
use conversion_gateway.Models.Canonical.{CanonicalLeadEvent}
use conversion_gateway.Exec.{◌>>=◌}
use conversion_gateway.Exec.Keeps.{Keeps, Keeps-bind, Keeps-transaction}
use conversion_gateway.Ledger.{find_event, record_validated, record_rejected}
use conversion_gateway.Ledger.Trail.{find_event-own, IsAudited}
use conversion_gateway.Ledger.Audit.{
  Audited, save-IsAudited, record_validated-IsAudited, record_rejected-IsAudited,
}
use conversion_gateway.Api.Ingest.{
  answer_for, accept_event, make_event_id, set_correlation, record_rejection,
}

module _ (past : List EventTransition) where
  answer_for-IsAudited :
      (event : CanonicalLeadEvent) (correlation_id : String) (recorded : Option String)
      → Keeps (Audited past) (answer_for event correlation_id recorded)
  unfolding answer_for
  answer_for-IsAudited event correlation_id none = λ w h.
      elim (Option-cases (find_event event.event_id w.db.events)) [
        | inl missing ↦ rw missing h
        | inr (e, found) ↦ rw found h
      ]
  answer_for-IsAudited event correlation_id (some id) = λ w h.
      elim (Option-cases (find_event id w.db.events)) [
        | inl missing ↦ rw missing h
        | inr (e, found) ↦ rw found h
      ]

  pub accept_event-IsAudited :
      (event : CanonicalLeadEvent) (now : ℕ) (correlation_id : String)
      → Keeps (Audited past) (accept_event event now correlation_id)
  unfolding accept_event
  accept_event-IsAudited event now correlation_id =
      Keeps-transaction (IsAudited past)
        (record_validated event now >>= answer_for event correlation_id)
        (Keeps-bind (Audited past) (record_validated event now) (answer_for event correlation_id)
          (record_validated-IsAudited past event now) (answer_for-IsAudited event correlation_id))

  set_correlation-IsAudited :
      (correlation_id : String) (recorded : Option String)
      → Keeps (Audited past) (set_correlation correlation_id recorded)
  unfolding set_correlation
  set_correlation-IsAudited correlation_id none = λ w h. h
  set_correlation-IsAudited correlation_id (some id) = λ w h.
      elim (Option-cases (find_event id w.db.events)) [
        | inl missing ↦ rw missing h
        | inr (e, found) ↦ rw found (
            save-IsAudited past (record e { correlation_id = some correlation_id }) e w
              (find_event-own id w.db.events {e = e} found) refl h)
      ]

  pub record_rejection-IsAudited :
      (source : Source) (source_event_id reason : String) (now : ℕ) (correlation_id : String)
      → Keeps (Audited past) (record_rejection source source_event_id reason now correlation_id)
  unfolding record_rejection
  record_rejection-IsAudited source source_event_id reason now correlation_id =
      let id = make_event_id source source_event_id in
      let recorded = record_rejected id (source_value source) source_event_id reason now in
      Keeps-transaction (IsAudited past) (recorded >>= set_correlation correlation_id) (
        Keeps-bind (Audited past) recorded (set_correlation correlation_id)
          (record_rejected-IsAudited past id (source_value source) source_event_id reason now)
          (set_correlation-IsAudited correlation_id))
