-- ===== src/Examples/Ledgers.antt =====
-- The ledger's theorems at work: one lead, its rejection, claims and transitions.
use conversion_gateway.Prelude.{
  length, All, ◌≤◌, ◌≡◌, refl, ◌⊎◌, true, false, Option, some, List, [], ◌∷◌, ◌++◌, map,
}
use conversion_gateway.Models.Status.{rejected, processed, hubspot}
use conversion_gateway.Models.Rows.{Event, EventTransition}
use conversion_gateway.Exec.{World, ok}
use conversion_gateway.Consent.{
  evaluate_consent, ConsentSignals, ConsentStatus, granted, denied, SuppressionReason,
}
use conversion_gateway.Consent.FailClosed.{
  AdUserDataBlocks, AdPersonalizationBlocks, evaluate_consent-decides,
}
use conversion_gateway.Ledger.{find_event, list_transitions, rejected_row, claim_for_upload}
use conversion_gateway.Ledger.Trail.{trail, current}
use conversion_gateway.Ledger.Claims.{Claimable, AreOldest, claim_for_upload-returns}
use conversion_gateway.Ledger.Exclusive.{Exclusive, claim_for_upload-Exclusive}
use conversion_gateway.Pipeline.{empty_world, Step, Reach}
use conversion_gateway.Pipeline.History.{
  Reach-IsAudited, empty_world-IsAudited, audit_complete, terminal_forever,
}
use conversion_gateway.Examples.Data.{plain_libs, both_given, lead, world_in}
use conversion_gateway.Api.Ingest.{accept_event, record_rejection}

-- One rejected event.
abbrev rejected_world : World
rejected_world = (record_rejection hubspot "h-2" "missing:email" 5 "c1" empty_world).1

rejecting : Reach plain_libs empty_world rejected_world
rejecting = Reach.next Reach.here (Step.reject hubspot "h-2" "missing:email" 5 "c1" refl)

audit_complete_example :
    trail (list_transitions "hubspot:h-2" rejected_world.db.transitions)
    ≡ current (find_event "hubspot:h-2" rejected_world.db.events)
audit_complete_example = audit_complete plain_libs "hubspot:h-2" rejecting

abbrev rejected_event : Event
rejected_event = record (rejected_row "hubspot:h-2" "hubspot" "h-2" 5) {
  status = rejected;
  status_reason = some "missing:email";
  correlation_id = some "c1";
}

rejected_found : find_event "hubspot:h-2" rejected_world.db.events ≡ some rejected_event
unfolding record_rejection find_event
rejected_found = refl

-- Another lead that comes in later.
abbrev later_world : World
later_world = (accept_event lead 9 "c2" rejected_world).1

terminal_forever_example :
    ((later : List EventTransition) × (later_world.db.transitions
        ≡ rejected_world.db.transitions ++ later))
    × ((e : Event) × (find_event "hubspot:h-2" later_world.db.events ≡ some e)
        × (e.status ≡ rejected))
terminal_forever_example =
    terminal_forever plain_libs "hubspot:h-2" rejected_event
      (Reach-IsAudited [] plain_libs rejecting empty_world-IsAudited)
      (Reach.next Reach.here (Step.ingest lead 9 "c2" refl)) rejected_found refl

claim_for_upload-returns_example :
    (rows : List Event) × ((claim_for_upload (λ id. false) 50 2 10 20 (world_in processed)).0
      ≡ ok (map (λ (e : Event). e.event_id) rows))
    × All (Claimable (λ id. false) 50 10 20 (world_in processed).db.events) rows
    × (length rows ≤ 2)
    × AreOldest (λ id. false) 50 2 10 20 (world_in processed).db.events rows
unfolding find_event
claim_for_upload-returns_example =
    claim_for_upload-returns (λ id. false) 50 2 10 20 (world_in processed) (refl, tt)

claims_one : (claim_for_upload (λ id. false) 50 2 10 20 (world_in processed)).0 ≡ ok ("e1" ∷ [])
unfolding claim_for_upload
claims_one = refl

claim_for_upload-Exclusive_example :
    All
      (Exclusive 50 20 (claim_for_upload (λ id. false) 50 2 10 20 (world_in processed)).1.db.events)
      ("e1" ∷ [])
claim_for_upload-Exclusive_example =
    claim_for_upload-Exclusive (λ id. false) 50 2 10 20 (world_in processed) ("e1" ∷ []) claims_one

abbrev one_denied : ConsentSignals
one_denied = record both_given { ad_personalization = some denied }

evaluate_consent-decides_example :
    (((evaluate_consent one_denied).permitted ≡ true)
      × (Path (Option ConsentStatus) (some granted) (some granted))
      × (Path (Option ConsentStatus) (some denied) (some granted)))
    ⊎ (((evaluate_consent one_denied).permitted ≡ false)
        × ((reason : SuppressionReason) × ((evaluate_consent one_denied).reason ≡ some reason)
            × (AdUserDataBlocks (some granted) reason
                ⊎ ((Path (Option ConsentStatus) (some granted) (some granted))
                    × AdPersonalizationBlocks (some denied) reason))))
evaluate_consent-decides_example = evaluate_consent-decides one_denied
