-- ===== src/Upload/Uploader/Fates.antt =====
-- What `apply_result` of src/gateway/upload/uploader.py makes of the event of one row.
use conversion_gateway.Models.Status
use conversion_gateway.Prelude.{
  if◌then◌else◌, Bool-cases, ◌<>◌, ℕ, String, code, ◌≡◌, refl, sym, ap, ◌∙◌, ◌≢◌, inl, inr, Bool,
  true, false, ◌||◌, Option, none, some, List, [], ◌∷◌, append-nil, ◌++◌, arith, ◌==◌,
}
use conversion_gateway.Models.Status.{EventStatus, uploading, failed_retryable}
use conversion_gateway.Models.Rows.{Event, DeadLetter}
use conversion_gateway.Exec.{World, Result, ok}
use conversion_gateway.Ledger.{find_event}
use conversion_gateway.Ledger.Trail.{find_event-id, find_event-own, moved}
use conversion_gateway.Ledger.Transitions.{
  transition-allowed, find_event-save_self, find_event-save_ne,
}
use conversion_gateway.Dlq.Letters.{letter, dead_letter-writes}
use conversion_gateway.Upload.Classifier.{classify_row_error, is_transient, partial}
use conversion_gateway.Upload.Client.{RowResult}
use conversion_gateway.Upload.Uploader.Defs.{nothing_done, code_of, apply_row, Claimed, CycleReport}
use conversion_gateway.Models.Columns.{code_fits}

-- The state that a row leads to, the event's new reason, and what is added to the counts.
pub record Fate : Type 0 where
  pub status : EventStatus
  pub reason : Option String
  pub counted : CycleReport

-- The error code of a row that can resolve on its own.
abbrev too_recent : String → Bool
too_recent code = code == "TOO_RECENT_CONVERSION"

abbrev refused_fate : String → Bool → Fate
refused_fate code true = record {
  status = failed_retryable;
  reason = some ("retryable_row:" <> code);
  counted = record nothing_done { retry_later = 1 };
}
refused_fate code false = record {
  status = Status.dead_lettered;
  reason = some ("permanent_row:" <> code);
  counted = record nothing_done { dead_lettered = 1 };
}

-- A row that the platform took is uploaded; of the others, one whose code is TOO_RECENT_CONVERSION is
-- tried again, and any other is dead.
abbrev pub fate : RowResult → Fate
fate row =
    if row.ok
    then record {
      status = Status.uploaded;
      reason = none;
      counted = record nothing_done { uploaded = 1 };
    }
    else refused_fate (code_of row.error_code) (too_recent (code_of row.error_code))

-- The dead letters that the row adds.
abbrev letters : ℕ → Claimed → RowResult → Event → World → List DeadLetter
letters now claimed row e w =
    if row.ok || too_recent (code_of row.error_code)
    then []
    else letter e partial ("permanent_row:" <> code_of row.error_code)
        (some (code_of row.error_code)) row.message claimed.conversion now w
      ∷ []

-- The row's code fits the column that a dead letter keeps it in.
abbrev pub CodeFits : RowResult → Type 0
CodeFits row = code_fits (some (code_of row.error_code)) ≡ true

-- What an action on a row leaves.
abbrev LeavesRow : Event → Fate → List DeadLetter → World → Result CycleReport × World → Type 0
LeavesRow e f added w (r, w') =
    (r ≡ ok f.counted)
    × (find_event e.event_id w'.db.events ≡ some (moved e f.status f.reason))
    × (w'.db.dead_letters ≡ w.db.dead_letters ++ added)
    × ((id : String) → e.event_id ≢ id → find_event id w'.db.events ≡ find_event id w.db.events)

retryable_code : (code : String) → is_transient (classify_row_error code) ≡ too_recent code
unfolding classify_row_error
retryable_code code = ground arith

apply_own :
    (now : ℕ) (claimed : Claimed) (row : RowResult) (e : Event) (w : World)
    → find_event claimed.event_id w.db.events ≡ some e
    → find_event e.event_id w.db.events ≡ some e
    → e.status ≡ uploading
    → CodeFits row
    → LeavesRow e (fate row) (letters now claimed row e w) w (apply_row now claimed row w)
unfolding apply_row
apply_own now claimed row e w found own claimed_now fits = elim (Bool-cases row.ok) [
  | inl fine ↦
      rw (found, fine)
        (rw (transition-allowed e.event_id Status.uploaded none now e w own (rw claimed_now refl)) (
          refl,
          find_event-save_self e.event_id e (moved e Status.uploaded none) w.db.events own refl,
          sym (append-nil w.db.dead_letters),
          λ id other. find_event-save_ne id (moved e Status.uploaded none) w.db.events other,
        ))
  | inr refused ↦ elim (Bool-cases (too_recent (code_of row.error_code))) [
    | inl again ↦
        let reason = some ("retryable_row:" <> code_of row.error_code) in
        rw (found, refused, retryable_code (code_of row.error_code), again)
          (rw
            (transition-allowed e.event_id failed_retryable reason now e w own
              (rw claimed_now refl))
            (
              refl,
              find_event-save_self e.event_id e (moved e failed_retryable reason) w.db.events own
                  refl,
              sym (append-nil w.db.dead_letters),
              λ id other. find_event-save_ne id (moved e failed_retryable reason) w.db.events other,
            ))
    | inr final ↦
        let reason = "permanent_row:" <> code_of row.error_code in
        rw (found, refused, retryable_code (code_of row.error_code), final)
          (rw
            (dead_letter-writes partial reason (some (code_of row.error_code)) row.message
              claimed.conversion now e w own (rw claimed_now refl) fits)
            (
              refl,
              find_event-save_self e.event_id e (moved e Status.dead_lettered (some reason))
                  w.db.events own refl,
              refl,
              λ id other.
                  find_event-save_ne id (moved e Status.dead_lettered (some reason)) w.db.events
                    other,
            ))
  ]
]

-- Applying a row, with a code that fits its column, to the UPLOADING event of a claim never fails:
-- the event is left in the row's fate, the counts are the fate's, a dead letter is added exactly
-- where the row is neither taken nor too recent, and no other event changes.
pub apply_row-fate :
    (now : ℕ) (claimed : Claimed) (row : RowResult) (e : Event) (w : World)
    → find_event claimed.event_id w.db.events ≡ some e
    → e.status ≡ uploading
    → CodeFits row
    → ((apply_row now claimed row w).0 ≡ ok (fate row).counted)
      × (find_event claimed.event_id (apply_row now claimed row w).1.db.events
          ≡ some (moved e (fate row).status (fate row).reason))
      × ((apply_row now claimed row w).1.db.dead_letters
          ≡ w.db.dead_letters ++ letters now claimed row e w)
      × ((id : String)
          → claimed.event_id ≢ id
          → find_event id (apply_row now claimed row w).1.db.events ≡ find_event id w.db.events)
apply_row-fate now claimed row e w found claimed_now fits =
    let own = find_event-own claimed.event_id w.db.events {e = e} found in
    let (r, left_row, added, others) = apply_own now claimed row e w found own claimed_now fits in
    let same = find_event-id claimed.event_id w.db.events {e = e} found in
    (
      r,
      ap (λ id. find_event id (apply_row now claimed row w).1.db.events) (sym same) ∙ left_row,
      added,
      λ id other. others id λ is_it. other (sym same ∙ is_it),
    )
