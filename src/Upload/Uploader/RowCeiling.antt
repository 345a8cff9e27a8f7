-- ===== src/Upload/Uploader/RowCeiling.antt =====
-- What `claim` of src/gateway/upload/uploader.py does with one row, by its attempts.
use conversion_gateway.Prelude.{
  ltb, Bool-cases, ◌<>◌, str_of, ℕ, ◌-◌, ◌≤◌, ◌<◌, String, ◌≡◌, refl, ap, ◌∙◌, ◌⊎◌, inl, inr, true,
  false, some, List, [], ◌∷◌, ◌++◌, arith,
}
use conversion_gateway.Models.Status.{uploading, dead_lettered}
use conversion_gateway.Models.Payload.{CivilTime, Conversion}
use conversion_gateway.Models.Rows.{Event}
use conversion_gateway.Exec.{World, Result, ok}
use conversion_gateway.Ledger.{find_event}
use conversion_gateway.Ledger.Trail.{moved}
use conversion_gateway.Ledger.Transitions.{stepped, find_event-save_self}
use conversion_gateway.Dlq.Letters.{letter, with_letter, dead_letter-writes}
use conversion_gateway.Upload.Classifier.{poison}
use conversion_gateway.Upload.Conversion.{conversion_row, build_conversion}
use conversion_gateway.Upload.Uploader.Defs.{claim_one, Claimed, Settings}
use conversion_gateway.Models.Columns.{code_fits}

abbrev ceiling_reason : Event → String
ceiling_reason e = "poison:row_attempt_ceiling:" <> str_of (e.attempt_count - 1)

-- What the claim of a row returns and leaves, by its attempts, this one included.
abbrev pub ClaimsRow :
    Settings → ℕ → Event → Conversion → World → Result (List Claimed) × World → Type 0
ClaimsRow settings now e conversion w (r, w') =
    ((e.attempt_count ≤ settings.max_row_attempts)
      × (r
          ≡ ok (
              record {
                event_id = e.event_id;
                attempt_count = e.attempt_count;
                conversion = conversion;
              }
              ∷ []))
      × (w' ≡ w))
    ⊎ ((settings.max_row_attempts < e.attempt_count)
        × (r ≡ ok [])
        × (find_event e.event_id w'.db.events
            ≡ some (moved e dead_lettered (some (ceiling_reason e))))
        × (w'.db.dead_letters
            ≡ w.db.dead_letters
              ++ letter e poison (ceiling_reason e) (some "row_attempt_ceiling") e.status_reason
                  conversion now w
                ∷ []))

module _ (settings : Settings) (now : ℕ) (e : Event) (action : String) (t : CivilTime) (w : World)
    (found : find_event e.event_id w.db.events ≡ some e) (state : e.status ≡ uploading)
    (has_action : e.conversion_action ≡ some action) (has_time : e.conversion_time ≡ some t) where
  abbrev own_conversion : Conversion
  own_conversion = conversion_row e settings.customer_id action t

  built : build_conversion e settings.customer_id w ≡ (ok own_conversion, w)
  unfolding build_conversion
  built = rw (has_action, has_time) refl

  under_ceiling :
      ltb settings.max_row_attempts e.attempt_count ≡ false
      → claim_one settings now e.event_id w ≡ (
        ok (
            record {
              event_id = e.event_id;
              attempt_count = e.attempt_count;
              conversion = own_conversion;
            }
            ∷ []),
        w,
      )
  unfolding claim_one
  under_ceiling fits = rw (found, built, fits) refl

  over_ceiling :
      ltb settings.max_row_attempts e.attempt_count ≡ true
      → claim_one settings now e.event_id w ≡ (
        ok [],
        with_letter e poison
            (letter e poison
              (ceiling_reason e)
              (some "row_attempt_ceiling")
              e.status_reason
              own_conversion
              now
              w)
            (stepped e dead_lettered (some (ceiling_reason e)) now w),
      )
  unfolding claim_one code_fits
  over_ceiling exceeds =
      rw
        (
          found,
          built,
          exceeds,
          dead_letter-writes poison (ceiling_reason e) (some "row_attempt_ceiling") e.status_reason
              own_conversion now e w found (rw state refl) refl,
        )
        refl

-- For a claimed event, UPLOADING, with its two required columns: `claim` never fails on it. As long
-- as its attempts are within `max_row_attempts` it is handed out with the conversion built of it,
-- and nothing changes; beyond that it is handed out no more, but is DEAD_LETTERED with a letter
-- that holds that conversion.
pub claim_one-ClaimsRow :
    (settings : Settings) (now : ℕ) (e : Event) (action : String) (t : CivilTime) (w : World)
    → find_event e.event_id w.db.events ≡ some e
    → e.status ≡ uploading
    → e.conversion_action ≡ some action
    → e.conversion_time ≡ some t
    → ClaimsRow settings now e
        (conversion_row e settings.customer_id action t)
        w
        (claim_one settings now e.event_id w)
claim_one-ClaimsRow settings now e action t w found state has_action has_time =
    elim (Bool-cases (ltb settings.max_row_attempts e.attempt_count)) [
      | inr fits ↦
          let run = under_ceiling settings now e action t w found state has_action has_time fits in
          inl (ground arith, ap (λ o. o.0) run, ap (λ o. o.1) run)
      | inl exceeds ↦
          let run =
            over_ceiling settings now e action t w found state has_action has_time exceeds in
          let reason = ceiling_reason e in
          inr (
            ground arith,
            ap (λ o. o.0) run,
            ap (λ (o : Result (List Claimed) × World). find_event e.event_id o.1.db.events) run
                ∙ find_event-save_self e.event_id e (moved e dead_lettered (some reason))
                    w.db.events found refl,
            ap (λ (o : Result (List Claimed) × World). o.1.db.dead_letters) run,
          )
    ]
