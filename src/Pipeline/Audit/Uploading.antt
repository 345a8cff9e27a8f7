-- ===== src/Pipeline/Audit/Uploading.antt =====
-- The audit trail under the uploader's transactions.
use conversion_gateway.Prelude.{
  ltb, if◌then◌else◌, is_some, ◌<>◌, str_of, ℕ, ◌-◌, String, code, Bool, none, some, List, [], ◌∷◌,
}
use conversion_gateway.Models.Status.{uploaded, failed_retryable}
use conversion_gateway.Models.Rows.{Event, EventTransition}
use conversion_gateway.Exec.{
  Exec, pure, or_raise, transaction, ◌>>=◌, for_each, for_collect, World, assertion_error,
  key_error,
}
use conversion_gateway.Exec.Keeps.{
  Keeps, Keeps-bind, Keeps-for_each, Keeps-if, Keeps-collect, Keeps-transaction, Keeps-or_raise,
}
use conversion_gateway.Ledger.{find_event, load, transition, record_retry_attempt, claim_for_upload}
use conversion_gateway.Ledger.Trail.{IsAudited}
use conversion_gateway.Ledger.Audit.{
  Audited, transition-IsAudited, record_retry_attempt-IsAudited, claim_for_upload-IsAudited,
}
use conversion_gateway.Dlq.{dead_letter}
use conversion_gateway.Upload.Classifier.{
  classify_row_error, is_transient, FailureClass, partial, poison,
}
use conversion_gateway.Upload.Client.{BatchResult, RowResult}
use conversion_gateway.Upload.Uploader.{
  nothing_done, claim_one, claim, load_present, retry_ids, ids_of, on_retry, code_of, apply_row,
  apply_rows, apply_result, by_id, dead_letter_claimed, dead_letter_all, Claimed, Settings,
}
use conversion_gateway.Upload.Conversion.{build_conversion}
use conversion_gateway.Pipeline.Audit.Processing.{dead_letter-IsAudited}

module _ (past : List EventTransition) where
  abbrev Ok : World → Type 0
  Ok = Audited past

  build_conversion-IsAudited :
      (e : Event) (customer_id : String) → Keeps Ok (build_conversion e customer_id)
  unfolding build_conversion
  build_conversion-IsAudited e customer_id =
      Keeps-bind Ok (or_raise e.conversion_action assertion_error) _
        (Keeps-or_raise Ok e.conversion_action assertion_error)
        (λ _.
          Keeps-bind Ok (or_raise e.conversion_time assertion_error) _
            (Keeps-or_raise Ok e.conversion_time assertion_error) (λ _ w h. h))

  load-IsAudited : (id : String) → Keeps Ok (load id)
  unfolding load
  load-IsAudited id w h = Keeps-or_raise Ok (find_event id w.db.events) key_error w h

  abbrev ceiling_reason : Event → String
  ceiling_reason e = "poison:row_attempt_ceiling:" <> str_of (e.attempt_count - 1)

  claim_one-IsAudited :
      (settings : Settings) (now : ℕ) (id : String) → Keeps Ok (claim_one settings now id)
  unfolding claim_one
  claim_one-IsAudited settings now id = Keeps-bind Ok (load id) _ (load-IsAudited id) λ e.
      Keeps-bind Ok (build_conversion e settings.customer_id) _
        (build_conversion-IsAudited e settings.customer_id)
        λ c.
          Keeps-if Ok (ltb settings.max_row_attempts e.attempt_count) _ _
            (Keeps-bind Ok
              (dead_letter e.event_id poison (ceiling_reason e) (some "row_attempt_ceiling")
                e.status_reason c now)
              (λ _. pure [])
              (dead_letter-IsAudited past e.event_id poison (ceiling_reason e)
                (some "row_attempt_ceiling") e.status_reason c now)
              (λ _ w h. h))
            (λ w h. h)

  pub claim-IsAudited :
      (settings : Settings) (locked : String → Bool) (now limit : ℕ)
      → Keeps Ok (claim settings locked now limit)
  unfolding claim
  claim-IsAudited settings locked now limit = Keeps-transaction (IsAudited past) _ (
      Keeps-bind Ok
        (claim_for_upload locked now limit settings.row_retry_after settings.stale_after) _
        (claim_for_upload-IsAudited past locked now limit settings.row_retry_after
          settings.stale_after)
        (λ ids.
          Keeps-bind Ok (for_collect ids (claim_one settings now)) _
            (Keeps-collect Ok (claim_one settings now) ids (claim_one-IsAudited settings now))
            (λ _ w h. h)))

  load_present-IsAudited : (ids : List String) → Keeps Ok (load_present ids)
  unfolding load_present
  load_present-IsAudited [] = λ w h. h
  load_present-IsAudited (id ∷ ids) = λ w h.
      Keeps-bind Ok (load_present ids)
        (λ rest. pure (if is_some (find_event id w.db.events) then id ∷ rest else rest))
        (load_present-IsAudited ids) (λ _ w' h'. h') w h

  retry_ids-IsAudited :
      (reason : String) (now : String → ℕ) (ids : List String) → Keeps Ok (retry_ids reason now ids)
  unfolding retry_ids
  retry_ids-IsAudited reason now ids =
      Keeps-for_each Ok (λ id. record_retry_attempt id ("transient:" <> reason) (now id)) ids
        (λ id. record_retry_attempt-IsAudited past id ("transient:" <> reason) (now id))

  pub on_retry-IsAudited :
      (batch : List Claimed) (clock : ℕ → String → ℕ) (reason : String) (attempt : ℕ)
      → Keeps Ok (on_retry batch clock reason attempt)
  unfolding on_retry
  on_retry-IsAudited batch clock reason attempt =
      Keeps-transaction (IsAudited past)
        (load_present (ids_of batch) >>= retry_ids reason (clock attempt))
        (Keeps-bind Ok (load_present (ids_of batch)) (retry_ids reason (clock attempt))
          (load_present-IsAudited (ids_of batch)) (retry_ids-IsAudited reason (clock attempt)))

  apply_row-IsAudited : (now : ℕ) (c : Claimed) (r : RowResult) → Keeps Ok (apply_row now c r)
  unfolding apply_row
  apply_row-IsAudited now c r = Keeps-bind Ok (load c.event_id) _ (load-IsAudited c.event_id) λ e.
      Keeps-if Ok r.ok _ _
        (Keeps-bind Ok (transition e.event_id uploaded none now) _
          (transition-IsAudited past e.event_id uploaded none now)
          (λ _ w h. record { explained = h.explained; appended = h.appended }))
        (Keeps-if Ok (is_transient (classify_row_error (code_of r.error_code))) _ _
          (Keeps-bind Ok (transition e.event_id failed_retryable _ now) _
            (transition-IsAudited past e.event_id failed_retryable _ now) (λ _ w h. h))
          (Keeps-bind Ok
            (dead_letter e.event_id partial ("permanent_row:" <> code_of r.error_code)
              (some (code_of r.error_code)) r.message c.conversion now)
            (λ _. pure (record nothing_done { dead_lettered = 1 }))
            (dead_letter-IsAudited past e.event_id partial
              ("permanent_row:" <> code_of r.error_code) (some (code_of r.error_code)) r.message
              c.conversion now)
            (λ _ w h. h)))

  apply_rows-IsAudited :
      (now : ℕ) (batch : List Claimed) (rows : BatchResult) → Keeps Ok (apply_rows now batch rows)
  unfolding apply_rows
  apply_rows-IsAudited now [] [] = λ w h. h
  apply_rows-IsAudited now [] (r ∷ rs) = λ w h. h
  apply_rows-IsAudited now (c ∷ cs) [] = λ w h. h
  apply_rows-IsAudited now (c ∷ cs) (r ∷ rs) =
      Keeps-bind Ok (apply_row now c r) _ (apply_row-IsAudited now c r) (λ done.
        Keeps-bind Ok (apply_rows now cs rs) _ (apply_rows-IsAudited now cs rs) (λ rest w h. h))

  pub apply_result-IsAudited :
      (now : ℕ) (batch : List Claimed) (rows : BatchResult) → Keeps Ok (apply_result now batch rows)
  unfolding apply_result
  apply_result-IsAudited now batch rows =
      Keeps-transaction (IsAudited past) (apply_rows now batch rows)
        (apply_rows-IsAudited now batch rows)

  dead_letter_claimed-IsAudited :
      (failure_class : FailureClass) (reason code message : String) (now : ℕ) (c : Claimed)
      → Keeps Ok (dead_letter_claimed failure_class reason code message now c)
  unfolding dead_letter_claimed
  dead_letter_claimed-IsAudited failure_class reason code message now c w =
      Keeps-if Ok (is_some (find_event c.event_id w.db.events))
        (dead_letter c.event_id failure_class reason (some code) (some message) c.conversion now)
        (pure tt)
        (dead_letter-IsAudited past c.event_id failure_class reason (some code) (some message)
          c.conversion now)
        (λ w' h. h) w

  pub dead_letter_all-IsAudited :
      (batch : List Claimed) (failure_class : FailureClass) (reason code message : String) (now : ℕ)
      → Keeps Ok (dead_letter_all batch failure_class reason code message now)
  unfolding dead_letter_all
  dead_letter_all-IsAudited batch failure_class reason code message now =
      Keeps-bind Ok (transaction (for_each (by_id [] batch) each)) _
        (Keeps-transaction (IsAudited past) (for_each (by_id [] batch) each) (
          Keeps-for_each Ok each (by_id [] batch)
            (dead_letter_claimed-IsAudited failure_class reason code message now)))
        (λ _ w h. h)
    where
      each : Claimed → Exec (Unit {0})
      each = dead_letter_claimed failure_class reason code message now
