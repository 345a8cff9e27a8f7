-- ===== src/MockAds/Server.antt =====
-- The mock's upload endpoint: `create_app` of mock_ads_api/app.py. The mock's answer to an upload is
-- what the HTTP client brings back.
use conversion_gateway.Prelude.{
  nat_eq, if◌then◌else◌, length, ◌<>◌, is_blank, str_of, ℕ, ◌+◌, String, Char, Bool, Option, none,
  some, List, [], ◌∷◌, ◌++◌,
}
use conversion_gateway.Exec.{Result, ok, err}
use conversion_gateway.Upload.Json.{
  elements, subscript, get, empty_object, ◌>>?◌, Json, null, integer, text, array, object, nil,
  item, Fields, end, field,
}
use conversion_gateway.Upload.Wire.{items_of}
use conversion_gateway.Upload.Client.{HttpOutcome, response}
use conversion_gateway.MockAds.Validation.{validate_row}
use conversion_gateway.MockAds.Injection.{
  take_control, http_code, is_malformed, injected_code, RowFailure, Control, State,
}

abbrev status_name : ℕ → String
status_name n =
    if nat_eq n 401
    then "UNAUTHENTICATED"
    else if nat_eq n 429
    then "RESOURCE_EXHAUSTED"
    else "INTERNAL"

abbrev error_response : ℕ → String → String → HttpOutcome
error_response status message name = response status (
    some (
      object (
        field "error"
          (object (
            field "code" (integer status)
              (field "message" (text message) (field "status" (text name) end))))
          end)))

-- An entry of the partial failure's `errors`.
abbrev pub error_entry : ℕ → String → Json
error_entry index error = object (
    field "errorCode" (object (field "conversionUploadError" (text error) end)) (
      field "message" (text ("row " <> (str_of index <> (": " <> error)))) (
        field "location"
          (object (
            field "fieldPathElements"
              (array (
                item
                  (object
                    (field "fieldName" (text "conversions") (field "index" (integer index) end)))
                  nil))
              end))
          end)))

-- The entry of `results` for an accepted row.
unfoldable pub result_entry : Json → Result Json
unfolding get subscript
result_entry row = get row "gclid" null >>? λ gclid. subscript row "conversionAction" >>? λ action.
    subscript row "conversionDateTime" >>? λ when. get row "orderId" null >>? λ order_id. ok (
      object (
        field "gclid" gclid (
          field "conversionAction" action
            (field "conversionDateTime" when (field "orderId" order_id end)))))

-- `results` and `errors`
abbrev pub Answered : Type 0
Answered = Result (List Json × List Json) × List Json

abbrev with_failure : Json → Answered → Answered
with_failure entry (ok (results, errors), uploads) =
    (ok (empty_object ∷ results, entry ∷ errors), uploads)
with_failure entry (err e, uploads) = (err e, uploads)

abbrev with_result : Json → Answered → Answered
with_result entry (ok (results, errors), uploads) = (ok (entry ∷ results, errors), uploads)
with_result entry (err e, uploads) = (err e, uploads)

-- `if errors: response["partialFailureError"] = …`
abbrev pub failure_fields : List Json → ℕ → Fields
failure_fields [] rows = end
failure_fields (e ∷ es) rows =
    field "partialFailureError"
      (object (
        field "code" (integer 3) (
          field "message"
            (text (str_of (length (e ∷ es)) <> (" of " <> (str_of rows <> " conversions failed"))))
            (field "details"
              (array (
                item
                  (object (
                    field "@type"
                      (text "type.googleapis.com/google.ads.googleads.errors.GoogleAdsFailure")
                      (field "errors" (array (items_of (e ∷ es))) end)))
                  nil))
              end))))
      end

unfoldable pub batch_response : List Json → List Json → ℕ → HttpOutcome
unfolding items_of str_of
batch_response results errors rows =
    response 200
      (some (object (field "results" (array (items_of results)) (failure_fields errors rows))))

module _ (is_decimal : Char → Bool) (str_of_json : Json → String) where
  -- `injected.get(index) or validate_row(row, state.known_actions)`
  unfoldable pub judged : List String → List RowFailure → ℕ → Json → Result (Option String)
  unfolding validate_row injected_code
  judged known_actions fail_rows index row =
      let validated = validate_row is_decimal str_of_json known_actions row in
      elim (injected_code fail_rows index) [
        | none ↦ validated
        | some error ↦ if is_blank error then validated else ok (some error)
      ]

  -- The loop over the rows.
  unfoldable pub answer_rows : List String → List RowFailure → ℕ → List Json → List Json → Answered
  unfolding judged result_entry str_of
  answer_rows known_actions fail_rows index [] uploads = (ok ([], []), uploads)
  answer_rows known_actions fail_rows index (row ∷ rows) uploads =
      elim (judged known_actions fail_rows index row) [
        | err e ↦ (err e, uploads)
        | ok (some error) ↦
            with_failure (error_entry index error)
              (answer_rows known_actions fail_rows (index + 1) rows uploads)
        | ok none ↦ elim (result_entry row) [
          | err e ↦ (err e, uploads ++ row ∷ [])
          | ok entry ↦
              with_result entry
                (answer_rows known_actions fail_rows (index + 1) rows (uploads ++ row ∷ []))
        ]
      ]

  unfoldable pub respond : State → ℕ → Answered → Result HttpOutcome × State
  unfolding batch_response
  respond s rows (err e, uploads) = (err e, record s { uploads = uploads })
  respond s rows (ok (results, errors), uploads) =
      (ok (batch_response results errors rows), record s { uploads = uploads })

  -- From `conversions = body.get("conversions")` on.
  unfoldable pub serve : State → List RowFailure → Result Json → Result HttpOutcome × State
  unfolding answer_rows respond elements
  serve s fail_rows (err e) = (err e, s)
  serve s fail_rows (ok (array items)) =
      respond s (length (elements items))
        (answer_rows s.known_actions fail_rows 0 (elements items) s.uploads)
  serve s fail_rows (ok _) =
      (ok (error_response 400 "conversions must be a list" "INVALID_ARGUMENT"), s)

  unfoldable pub controlled : Control → State → Json → Result HttpOutcome × State
  unfolding serve get str_of
  controlled control s body = elim (http_code control.mode) [
    | some n ↦ (ok (error_response n ("injected " <> str_of n) (status_name n)), s)
    | none ↦
        if is_malformed control.mode
        then (ok (response 200 none), s)
        else serve s control.fail_rows (get body "conversions" null)
  ]

  -- `upload`, of a body that is JSON
  unfoldable pub upload : State → Json → Result HttpOutcome × State
  unfolding take_control controlled
  upload s body =
      let (control, s') = take_control (record s { request_count = s.request_count + 1 }) in
      controlled control s' body
