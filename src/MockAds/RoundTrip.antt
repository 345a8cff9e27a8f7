-- ===== src/MockAds/RoundTrip.antt =====
-- The mock's response, as the upload client reads it.
use conversion_gateway.Prelude.{
  length, length-map, ℕ, suc, ◌+◌, String, Char, ◌≡◌, refl, ap, ◌∙◌, Bool, false, Option, none,
  List, [], ◌∷◌, ◌++◌, map,
}
use conversion_gateway.Models.Payload.{Conversion}
use conversion_gateway.Exec.{Result, ok}
use conversion_gateway.Upload.Json.{lookup, get, Json}
use conversion_gateway.Upload.Wire.{row_json, request_json, elements-items_of}
use conversion_gateway.Upload.Client.{http_upload, HttpOutcome}
use conversion_gateway.MockAds.Server.{
  batch_response, answer_rows, respond, serve, controlled, upload,
}
use conversion_gateway.MockAds.Answers.{
  error_entries, accepted, JudgedRows, judge_all, answer_rows-Answers,
}
use conversion_gateway.MockAds.Injection.{
  take_control, http_code, is_malformed, RowFailure, Control, State,
}
use conversion_gateway.MockAds.ReadBack.{row_results, read-response}

module _ (is_decimal : Char → Bool) (str_of_json : Json → String) where
  pub length-JudgedRows :
      (known_actions : List String) (fail_rows : List RowFailure) (index : ℕ) (cs : List Conversion)
      (codes : List (Option String))
      → JudgedRows is_decimal str_of_json known_actions fail_rows index cs codes
      → length codes ≡ length cs
  length-JudgedRows known_actions fail_rows index [] [] judgement = refl
  length-JudgedRows known_actions fail_rows index [] (code ∷ codes) judgement = cc
  length-JudgedRows known_actions fail_rows index (c ∷ cs) [] judgement = cc
  length-JudgedRows known_actions fail_rows index (c ∷ cs) (code ∷ codes) (first, rest) =
      ap suc (length-JudgedRows known_actions fail_rows (index + 1) cs codes rest)

  -- What the mock answers, and what the client reads, for the control of a request.
  abbrev Reads : List Conversion → Control → State → Result HttpOutcome × State → Type 0
  Reads conversions control s' outcome =
      (codes : List (Option String)) × (answer : HttpOutcome) × JudgedRows is_decimal str_of_json
        s'.known_actions control.fail_rows 0 conversions codes
      × (outcome ≡ (ok answer, record s' { uploads = s'.uploads ++ accepted conversions codes }))
      × (http_upload str_of_json answer (length conversions) ≡ ok (row_results 0 codes))

  controlled-served :
      (conversions : List Conversion) (control : Control) (s' : State)
      → http_code control.mode ≡ none
      → is_malformed control.mode ≡ false
      → controlled is_decimal str_of_json control s' (request_json conversions)
        ≡ respond is_decimal str_of_json s' (length conversions) (
            answer_rows is_decimal str_of_json s'.known_actions control.fail_rows 0
              (map row_json conversions)
              s'.uploads)
  unfolding serve request_json get lookup controlled
  controlled-served conversions control s' answers formed =
      rw
        (
          answers,
          formed,
          elements-items_of (map row_json conversions),
          length-map row_json conversions,
          controlled,
        )
        refl

  controlled-Reads :
      (conversions : List Conversion) (control : Control) (s' : State)
      → http_code control.mode ≡ none
      → is_malformed control.mode ≡ false
      → Reads conversions control s'
          (controlled is_decimal str_of_json control s' (request_json conversions))
  unfolding respond
  controlled-Reads conversions control s' answers formed =
      let (codes, judgement) =
        judge_all is_decimal str_of_json s'.known_actions control.fail_rows 0 conversions in
      let (results, looped, marks) =
        answer_rows-Answers is_decimal str_of_json s'.known_actions control.fail_rows 0 conversions
          codes s'.uploads judgement in
      let rows = length conversions in
      (
        codes,
        batch_response results (error_entries 0 codes) rows,
        judgement,
        controlled-served conversions control s' answers formed
            ∙ ap (respond is_decimal str_of_json s' rows) looped,
        read-response str_of_json results codes rows marks
            (length-JudgedRows s'.known_actions control.fail_rows 0 conversions codes judgement),
      )

  -- The control that applies to the state's next request, and the state that it leaves.
  abbrev pub taken : State → Control × State
  taken s = take_control (record s { request_count = s.request_count + 1 })

  -- Where the mock's control injects neither a status nor a malformed body: whatever conversions the
  -- client sends, the mock comes to a judgement of each row, injected or its own, it keeps exactly the
  -- rows without an error, and what the client reads from its response is the judgement of each row, in
  -- order.
  pub upload-read :
      (s : State) (conversions : List Conversion)
      → http_code (taken s).0.mode ≡ none
      → is_malformed (taken s).0.mode ≡ false
      → (codes : List (Option String)) × (answer : HttpOutcome) × JudgedRows is_decimal str_of_json
          (taken s).1.known_actions
          (taken s).0.fail_rows
          0
          conversions
          codes
        × (upload is_decimal str_of_json s (request_json conversions) ≡ (
          ok answer,
          record (taken s).1 { uploads = (taken s).1.uploads ++ accepted conversions codes },
        ))
        × (http_upload str_of_json answer (length conversions) ≡ ok (row_results 0 codes))
  unfolding upload
  upload-read s conversions = controlled-Reads conversions (taken s).0 (taken s).1
