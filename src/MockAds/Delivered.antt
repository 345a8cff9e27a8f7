-- ===== src/MockAds/Delivered.antt =====
-- From a claimed batch to the platform and back: the mock as the uploader's client.
use conversion_gateway.Prelude.{
  length, length-map, All, ℕ, suc, ◌+◌, String, Char, ◌≡◌, refl, sym, ap, ◌∙◌, subst, Bool, false,
  Option, none, List, [], ◌∷◌, map,
}
use conversion_gateway.Models.Payload.{Conversion}
use conversion_gateway.Exec.{World, Result, ok, err}
use conversion_gateway.Upload.Json.{Json}
use conversion_gateway.Upload.Wire.{request_json}
use conversion_gateway.Upload.Client.{http_upload, BatchResult, HttpOutcome, response}
use conversion_gateway.Upload.Backoff.{Tenacity}
use conversion_gateway.Upload.Uploader.{UploadClient, Claimed, CycleReport, Settings, upload_batch}
use conversion_gateway.MockAds.Server.{upload}
use conversion_gateway.MockAds.Answers.{JudgedRows}
use conversion_gateway.MockAds.RoundTrip.{length-JudgedRows, taken, upload-read}
use conversion_gateway.Upload.Uploader.Settled.{
  IsUploading, AreDistinct, Settled, counted_rows, apply_result-Settled,
}
use conversion_gateway.Upload.Uploader.Answered.{timed, upload_batch-apply_result}
use conversion_gateway.MockAds.Injection.{http_code, is_malformed, State}
use conversion_gateway.MockAds.ReadBack.{row_results}
use conversion_gateway.MockAds.Codes.{InjectsFitting, All-CodeFits}

-- What the mock answers, as the client sees it; an exception in the mock is an answer with 500.
abbrev answered : Result HttpOutcome → HttpOutcome
answered (ok answer) = answer
answered (err e) = response 500 none

module _ (is_decimal : Char → Bool) (str_of_json : Json → String) where
  -- The upload client, with a mock in the state `s` behind it.
  abbrev pub mock_client : State → UploadClient
  mock_client s conversions w = (
    http_upload str_of_json
        (answered (upload is_decimal str_of_json s (request_json conversions)).0)
        (length conversions),
    w,
  )

  abbrev pub conversions_of : List Claimed → List Conversion
  conversions_of batch = map (λ (c : Claimed). c.conversion) batch

  length-row_results :
      (index : ℕ) (codes : List (Option String)) → length (row_results index codes) ≡ length codes
  length-row_results index [] = refl
  length-row_results index (code ∷ codes) = ap suc (length-row_results (index + 1) codes)

  module _ (tenacity : Tenacity BatchResult) (settings : Settings) where
    -- With the mock behind the client, where its control injects neither a status nor a malformed
    -- body, the client waits for the answer and the codes that are injected have at most 128
    -- characters: for a batch of UPLOADING events, no two rows of it of one event, `upload_batch`
    -- never fails. The mock judges each row, and each event is left in the state that its row's
    -- judgement leads to.
    pub upload_batch-judged :
        (s : State) (clock : ℕ → String → ℕ) (batch : List Claimed) (now : ℕ) (w : World)
        → http_code (taken is_decimal str_of_json s).0.mode ≡ none
        → is_malformed (taken is_decimal str_of_json s).0.mode ≡ false
        → InjectsFitting (taken is_decimal str_of_json s).0.fail_rows
        → AreDistinct batch
        → All (IsUploading w.db.events) batch
        → (codes : List (Option String)) × JudgedRows is_decimal str_of_json
            (taken is_decimal str_of_json s).1.known_actions
            (taken is_decimal str_of_json s).0.fail_rows
            0
            (conversions_of batch)
            codes
          × ((upload_batch tenacity (mock_client s) settings clock batch now w).0
              ≡ ok (counted_rows (row_results 0 codes)))
          × Settled w.db.events
              (upload_batch tenacity (mock_client s) settings clock batch now w).1.db.events
              batch
              (row_results 0 codes)
    upload_batch-judged s clock batch now w answers formed fitting distinct sending =
        let cs = conversions_of batch in
        let (control, s') = taken is_decimal str_of_json s in
        let (codes, answer, judgement, served, read) =
          upload-read is_decimal str_of_json s cs answers formed in
        let rows = row_results 0 codes in
        let counted : length rows ≡ length batch =
          length-row_results 0 codes
          ∙ length-JudgedRows is_decimal str_of_json s'.known_actions control.fail_rows 0 cs codes
              judgement
          ∙ length-map _ batch in
        let sent : mock_client s cs w ≡ (ok rows, w) =
          ap
            (λ (o : Result HttpOutcome × State).
              (http_upload str_of_json (answered o.0) (length cs), w))
            served
          ∙ ap (λ r. (r, w)) read in
        let applied =
          upload_batch-apply_result tenacity (mock_client s) settings clock batch now rows w w
            sent in
        let (done, settled, _) =
          apply_result-Settled now batch rows (timed tenacity (mock_client s) settings w) counted
            distinct sending
            (All-CodeFits is_decimal str_of_json s'.known_actions control.fail_rows 0 cs codes
              fitting judgement) in
        (
          codes,
          judgement,
          ap (λ o. o.0) applied ∙ done,
          subst (λ (o : Result CycleReport × World). Settled w.db.events o.1.db.events batch rows)
              (sym applied) settled,
        )
