-- ===== src/Examples/Platform.antt =====
-- The mock platform behind the uploader at work, on one event with a click and a digest.
use conversion_gateway.Prelude.{
  All, String, ◌≡◌, refl, inl, Option, none, some, List, [], ◌∷◌, ◌++◌,
}
use conversion_gateway.Models.Status.{uploading}
use conversion_gateway.Models.Payload.{Conversion}
use conversion_gateway.Models.Rows.{HashedIdentifiers, Event}
use conversion_gateway.Exec.{World, ok}
use conversion_gateway.Ledger.{find_event}
use conversion_gateway.Upload.Json.{Json}
use conversion_gateway.Upload.Wire.{row_json, request_json}
use conversion_gateway.Upload.Client.{http_upload, HttpOutcome}
use conversion_gateway.Upload.Conversion.{conversion_row, build_conversion}
use conversion_gateway.Upload.Uploader.{Claimed, upload_batch}
use conversion_gateway.Upload.Uploader.Settled.{Settled, counted_rows}
use conversion_gateway.MockAds.Pattern.{matches_all, is_ascii_digit, hex64}
use conversion_gateway.MockAds.Validation.{validate_row}
use conversion_gateway.MockAds.Server.{upload}
use conversion_gateway.MockAds.Answers.{accepted, JudgedRows}
use conversion_gateway.MockAds.RoundTrip.{upload-read}
use conversion_gateway.MockAds.Formats.{KnowsDigits}
use conversion_gateway.MockAds.Digests.{HasDigests}
use conversion_gateway.MockAds.Accepts.{Addresses, build_conversion-validate_row}
use conversion_gateway.MockAds.Delivered.{mock_client, upload_batch-judged}
use conversion_gateway.MockAds.Uploaded.{
  all_uploaded, IsUploaded, IsSendable, plain_state, upload_batch-IsUploaded,
}
use conversion_gateway.Examples.Data.{noon, row_in, world_of, conversion, settings}
use conversion_gateway.Examples.Retrying.{instant}
use conversion_gateway.Normalise.Strings.{all_chars, text_in}
use conversion_gateway.MockAds.Injection.{plain_control, take_control, State}
use conversion_gateway.MockAds.ReadBack.{row_results}
use conversion_gateway.Models.Columns.{code_fits}

-- The text of any JSON value.
abbrev said : Json → String
said j = "?"

ascii : KnowsDigits is_ascii_digit
ascii = (λ c h. h, refl)

abbrev ann : HashedIdentifiers
ann = record {
  hashed_email = some "abababababababababababababababababababababababababababababababab";
  hashed_phone = none;
  hashed_given_name = none;
  hashed_family_name = none;
  hashed_street_address = none;
  city = none;
  region = none;
  postal_code = none;
  country = none;
}

abbrev clicked : Event
clicked = record (row_in uploading) { click_id = some "click"; hashed_identifiers = some ann }

abbrev clicked_world : World
clicked_world = world_of (clicked ∷ []) []

is_clicked : find_event "e1" clicked_world.db.events ≡ some clicked
unfolding find_event
is_clicked = refl

hex_digests : HasDigests (some ann)
unfolding matches_all hex64
hex_digests = (refl, tt, tt, tt, tt)

named : Addresses is_ascii_digit said ("signup" ∷ []) "1" "signup"
unfolding all_chars text_in
named = ((refl, refl), (refl, refl), refl)

abbrev row : Conversion
row = conversion_row clicked "1" "signup" noon

builds : build_conversion clicked "1" clicked_world ≡ (ok row, clicked_world)
unfolding build_conversion
builds = refl

build_conversion-validate_row_example :
    (c : Conversion) × (build_conversion clicked "1" clicked_world ≡ (ok c, clicked_world))
    × (validate_row is_ascii_digit said ("signup" ∷ []) (row_json c) ≡ ok none)
build_conversion-validate_row_example =
    build_conversion-validate_row is_ascii_digit said ("signup" ∷ []) "1" "signup" noon clicked
      clicked_world ascii named refl refl refl hex_digests (inl refl)

abbrev sent_row : Claimed
sent_row = record { event_id = "e1"; attempt_count = 2; conversion = row }

abbrev mock : State
mock = plain_state is_ascii_digit said ("signup" ∷ []) [] 0

sendable : IsSendable is_ascii_digit said ("signup" ∷ []) "1" clicked_world sent_row
sendable = (
  clicked,
  "signup",
  noon,
  is_clicked,
  refl,
  builds,
  refl,
  refl,
  refl,
  hex_digests,
  inl refl,
  named,
)

upload_batch-IsUploaded_example :
    ((upload_batch instant
        (mock_client is_ascii_digit said mock)
        settings
        (λ k id. 30)
        (sent_row ∷ [])
        30
        clicked_world).0
      ≡ ok (all_uploaded 1))
    × All
        (IsUploaded clicked_world.db.events
          (upload_batch instant
            (mock_client is_ascii_digit said mock)
            settings
            (λ k id. 30)
            (sent_row ∷ [])
            30
            clicked_world).1.db.events)
        (sent_row ∷ [])
upload_batch-IsUploaded_example =
    upload_batch-IsUploaded is_ascii_digit said ("signup" ∷ []) instant settings [] 0 (λ k id. 30)
      "1" (sent_row ∷ []) 30 clicked_world ascii (tt, tt) (sendable, tt)

-- A mock that is told to refuse the first row.
abbrev refusing : State
refusing = record mock {
  control = record plain_control {
    fail_rows = record { index = 0; error_code = "INVALID_GCLID" } ∷ [];
  };
}

upload-read_example :
    (codes : List (Option String)) × (answer : HttpOutcome) × JudgedRows is_ascii_digit said
      ("signup" ∷ [])
      refusing.control.fail_rows
      0
      (row ∷ conversion ∷ [])
      codes
    × (upload is_ascii_digit said refusing (request_json (row ∷ conversion ∷ [])) ≡ (
      ok answer,
      record refusing { request_count = 1; uploads = [] ++ accepted (row ∷ conversion ∷ []) codes },
    ))
    × (http_upload said answer 2 ≡ ok (row_results 0 codes))
unfolding take_control
upload-read_example = upload-read is_ascii_digit said refusing (row ∷ conversion ∷ []) refl refl

upload_batch-judged_example :
    (codes : List (Option String)) × JudgedRows is_ascii_digit said
      ("signup" ∷ [])
      refusing.control.fail_rows
      0
      (row ∷ [])
      codes
    × ((upload_batch instant
          (mock_client is_ascii_digit said refusing)
          settings
          (λ k id. 30)
          (sent_row ∷ [])
          30
          clicked_world).0
        ≡ ok (counted_rows (row_results 0 codes)))
    × Settled clicked_world.db.events
        (upload_batch instant
          (mock_client is_ascii_digit said refusing)
          settings
          (λ k id. 30)
          (sent_row ∷ [])
          30
          clicked_world).1.db.events
        (sent_row ∷ [])
        (row_results 0 codes)
unfolding take_control code_fits
upload_batch-judged_example =
    upload_batch-judged is_ascii_digit said instant settings refusing (λ k id. 30) (sent_row ∷ [])
      30 clicked_world refl refl (refl, tt) (tt, tt) ((clicked, is_clicked, refl), tt)
