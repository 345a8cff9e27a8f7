-- ===== src/Upload/Client.antt =====
-- The upload client's contract, the HTTP client and the reading of a batch response:
-- src/gateway/upload/client.py. What httpx brings back is an argument, `str` of a JSON value that is no
-- text is a parameter.
pub mod Rows
use conversion_gateway.Prelude.{
  nat_eq, if◌then◌else◌, length, ◌<>◌, str_of, ℕ, ◌+◌, String, code, Bool, true, false, not, Option,
  none, some, List, [], ◌∷◌, ◌==◌,
}
use conversion_gateway.Exec.{
  transient_upload, permanent_upload, key_error, value_error, type_error, Result, ok, err,
}
use conversion_gateway.Upload.Classifier.{classify_http_status, is_transient}
use conversion_gateway.Upload.Json.{
  elements, subscript, get, is_true, empty_object, or_empty, iterate, first_value, ◌>>?◌, Json,
  null, boolean, integer, negative, text, array, nil,
}

pub record RowResult : Type 0 where
  pub index : ℕ
  pub ok : Bool
  pub error_code : Option String
  pub message : Option String

abbrev is_text : String → Json → Bool
is_text t (text s) = s == t
is_text t _ = false

-- An `int`, which a bool is too. A negative one is no row's index.
abbrev as_index : Json → Option (Option ℕ)
as_index (integer n) = some (some n)
as_index (boolean true) = some (some 1)
as_index (boolean false) = some (some 0)
as_index (negative n) = some none
as_index _ = none

-- The loop of `_row_index`: `none` for no index, `some none` for a negative one.
unfoldable row_index_in : List Json → Result (Option (Option ℕ))
unfolding get
row_index_in [] = ok none
row_index_in (element ∷ rest) =
    let later = row_index_in rest in
    get element "fieldName" null >>? λ name.
    if is_text "conversions" name
    then (get element "index" null >>? λ index. elim (as_index index) [
      | some found ↦ ok (some found)
      | none ↦ later
    ])
    else later

unfoldable row_index : Json → Result (Option (Option ℕ))
unfolding row_index_in get iterate is_true
row_index error = get error "location" null >>? λ location.
    get (or_empty location) "fieldPathElements" (array nil) >>? λ path.
    iterate path >>? row_index_in

-- `errors_by_index`, the last entry for an index first.
abbrev pub ErrorTable : Type 0
ErrorTable = List (ℕ × (String × String))

unfoldable pub error_at : ℕ → ErrorTable → Option (String × String)
error_at index [] = none
error_at index ((k, entry) ∷ rest) = if nat_eq k index then some entry else error_at index rest

unfoldable pub number_rows : ErrorTable → ℕ → List Json → List RowResult
unfolding error_at is_true
number_rows table index [] = []
number_rows table index (result ∷ rest) =
    let rows = number_rows table (index + 1) rest in
    if is_true result
    then record { index = index; ok = true; error_code = none; message = none } ∷ rows
    else elim (error_at index table) [
      | some (code, message) ↦
          record { index = index; ok = false; error_code = some code; message = some message }
          ∷ rows
      | none ↦
          record {
            index = index;
            ok = false;
            error_code = some "UNKNOWN";
            message = some "no error detail for row";
          }
          ∷ rows
    ]

module _ (str_of_json : Json → String) where
  unfoldable pub str : Json → String
  str (text t) = t
  str j = str_of_json j

  unfoldable pub entered : Option (Option ℕ) → Json → ErrorTable → Result ErrorTable
  unfolding get first_value str
  entered none error table = ok table
  entered (some index) error table = get error "errorCode" empty_object >>? λ codes.
      first_value codes >>? λ code. get error "message" (text "") >>? λ message. elim index [
        | some i ↦ ok ((i, (str code, str message)) ∷ table)
        | none ↦ ok table
      ]

  unfoldable pub read_errors : List Json → ErrorTable → Result ErrorTable
  unfolding entered row_index
  read_errors [] table = ok table
  read_errors (error ∷ rest) table =
      row_index error >>? λ index. entered index error table >>? read_errors rest

  unfoldable pub read_details : List Json → ErrorTable → Result ErrorTable
  unfolding read_errors get iterate
  read_details [] table = ok table
  read_details (detail ∷ rest) table = get detail "errors" (array nil) >>? λ errors.
      iterate errors >>? λ items. read_errors items table >>? read_details rest

  -- `not isinstance(results, list) or len(results) != expected_rows`
  unfoldable pub checked_results : ℕ → Json → Result (List Json)
  unfolding elements
  checked_results expected (array items) =
      if nat_eq (length (elements items)) expected then ok (elements items) else err value_error
  checked_results expected _ = err value_error

  unfoldable pub parse_batch_response : Json → ℕ → Result (List RowResult)
  unfolding subscript checked_results get iterate is_true read_details number_rows
  parse_batch_response body expected_rows = subscript body "results" >>? λ found.
      checked_results expected_rows found >>? λ results.
      get body "partialFailureError" null >>? λ failure.
      get (or_empty failure) "details" (array nil) >>? λ details. iterate details >>? λ items.
      read_details items [] >>? λ table. ok (number_rows table 0 results)

pub data HttpOutcome : Type 0 where
  timeout : HttpOutcome
  transport_failure : String → HttpOutcome
  response : ℕ → Option Json → HttpOutcome

-- The `except (ValueError, KeyError, TypeError)` clause.
unfoldable or_malformed : Result (List RowResult) → Result (List RowResult)
or_malformed (ok rows) = ok rows
or_malformed (err value_error) = err (transient_upload "malformed_response")
or_malformed (err key_error) = err (transient_upload "malformed_response")
or_malformed (err type_error) = err (transient_upload "malformed_response")
or_malformed (err e) = err e

-- `HttpUploadClient.upload` of so many rows, by what the request brings back.
unfoldable pub http_upload : (Json → String) → HttpOutcome → ℕ → Result (List RowResult)
unfolding classify_http_status or_malformed parse_batch_response
http_upload str_of_json timeout rows = err (transient_upload "timeout")
http_upload str_of_json (transport_failure name) rows =
    err (transient_upload ("connection:" <> name))
http_upload str_of_json (response status body) rows =
    if not (nat_eq status 200)
    then (if is_transient (classify_http_status status)
        then err (transient_upload ("http_" <> str_of status))
        else err (permanent_upload ("http_" <> str_of status)))
    else elim body [
      | none ↦ err (transient_upload "malformed_response")
      | some json ↦ or_malformed (parse_batch_response str_of_json json rows)
    ]

-- `UploadClient`: one batch, by the conversions' rows.
abbrev pub BatchResult : Type 0
BatchResult = List RowResult
