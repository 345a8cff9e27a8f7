-- ===== src/MockAds/ReadBack.antt =====
-- The client's reading of a response that the mock makes.
use conversion_gateway.Prelude.{
  nat_eq, length, ◌<>◌, str_of, ℕ, suc, ◌+◌, ◌<◌, String, ◌≡◌, refl, ap, ◌∙◌, true, false, Option,
  none, some, List, [], ◌∷◌, arith,
}
use conversion_gateway.Exec.{ok}
use conversion_gateway.Upload.Json.{elements, lookup, ◌>>?◌, Json, array, object, field}
use conversion_gateway.Upload.Wire.{items_of, elements-items_of}
use conversion_gateway.Upload.Client.{
  ErrorTable, error_at, number_rows, read_errors, parse_batch_response, http_upload, RowResult,
}
use conversion_gateway.MockAds.Server.{failure_fields, batch_response}
use conversion_gateway.MockAds.Answers.{error_entries, Marks}

-- One row's result, as the client gives it to the uploader.
abbrev pub row_result : ℕ → Option String → RowResult
row_result index none = record { index = index; ok = true; error_code = none; message = none }
row_result index (some error) = record {
  index = index;
  ok = false;
  error_code = some error;
  message = some ("row " <> (str_of index <> (": " <> error)));
}

abbrev pub row_results : ℕ → List (Option String) → List RowResult
row_results index [] = []
row_results index (code ∷ codes) = row_result index code ∷ row_results (index + 1) codes

-- The client's table once the errors are entered.
abbrev enter : ℕ → List (Option String) → ErrorTable → ErrorTable
enter index [] table = table
enter index (none ∷ codes) table = enter (index + 1) codes table
enter index (some error ∷ codes) table =
    enter (index + 1) codes ((index, (error, "row " <> (str_of index <> (": " <> error)))) ∷ table)

later_differs : (k index : ℕ) → k < index → nat_eq index k ≡ false
later_differs k index below = ground arith

nat_eq_refl : (k : ℕ) → nat_eq k k ≡ true
nat_eq_refl k = ground arith

error_at-enter :
    (k index : ℕ) (codes : List (Option String)) (table : ErrorTable)
    → k < index
    → error_at k (enter index codes table) ≡ error_at k table
unfolding error_at
error_at-enter k index [] table below = refl
error_at-enter k index (none ∷ codes) table below =
    error_at-enter k (index + 1) codes table (omega arith)
error_at-enter k index (some error ∷ codes) table below =
    error_at-enter k (index + 1) codes _ (omega arith) ∙ rw (later_differs k index below) refl

number_rows-enter :
    (index : ℕ) (codes : List (Option String)) (results : List Json) (table : ErrorTable)
    → Marks results codes
    → number_rows (enter index codes table) index results ≡ row_results index codes
unfolding number_rows
number_rows-enter index [] [] table marks = refl
number_rows-enter index [] (result ∷ results) table marks = cc
number_rows-enter index (code ∷ codes) [] table marks = cc
number_rows-enter index (none ∷ codes) (result ∷ results) table (marked, marks) =
    rw (marked, number_rows-enter (index + 1) codes results table marks) refl
number_rows-enter index (some error ∷ codes) (result ∷ results) table (marked, marks) =
    let entered = (index, (error, "row " <> (str_of index <> (": " <> error)))) ∷ table in
    rw
      (
        marked,
        error_at-enter index (index + 1) codes entered (omega arith),
        nat_eq_refl index,
        number_rows-enter (index + 1) codes results entered marks,
        error_at,
      )
      refl

length-Marks :
    (results : List Json) (codes : List (Option String))
    → Marks results codes
    → length results ≡ length codes
length-Marks [] [] marks = refl
length-Marks [] (code ∷ codes) marks = cc
length-Marks (result ∷ results) [] marks = cc
length-Marks (result ∷ results) (code ∷ codes) (marked, marks) =
    ap suc (length-Marks results codes marks)

module _ (str_of_json : Json → String) where
  read_errors-error_entries :
      (index : ℕ) (codes : List (Option String)) (table : ErrorTable)
      → read_errors str_of_json (error_entries index codes) table ≡ ok (enter index codes table)
  unfolding read_errors
  read_errors-error_entries index [] table = refl
  read_errors-error_entries index (none ∷ codes) table =
      read_errors-error_entries (index + 1) codes table
  read_errors-error_entries index (some error ∷ codes) table =
      read_errors-error_entries (index + 1) codes _

  -- A body with the results and the errors.
  abbrev body_of : List Json → List Json → ℕ → Json
  body_of results errors rows =
      object (field "results" (array (items_of results)) (failure_fields errors rows))

  parse-body_of :
      (results errors : List Json) (table : ErrorTable) (rows expected : ℕ)
      → nat_eq (length results) expected ≡ true
      → read_errors str_of_json errors [] ≡ ok table
      → parse_batch_response str_of_json (body_of results errors rows) expected
        ≡ ok (number_rows table 0 results)
  unfolding parse_batch_response lookup elements
  parse-body_of results [] table rows expected counted read =
      rw (elements-items_of results, counted)
        (ap (λ r. r >>? λ t. ok (number_rows t 0 results)) read)
  parse-body_of results (e ∷ es) table rows expected counted read =
      rw (elements-items_of results, counted) (rw (elements-items_of (e ∷ es), read) refl)

  pub read-response :
      (results : List Json) (codes : List (Option String)) (rows : ℕ)
      → Marks results codes
      → length codes ≡ rows
      → http_upload str_of_json (batch_response results (error_entries 0 codes) rows) rows
        ≡ ok (row_results 0 codes)
  unfolding http_upload batch_response
  read-response results codes rows marks counted =
      rw
        (
          parse-body_of results (error_entries 0 codes) (enter 0 codes []) rows rows
              (rw (length-Marks results codes marks ∙ counted) (nat_eq_refl rows))
              (read_errors-error_entries 0 codes []),
          number_rows-enter 0 codes results [] marks,
        )
        refl
