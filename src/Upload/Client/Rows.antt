-- ===== src/Upload/Client/Rows.antt =====
-- The rows that `parse_batch_response` of src/gateway/upload/client.py reads.
use conversion_gateway.Prelude.{
  Bool-cases, Option-cases, length, is_some, ℕ, suc, ◌+◌, String, ◌≡◌, refl, ap, ◌∙◌, subst, inl,
  inr, true, false, List, [], ◌∷◌, arith,
}
use conversion_gateway.Exec.{count, Result, ok, err}
use conversion_gateway.Upload.Json.{
  subscript, get, is_true, or_empty, iterate, ◌>>?◌, Json, null, array, nil,
}
use conversion_gateway.Upload.Client.{
  ErrorTable, error_at, number_rows, read_details, checked_results, parse_batch_response, RowResult,
}

-- The row stands at the index, and says why it failed if it did.
abbrev IsRow : ℕ → RowResult → Type 0
IsRow index row = (row.index ≡ index) × (row.ok ≡ false → is_some row.error_code ≡ true)

-- The rows of a batch, from an index on.
abbrev pub AreRows : ℕ → List RowResult → Type 0
AreRows index [] = Unit
AreRows index (row ∷ rest) = IsRow index row × AreRows (index + 1) rest

-- What the computation gives, if it gives anything.
abbrev Gives : {A : Type 0} → (A → Type 0) → Result A → Type 0
Gives {A} P r = (a : A) → r ≡ ok a → P a

module _ {A B : Type 0} (P : B → Type 0) where
  Gives-then :
      (r : Result A) (f : A → Result B) → ((a : A) → r ≡ ok a → Gives P (f a)) → Gives P (r >>? f)
  Gives-then (ok a) f h = h a refl
  Gives-then (err e) f h = λ b failed. cc

same_rows : {xs ys : List RowResult} → Path (Result (List RowResult)) (ok xs) (ok ys) → xs ≡ ys
same_rows h = cc

number_rows-AreRows :
    (table : ErrorTable) (index : ℕ) (results : List Json)
    → AreRows index (number_rows table index results)
      × (length (number_rows table index results) ≡ length results)
unfolding number_rows
number_rows-AreRows table index [] = (tt, refl)
number_rows-AreRows table index (result ∷ rest) =
    let (rows, count) = number_rows-AreRows table (index + 1) rest in
    elim (Bool-cases (is_true result)) [
      | inl fine ↦ rw fine (((refl, λ h. cc), rows), ap suc count)
      | inr failed ↦ elim (Option-cases (error_at index table)) [
        | inl silent ↦ rw (failed, silent) (((refl, λ h. refl), rows), ap suc count)
        | inr (entry, named) ↦ rw (failed, named) (((refl, λ h. refl), rows), ap suc count)
      ]
    ]

-- The rows answer a batch of so many.
abbrev Answers : ℕ → List RowResult → Type 0
Answers expected_rows rows = AreRows 0 rows × (length rows ≡ expected_rows)

module _ (str_of_json : Json → String) where
  checked_results-length :
      (expected : ℕ) (body : Json) (results : List Json)
      → checked_results str_of_json expected body ≡ ok results
      → length results ≡ expected
  unfolding checked_results
  checked_results-length expected (array items) results h = ground arith
  checked_results-length expected null results h = cc
  checked_results-length expected _ results h = cc

  -- Whatever the body holds: if `parse_batch_response` returns, it gives one row for each row of the
  -- batch, numbered in order from zero, and each failed row has an error code.
  pub parse_batch_response-rows :
      (body : Json) (expected_rows : ℕ) (rows : List RowResult)
      → parse_batch_response str_of_json body expected_rows ≡ ok rows
      → AreRows 0 rows × (length rows ≡ expected_rows)
  unfolding parse_batch_response
  parse_batch_response-rows body expected_rows =
      let P = Answers expected_rows in
      Gives-then P (subscript body "results") _ λ found _.
        Gives-then P (checked_results str_of_json expected_rows found) _ λ results checked.
          Gives-then P (get body "partialFailureError" null) _ λ failure _.
            Gives-then P (get (or_empty failure) "details" (array nil)) _ λ details _.
              Gives-then P (iterate details) _ λ items _.
                Gives-then P (read_details str_of_json items []) _ λ table _ rows numbered.
                  let (are, count) = number_rows-AreRows table 0 results in
                  subst P (same_rows numbered)
                    (are, count ∙ checked_results-length expected_rows found results checked)
