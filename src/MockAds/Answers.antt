-- ===== src/MockAds/Answers.antt =====
-- The loop of the mock over rows of the gateway, and the results and errors that it writes.
use conversion_gateway.Prelude.{
  Bool-cases, Option-cases, is_some, is_blank, ℕ, ◌+◌, String, Char, code, ◌≡◌, refl, inl, inr,
  Bool, true, false, not, Option, none, some, List, [], ◌∷◌, append_assoc, append-nil, ◌++◌, map,
}
use conversion_gateway.Models.Payload.{Conversion}
use conversion_gateway.Exec.{ok}
use conversion_gateway.Upload.Json.{
  lookup, subscript, get, is_true, empty_object, Json, null, text, object, Fields, end, field,
}
use conversion_gateway.Upload.Wire.{row_json}
use conversion_gateway.MockAds.Server.{error_entry, result_entry, judged, answer_rows}
use conversion_gateway.MockAds.Rows.{Returns, row_fields}
use conversion_gateway.MockAds.Judged.{validate_row-Returns}
use conversion_gateway.MockAds.Injection.{injected_code, RowFailure}

-- The errors of the rows that failed, from an index on.
abbrev pub error_entries : ℕ → List (Option String) → List Json
error_entries index [] = []
error_entries index (none ∷ codes) = error_entries (index + 1) codes
error_entries index (some error ∷ codes) = error_entry index error ∷ error_entries (index + 1) codes

-- The rows that did not fail.
abbrev pub accepted : List Conversion → List (Option String) → List Json
accepted (c ∷ cs) (none ∷ codes) = row_json c ∷ accepted cs codes
accepted (c ∷ cs) (some error ∷ codes) = accepted cs codes
accepted _ _ = []

-- A result is empty just where its row failed.
abbrev pub Marks : List Json → List (Option String) → Type 0
Marks [] [] = Unit
Marks (result ∷ results) (code ∷ codes) =
    (is_true result ≡ not (is_some code)) × Marks results codes
Marks _ _ = Path Bool true false

field_present : (key : String) (fields : Fields) → Returns (get (object fields) key null)
unfolding get
field_present key fields = elim (Option-cases (lookup key fields)) [
  | inl missing ↦ (null, rw (missing, get) refl)
  | inr (v, found) ↦ (v, rw (found, get) refl)
]

result_entry-row_json :
    (c : Conversion)
    → (entry : Json) × (result_entry (row_json c) ≡ ok entry) × (is_true entry ≡ true)
unfolding result_entry row_json subscript lookup get is_true
result_entry-row_json c =
    let (gclid, sent) = field_present "gclid" (row_fields c) in
    (
      object (
          field "gclid" gclid (
            field "conversionAction" (text c.conversion_action) (
              field "conversionDateTime" (text c.conversion_date_time)
                (field "orderId" (text c.order_id) end)))),
      rw sent refl,
      refl,
    )

module _ (is_decimal : Char → Bool) (str_of_json : Json → String) (known_actions : List String)
    (fail_rows : List RowFailure) where
  -- The mock's judgement of each row.
  abbrev pub JudgedRows : ℕ → List Conversion → List (Option String) → Type 0
  JudgedRows index [] [] = Unit
  JudgedRows index (c ∷ cs) (code ∷ codes) =
      (judged is_decimal str_of_json known_actions fail_rows index (row_json c) ≡ ok code)
      × JudgedRows (index + 1) cs codes
  JudgedRows index _ _ = Path Bool true false

  judged-Returns :
      (index : ℕ) (c : Conversion)
      → Returns (judged is_decimal str_of_json known_actions fail_rows index (row_json c))
  unfolding judged
  judged-Returns index c =
      let (code, judgement) = validate_row-Returns is_decimal str_of_json known_actions c in
      elim (Option-cases (injected_code fail_rows index)) [
        | inl untouched ↦ (code, rw (untouched, judged) judgement)
        | inr (error, injected) ↦ elim (Bool-cases (is_blank error)) [
          | inl blank ↦ (code, rw (injected, blank, judged) judgement)
          | inr filled ↦ (some error, rw (injected, filled, judged) refl)
        ]
      ]

  pub judge_all :
      (index : ℕ) (cs : List Conversion)
      → (codes : List (Option String)) × JudgedRows index cs codes
  judge_all index [] = ([], tt)
  judge_all index (c ∷ cs) =
      let (code, first) = judged-Returns index c in
      let (codes, rest) = judge_all (index + 1) cs in (code ∷ codes, (first, rest))

  -- What the loop leaves, for the judgements of its rows.
  abbrev pub Answers : ℕ → List Conversion → List (Option String) → List Json → Type 0
  Answers index cs codes uploads =
      (results : List Json) × (answer_rows is_decimal str_of_json known_actions fail_rows index
          (map row_json cs) uploads
        ≡ (ok (results, error_entries index codes), uploads ++ accepted cs codes))
      × Marks results codes

  pub answer_rows-Answers :
      (index : ℕ) (cs : List Conversion) (codes : List (Option String)) (uploads : List Json)
      → JudgedRows index cs codes
      → Answers index cs codes uploads
  unfolding answer_rows
  answer_rows-Answers index [] [] uploads judgement = ([], rw append-nil refl, tt)
  answer_rows-Answers index [] (code ∷ codes) uploads judgement = cc
  answer_rows-Answers index (c ∷ cs) [] uploads judgement = cc
  answer_rows-Answers index (c ∷ cs) (none ∷ codes) uploads (first, rest) =
      let (entry, made, marked) = result_entry-row_json c in
      let (results, looped, marks) =
        answer_rows-Answers (index + 1) cs codes (uploads ++ row_json c ∷ []) rest in
      (entry ∷ results, rw (first, made, looped, append_assoc, answer_rows) refl, (marked, marks))
  answer_rows-Answers index (c ∷ cs) (some error ∷ codes) uploads (first, rest) =
      let (results, looped, marks) = answer_rows-Answers (index + 1) cs codes uploads rest in
      (empty_object ∷ results, rw (first, looped, answer_rows) refl, (refl, marks))
