-- ===== src/Upload/Fake.antt =====
-- The scripted client of the tests: src/gateway/upload/fake.py.
use conversion_gateway.Prelude.{
  nat_eq, if◌then◌else◌, length, ◌<>◌, str_of, ℕ, zero, suc, ◌+◌, String, true, false, Option, none,
  some, List, [], ◌∷◌, ◌++◌, map,
}
use conversion_gateway.Models.Payload.{Conversion}
use conversion_gateway.Exec.{Result, ok}
use conversion_gateway.Upload.Client.{BatchResult, RowResult}

pub record FakeUploadClient : Type 0 where
  pub script : List (Result BatchResult)
  pub calls : List (List Conversion)

abbrev ok_row : ℕ → RowResult
ok_row index = record { index = index; ok = true; error_code = none; message = none }

abbrev failed_row : ℕ → String → RowResult
failed_row index error = record {
  index = index;
  ok = false;
  error_code = some error;
  message = some ("row " <> str_of index);
}

-- `failures.get(i)`
failure_at : ℕ → List (ℕ × String) → Option String
failure_at index [] = none
failure_at index ((k, error) ∷ rest) = if nat_eq k index then some error else failure_at index rest

rows_from : List (ℕ × String) → ℕ → ℕ → BatchResult
unfolding failure_at str_of
rows_from failures index zero = []
rows_from failures index (suc n) =
    elim (failure_at index failures) [ some error ↦ failed_row index error | none ↦ ok_row index ]
    ∷ rows_from failures (index + 1) n

unfoldable with_failures : ℕ → List (ℕ × String) → BatchResult
unfolding rows_from
with_failures n failures = rows_from failures 0 n

unfoldable all_ok : ℕ → BatchResult
unfolding with_failures
all_ok n = with_failures n []

-- `upload`, with the client as it leaves it
unfoldable fake_upload : FakeUploadClient → List Conversion → Result BatchResult × FakeUploadClient
unfolding all_ok
fake_upload fake conversions =
    let calls = fake.calls ++ conversions ∷ [] in
    elim fake.script [
      | [] ↦ (ok (all_ok (length conversions)), record fake { calls = calls })
      | outcome ∷ rest ↦ (outcome, record { script = rest; calls = calls })
    ]

unfoldable sent_order_ids : FakeUploadClient → List (List String)
sent_order_ids fake = map (λ call. map (λ (c : Conversion). c.order_id) call) fake.calls
