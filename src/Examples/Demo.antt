-- ===== src/Examples/Demo.antt =====
-- The demo traffic's parts on concrete inputs.
use conversion_gateway.Prelude.{ℕ, ◌+◌, ◌≡◌, refl, false, []}
use conversion_gateway.Upload.Json.{null, integer, text, object, end, field}
use conversion_gateway.Exec.{ok}
use conversion_gateway.Api.Signature.{codes}
use conversion_gateway.Seed.{updated, from_bytes, seed, SeedClient}
use conversion_gateway.Examples.Requests.{toy}
use conversion_gateway.Normalise.Strings.{text_in}

later_wins :
    updated "b" null (field "a" null (field "b" (integer 1) end))
    ≡ field "a" null (field "b" null end)
unfolding updated
later_wins = refl

first_id : from_bytes 0 (codes "7a") ≡ 14177
unfolding from_bytes codes
first_id = refl

-- A client that answers every post with 202 and the event's id, and every event with UPLOADED.
abbrev answers_all : SeedClient ℕ
answers_all = record {
  post = λ p n. (
    ok (record { status_code = 202; json = ok (object (field "event_id" (text "e") end)) }),
    n + 1,
  );
  get_json = λ id n. (ok (object (field "status" (text "UPLOADED") end)), n);
  seconds = λ n. 100;
  dumps = λ j. [];
}

-- The third event should have been suppressed.
finds_mismatch : seed (λ j. "?") toy answers_all "key" "other" "7" 3 0 ≡ (ok false, 7)
unfolding seed text_in
finds_mismatch = refl
