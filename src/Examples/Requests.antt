-- ===== src/Examples/Requests.antt =====
-- The ingest route and its authentication at work.
use conversion_gateway.Prelude.{
  if◌then◌else◌, is_empty, ◌≡◌, refl, true, false, none, some, [], ◌∷◌, ◌==◌,
}
use conversion_gateway.Models.Status.{queued, uploading}
use conversion_gateway.Exec.{ok}
use conversion_gateway.Normalise.Strings.{char_count}
use conversion_gateway.Ledger.{find_event}
use conversion_gateway.Ledger.Ingest.{queued_row}
use conversion_gateway.Dlq.{accept, refuse}
use conversion_gateway.Api.Signature.{
  Bytes, is_ascii, codes, out_of_window, compute_signature, verify, Integer, Primitives, answer,
}
use conversion_gateway.Api.Authentic.{verify-compute_signature}
use conversion_gateway.Api.Ingest.{message_of, ingest_event, accepted_response}
use conversion_gateway.Api.Durable.{correlated, counted, ingest_event-new, ingest_event-duplicate}
use conversion_gateway.Pipeline.{empty_world}
use conversion_gateway.Examples.Data.{lead, row_in, world_in}
use conversion_gateway.Models.Columns.{event_fits}

-- An HMAC that depends on its key alone, and numbers of one text.
abbrev pub toy : Primitives
toy = record {
  utf8 = codes;
  hmac_sha256_hex = λ key message.
      if is_empty key
      then "0000000000000000000000000000000000000000000000000000000000000000"
      else "abababababababababababababababababababababababababababababababab";
  lower = λ t. t;
  parse_int =
      λ t. if t == "100" then some (record { below_zero = false; magnitude = 100 }) else none;
}

abbrev hundred : Integer
hundred = record { below_zero = false; magnitude = 100 }

abbrev pub request : Bytes
request = b'{' ∷ b'}' ∷ []

signs :
    verify toy "key"
      (some "100")
      (some (compute_signature toy "key" "100" request))
      request
      101000000
      5
    ≡ answer none
unfolding verify
signs = refl

plain_timestamp : is_ascii "100" ≡ true
unfolding is_ascii
plain_timestamp = refl

in_window : out_of_window 101000000 hundred 5 ≡ false
unfolding out_of_window
in_window = refl

long_enough : char_count (compute_signature toy "key" "100" request) ≡ 71
unfolding char_count compute_signature
long_enough = refl

plain_signature : is_ascii (compute_signature toy "key" "100" request) ≡ true
unfolding is_ascii compute_signature
plain_signature = refl

verify-compute_signature_example :
    verify toy "key"
      (some "100")
      (some (compute_signature toy "key" "100" request))
      request
      101000000
      5
    ≡ answer none
verify-compute_signature_example =
    verify-compute_signature toy "key" "100" hundred request 101000000 5 refl plain_timestamp refl
      refl in_window long_enough refl plain_signature

ingest_event-new_example :
    (ingest_event refuse lead 5 "c" empty_world ≡ (
      ok (accepted_response 202 "e1" queued "c"),
      (refuse
          (message_of (correlated lead "c") 5 "c")
          (counted (correlated lead "c") 5 empty_world)).1,
    ))
    × (find_event "e1" (counted (correlated lead "c") 5 empty_world).db.events
        ≡ some (queued_row (correlated lead "c") 5))
unfolding find_event event_fits
ingest_event-new_example = ingest_event-new refuse lead 5 "c" empty_world refl refl

ingest_event-duplicate_example :
    ingest_event accept lead 5 "c" (world_in uploading)
    ≡ (ok (accepted_response 200 "e1" uploading "c"), world_in uploading)
unfolding find_event event_fits
ingest_event-duplicate_example =
    ingest_event-duplicate accept lead 5 "c" (row_in uploading) (world_in uploading) refl refl
