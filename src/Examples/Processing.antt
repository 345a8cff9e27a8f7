-- ===== src/Examples/Processing.antt =====
-- The processor's theorems at work, on one queued lead.
use conversion_gateway.Prelude.{◌<>◌, ◌≡◌, refl, true, none, some, []}
use conversion_gateway.Models.Status.{queued}
use conversion_gateway.Models.Rows.{Event}
use conversion_gateway.Exec.{World, Result, ok}
use conversion_gateway.Normalise.Strings.{text_in}
use conversion_gateway.Normalise.Fields.{canonical_address, normalise_email}
use conversion_gateway.Normalise.Identifiers.{has_match_key, build_user_identifiers}
use conversion_gateway.Normalise.Mailbox.{canonical_address-mailbox}
use conversion_gateway.Normalise.MatchKey.{counted_rejections-has_match_key}
use conversion_gateway.Ledger.{find_event, record_validated}
use conversion_gateway.Ledger.Ingest.{queued_row}
use conversion_gateway.Processor.{
  consent_from_row, counted_rejections, process_message, ProcessOutcome, processed,
  skipped_not_queued,
}
use conversion_gateway.Processor.Decision.{decide, process_message-decide}
use conversion_gateway.Processor.Gated.{ReadsGranted, processed-granted}
use conversion_gateway.Processor.Redelivery.{process_message-again, record_validated-process}
use conversion_gateway.Pipeline.{empty_world}
use conversion_gateway.Examples.Data.{
  plain_libs, with_email, both_given, lead, lead_message, row_in, world_in,
}
use conversion_gateway.Models.Columns.{event_fits}

abbrev queued_event : Event
queued_event = row_in queued

abbrev start : World
start = world_in queued

readable : consent_from_row queued_event start ≡ (ok both_given, start)
unfolding consent_from_row
readable = refl

found : find_event "e1" start.db.events ≡ some queued_event
unfolding find_event
found = refl

process_message-decide_example :
    ((process_message plain_libs lead_message 9 start).0
      ≡ ok (decide plain_libs both_given queued_event with_email).0)
    × (find_event "e1" (process_message plain_libs lead_message 9 start).1.db.events
        ≡ some (decide plain_libs both_given queued_event with_email).1)
process_message-decide_example =
    process_message-decide plain_libs lead_message 9 queued_event both_given start found refl
      readable

is_processed : (process_message plain_libs lead_message 9 start).0 ≡ ok processed
unfolding process_message normalise_email
is_processed = refl

processed-granted_example :
    (e : Event) × (find_event "e1" start.db.events ≡ some e)
    × (e.status ≡ queued)
    × ReadsGranted e start
processed-granted_example = processed-granted plain_libs lead_message 9 start is_processed

process_message-again_example :
    process_message plain_libs lead_message 12 (process_message plain_libs lead_message 9 start).1
    ≡ (ok skipped_not_queued, (process_message plain_libs lead_message 9 start).1)
process_message-again_example =
    process_message-again plain_libs lead_message lead_message 9 12 queued_event both_given start
      found refl readable refl

abbrev after_ingest : Result ProcessOutcome × World
after_ingest = process_message plain_libs lead_message 9 (record_validated lead 5 empty_world).1

record_validated-process_example :
    (after_ingest.0 ≡ ok (decide plain_libs both_given (queued_row lead 5) with_email).0)
    × (find_event "e1" after_ingest.1.db.events
        ≡ some (decide plain_libs both_given (queued_row lead 5) with_email).1)
unfolding find_event event_fits
record_validated-process_example =
    record_validated-process plain_libs lead lead_message 5 9 empty_world refl refl refl

no_rejection :
    counted_rejections none (build_user_identifiers plain_libs with_email).rejections ≡ []
unfolding build_user_identifiers normalise_email
no_rejection = refl

counted_rejections-has_match_key_example :
    has_match_key (build_user_identifiers plain_libs with_email).identifiers ≡ true
counted_rejections-has_match_key_example =
    counted_rejections-has_match_key plain_libs with_email none refl no_rejection

canonical_address-mailbox_example :
    (canonical_address ("ann" <> ("." <> "lee")) "gmail.com"
      ≡ canonical_address ("ann" <> "lee") "gmail.com")
    × (canonical_address ("ann" <> ("+" <> "ads")) "gmail.com"
        ≡ canonical_address "ann" "gmail.com")
unfolding text_in
canonical_address-mailbox_example = canonical_address-mailbox "ann" "lee" "ads" "gmail.com" refl
