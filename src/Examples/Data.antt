-- ===== src/Examples/Data.antt =====
-- Sample values: libraries that leave a text as it is, an event in each state, small worlds.
use conversion_gateway.Prelude.{
  leb, nat_eq, ◌<>◌, String, code, true, false, ◌&&◌, none, some, List, [], ◌∷◌, map,
}
use conversion_gateway.Models.Status.{EventStatus, hubspot}
use conversion_gateway.Models.Payload.{CivilTime, Conversion}
use conversion_gateway.Models.Rows.{Event, DeadLetter}
use conversion_gateway.Models.Message.{no_identifiers, RawIdentifiers, QueueMessage}
use conversion_gateway.Models.Canonical.{CanonicalLeadEvent}
use conversion_gateway.Consent.{ConsentSignals, granted}
use conversion_gateway.Exec.{World, transient_upload, ok, err}
use conversion_gateway.Normalise.Libs.{Libs}
use conversion_gateway.Upload.Client.{RowResult}
use conversion_gateway.Upload.Backoff.{RetryPolicy}
use conversion_gateway.Upload.Uploader.{UploadClient, Claimed, Settings}

abbrev pub plain_libs : Libs
plain_libs = record {
  is_space = λ c. nat_eq (code c) 32;
  lower = λ t. t;
  upper = λ t. t;
  is_alpha = λ c. leb b'A' (code c) && leb (code c) b'Z';
  nfkd = λ t. t;
  is_mark = λ c. false;
  is_punctuation = λ c. false;
  PhoneNumber = String;
  parse_phone = λ t region. some t;
  is_valid_number = λ n. true;
  format_e164 = λ n. n;
  sha256_hex = λ t. "#" <> t;
}

abbrev pub noon : CivilTime
noon = record {
  year = 2026;
  month = 1;
  day = 2;
  hour = 12;
  minute = 0;
  second = 0;
  microsecond = 0;
  west_of_utc = false;
  offset_minutes = 0;
}

abbrev pub with_email : RawIdentifiers
with_email = record no_identifiers { email = some "ann@example.com" }

abbrev pub both_given : ConsentSignals
both_given = record { ad_user_data = some granted; ad_personalization = some granted }

abbrev pub lead : CanonicalLeadEvent
lead = record {
  event_id = "e1";
  source = hubspot;
  source_event_id = "h-1";
  correlation_id = none;
  conversion_action = "signup";
  conversion_time = noon;
  conversion_value = none;
  currency = none;
  click_id = none;
  identifiers = with_email;
  consent = both_given;
}

abbrev pub lead_message : QueueMessage
lead_message = record {
  event_id = "e1";
  identifiers = with_email;
  enqueued_at = 5;
  correlation_id = none;
}

-- The event's row in a state.
abbrev pub row_in : EventStatus → Event
row_in status = record {
  event_id = "e1";
  source = "hubspot";
  source_event_id = "h-1";
  received_at = 3;
  correlation_id = none;
  conversion_action = some "signup";
  conversion_time = some noon;
  conversion_value = none;
  currency = none;
  match_key_type = some "user_identifiers";
  click_id = none;
  hashed_identifiers = none;
  consent_ad_user_data = some "GRANTED";
  consent_ad_personalization = some "GRANTED";
  status = status;
  status_reason = none;
  attempt_count = 1;
  last_attempt_at = none;
}

abbrev pub world_of : List Event → List DeadLetter → World
world_of events dead_letters = record {
  db = record {
    events = events;
    transitions = [];
    dead_letters = dead_letters;
    next_dead_letter_id = 2;
  };
  metrics = [];
  published = [];
}

abbrev pub world_in : EventStatus → World
world_in status = world_of (row_in status ∷ []) []

abbrev pub conversion : Conversion
conversion = record {
  conversion_action = "customers/1/conversionActions/signup";
  conversion_date_time = "2026-01-02 12:00:00+00:00";
  order_id = "e1";
  conversion_value = none;
  currency_code = none;
  gclid = some "click";
  user_identifiers = [];
  consent = none;
}

abbrev pub dead_row : DeadLetter
dead_row = record {
  id = 1;
  event_id = "e1";
  source = "hubspot";
  conversion_action = some "signup";
  dead_lettered_at = 4;
  failure_class = "poison";
  reason = "poison:http_503:after_3_attempts";
  platform_error_code = some "http_503";
  platform_error_message = none;
  payload = conversion;
  attempt_history = [];
  replayed_at = none;
  replay_count = 0;
}

abbrev pub in_batch : Claimed
in_batch = record { event_id = "e1"; attempt_count = 2; conversion = conversion }

abbrev pub good_row : RowResult
good_row = record { index = 0; ok = true; error_code = none; message = none }

abbrev pub bad_row : RowResult
bad_row = record {
  index = 0;
  ok = false;
  error_code = some "INVALID_GCLID";
  message = some "no such click";
}

abbrev pub three_attempts : RetryPolicy
three_attempts = record { max_attempts = 3; max_elapsed_seconds = 60 }

abbrev pub settings : Settings
settings = record {
  customer_id = "1";
  row_retry_after = 10;
  stale_after = 20;
  max_row_attempts = 5;
  policy = three_attempts;
}

-- A platform that takes every row, and one that never answers.
abbrev pub takes_all : UploadClient
takes_all conversions w = (ok (map (λ (c : Conversion). good_row) conversions), w)

abbrev pub times_out : UploadClient
times_out conversions w = (err (transient_upload "timeout"), w)
