-- ===== src/Cli/Commands.antt =====
-- The commands themselves: the typer layer, `build_uploader` and `queue_init` of
-- src/gateway/cli.py. Parsing of arguments is typer's; `datetime.fromisoformat` is a parameter.
use conversion_gateway.Config
use conversion_gateway.Upload.Uploader
use conversion_gateway.Prelude.{
  ltb, nat_eq, if◌then◌else◌, is_some, truthy, ℕ, zero, suc, ◌*◌, String, Bool, false, ◌&&◌, ◌||◌,
  not, Option, none, some,
}
use conversion_gateway.Exec.{
  Exec, pure, or_raise, ◌>>=◌, ◌>>◌, value_error, overflow_error, Result, ok, err,
}
use conversion_gateway.Dlq.{DlqFilter, Publisher}
use conversion_gateway.Upload.Batcher.{make_batcher, Batcher}
use conversion_gateway.Upload.Uploader.{UploadClient, Claimed}
use conversion_gateway.Config.{memory, pubsub}
use conversion_gateway.Cli.{reconcile, dlq_replay}
use conversion_gateway.Cli.Listing.{dlq_list, dlq_show}
use conversion_gateway.Upload.Json.{◌>>?◌}
use conversion_gateway.Queue.PubSub.{ensure_topic_and_subscription, PubSubClient}
use conversion_gateway.Queue.{Codec}

-- `datetime.fromisoformat`, with `none` for its ValueError; `naive` is read as UTC.
pub record ParsedTime : Type 0 where
  pub micros : ℕ
  pub has_offset : Bool

-- An exit code, after what was done.
abbrev Exit : Type 0
Exit = Exec ℕ

-- `timedelta(seconds=…)` in microseconds: at most 999999999 days.
unfoldable timedelta : ℕ → Result ℕ
timedelta seconds =
    if ltb seconds 86400000000000 then ok (seconds * 1000000) else err overflow_error

-- What `build_uploader` puts together: the client, the settings with the retry policy, and the
-- batcher that the constructor makes. The construction of the HTTP client, which may raise, is an
-- argument.
unfoldable build_uploader :
    (String → String → ℕ → Result UploadClient)
    → Config.Settings
    → Result (UploadClient × Uploader.Settings × Batcher Claimed)
unfolding timedelta make_batcher
build_uploader make_client s =
    make_client s.ads_api_base_url s.ads_api_token s.ads_api_timeout_seconds >>? λ client.
    timedelta s.upload_row_retry_after_seconds >>? λ row_retry_after.
    timedelta s.upload_stale_after_seconds >>? λ stale_after.
    make_batcher s.upload_batch_size s.upload_batch_wait_seconds >>? λ batcher. ok (
      client,
      record {
        customer_id = s.ads_customer_id;
        row_retry_after = row_retry_after;
        stale_after = stale_after;
        max_row_attempts = s.upload_max_attempts;
        policy = record {
          max_attempts = s.upload_max_attempts;
          max_elapsed_seconds = s.upload_max_elapsed_seconds;
        };
      },
      batcher,
    )

-- `older_than or settings.reconcile_stuck_after_seconds`
abbrev or_setting : Option ℕ → ℕ → ℕ
or_setting none setting = setting
or_setting (some zero) setting = setting
or_setting (some (suc n)) setting = suc n

unfoldable reconcile_cmd : Publisher → Config.Settings → Option ℕ → Bool → ℕ → Exit
unfolding reconcile
reconcile_cmd publish settings older_than republish now =
    reconcile publish (or_setting older_than settings.reconcile_stuck_after_seconds) republish now
    >>= λ found. pure (if nat_eq found 0 then 0 else 1)

unfoldable dlq_show_cmd : ℕ → Exit
unfolding dlq_show
dlq_show_cmd dlq_id = dlq_show dlq_id >>= λ shown. pure (if is_some shown then 0 else 1)

-- The options of `dlq list` and `dlq replay`.
pub record FilterOptions : Type 0 where
  pub source : Option String
  pub failure_class : Option String
  pub reason : Option String
  pub since : Option String
  pub until : Option String

-- `any((source, failure_class, reason, since, until))`
unfoldable pub any_given : FilterOptions → Bool
any_given o =
    truthy o.source || truthy o.failure_class || truthy o.reason || truthy o.since || truthy o.until

module _ (from_iso : String → Option ParsedTime) where
  -- `_parse_when`: a time without an offset is in UTC, so either way it is these microseconds.
  unfoldable pub parse_when : Option String → Exec (Option ℕ)
  parse_when none = pure none
  parse_when (some value) =
      or_raise (from_iso value) value_error >>= λ (parsed : ParsedTime). pure (some parsed.micros)

  unfoldable pub filter_options : FilterOptions → Bool → Exec DlqFilter
  unfolding parse_when
  filter_options o include_replayed = do
    since ← parse_when o.since
    until ← parse_when o.until
    pure (record {
      event_id = none;
      source = o.source;
      failure_class = o.failure_class;
      reason_prefix = o.reason;
      since = since;
      until = until;
      include_replayed = include_replayed;
    })

  unfoldable dlq_list_cmd : FilterOptions → Bool → Exec (ℕ × String)
  unfolding filter_options dlq_list
  dlq_list_cmd o include_replayed = filter_options o include_replayed >>= dlq_list

  unfoldable pub replayed : Publisher → FilterOptions → Option ℕ → ℕ → Exit
  unfolding filter_options dlq_replay
  replayed publish o id now =
      filter_options o false >>= λ flt. dlq_replay publish flt id now >> pure 0

  -- `dlq_replay_cmd`: exit code 2 where there is neither an id nor a filter
  unfoldable pub dlq_replay_cmd : Publisher → FilterOptions → Option ℕ → ℕ → Exit
  unfolding any_given replayed
  dlq_replay_cmd publish o id now =
      if not (is_some id) && not (any_given o) then pure 2 else replayed publish o id now

module _ {Q Bytes : Type 0} (codec : Codec Bytes) (client : PubSubClient Q Bytes) where
  unfoldable queue_init : Config.Settings → Q → Result (Unit {0}) × Q
  unfolding ensure_topic_and_subscription
  queue_init s q = elim s.queue_backend [
    | memory ↦ (ok tt, q)
    | pubsub ↦
        ensure_topic_and_subscription codec client s.pubsub_project_id s.pubsub_topic
          s.pubsub_subscription q
  ]
