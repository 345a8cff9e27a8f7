-- ===== src/Cli/Listing.antt =====
-- What the operator's commands print: `dlq_list`, `dlq_show` and the lines of `reconcile` in
-- src/gateway/cli.py. A datetime is read as microseconds since datetime.min in UTC.
use conversion_gateway.Prelude.{
  nat_eq, if◌then◌else◌, length, is_some, ◌<>◌, join, str_of, ℕ, zero, suc, ◌+◌, ◌-◌, ◌/◌, ◌%◌,
  String, ◌≡◌, refl, Bool, Option, none, some, List, [], ◌∷◌, map,
}
use conversion_gateway.Normalise.Strings.{char_count}
use conversion_gateway.Models.Status.{status_value}
use conversion_gateway.Models.Rows.{Event, Attempt, DeadLetter}
use conversion_gateway.Models.Payload.{CivilTime}
use conversion_gateway.Exec.{Exec, pure, ◌>>=◌}
use conversion_gateway.Dlq.{list_dead_letters, get_dead_letter, DlqFilter}
use conversion_gateway.Upload.Json.{Json, null, integer, text, array, object, end, field}
use conversion_gateway.Upload.Wire.{or_null, items_of, row_json}
use conversion_gateway.Upload.Conversion.{padded}
use conversion_gateway.Api.Calendar.{date_at}
use conversion_gateway.Cli.{is_recoverable}

-- `{s:>n}` and `{s:<n}`
spaces : ℕ → String
spaces zero = ""
spaces (suc n) = " " <> spaces n

unfoldable to_right : ℕ → String → String
unfolding spaces char_count
to_right width s = spaces (width - char_count s) <> s

unfoldable to_left : ℕ → String → String
unfolding spaces char_count
to_left width s = s <> spaces (width - char_count s)

-- 0001-01-01 is the 307th day from 0000-03-01.
abbrev utc_time : ℕ → CivilTime
utc_time micros = date_at (micros / 86400000000 + 306) (micros % 86400000000)

-- `isoformat(timespec="seconds")`, and `isoformat()`, which adds microseconds other than zero
unfoldable iso_date_time : CivilTime → String
unfolding padded
iso_date_time t =
    padded 4 t.year
    <> ("-"
        <> (padded 2 t.month
            <> ("-"
                <> (padded 2 t.day
                    <> ("T"
                        <> (padded 2 t.hour
                            <> (":" <> (padded 2 t.minute <> (":" <> padded 2 t.second)))))))))

unfoldable iso_seconds : ℕ → String
unfolding iso_date_time
iso_seconds micros = iso_date_time (utc_time micros) <> "+00:00"

unfoldable iso_full : ℕ → String
unfolding iso_date_time padded
iso_full micros =
    let fraction = if nat_eq (micros % 1000000) 0 then "" else "." <> padded 6 (micros % 1000000) in
    iso_date_time (utc_time micros) <> (fraction <> "+00:00")

-- One line of `dlq_list`.
unfoldable dlq_line : DeadLetter → String
unfolding to_right to_left iso_seconds str_of
dlq_line r =
    to_right 6 (str_of r.id)
    <> ("  "
        <> (to_left 25 (iso_seconds r.dead_lettered_at)
            <> (" "
                <> (to_left 11 r.source
                    <> (" "
                        <> (to_left 9 r.failure_class
                            <> (" "
                                <> (to_left 32 r.event_id
                                    <> (" "
                                        <> (r.reason
                                            <> (if is_some r.replayed_at
                                                then " (replayed)\n"
                                                else "\n")))))))))))

abbrev dlq_head : String
dlq_head =
    to_right 6 "id"
    <> ("  "
        <> (to_left 25 "dead_lettered_at"
            <> (" "
                <> (to_left 11 "source"
                    <> (" "
                        <> (to_left 9 "class"
                            <> (" " <> (to_left 32 "event_id" <> " reason\n"))))))))

-- What `dlq_list` writes, and how many rows there are.
unfoldable dlq_text : List DeadLetter → ℕ × String
unfolding dlq_line join str_of
dlq_text [] = (0, "no dead-lettered events match\n")
dlq_text (r ∷ rs) =
    let rows = r ∷ rs in
    (length rows, dlq_head <> (join "" (map dlq_line rows) <> (str_of (length rows) <> " shown\n")))

unfoldable pub dlq_list : DlqFilter → Exec (ℕ × String)
unfolding list_dead_letters dlq_text
dlq_list flt = list_dead_letters flt 100 >>= λ rows. pure (dlq_text rows)

abbrev time_or_null : Option ℕ → Json
time_or_null none = null
time_or_null (some at) = text (iso_full at)

-- An item of `attempt_history`, as the store wrote it.
abbrev attempt_json : Attempt → Json
attempt_json a = object (
    field "at" (text (iso_full a.at))
      (field "status" (text (status_value a.status)) (field "reason" (or_null a.reason) end)))

-- The record that `dlq_show` prints as JSON.
unfoldable letter_json : DeadLetter → Json
unfolding iso_full row_json items_of
letter_json row = object (
    field "id" (integer row.id) (
      field "event_id" (text row.event_id) (
        field "source" (text row.source) (
          field "conversion_action" (or_null row.conversion_action) (
            field "dead_lettered_at" (text (iso_full row.dead_lettered_at)) (
              field "failure_class" (text row.failure_class) (
                field "reason" (text row.reason) (
                  field "platform_error_code" (or_null row.platform_error_code) (
                    field "platform_error_message" (or_null row.platform_error_message) (
                      field "replayed_at" (time_or_null row.replayed_at) (
                        field "replay_count" (integer row.replay_count) (
                          field "payload" (row_json row.payload) (
                            field "attempt_history"
                              (array (items_of (map attempt_json row.attempt_history)))
                              end)))))))))))))

-- `dlq_show`, with `none` for its False
unfoldable pub dlq_show : ℕ → Exec (Option Json)
unfolding get_dead_letter letter_json
dlq_show dlq_id = get_dead_letter dlq_id >>= λ found.
    pure (elim found [ some row ↦ some (letter_json row) | none ↦ none ])

-- What `reconcile` says of a row, and the lines that it writes of each.
abbrev action_of : Bool → Event → String
action_of republish e =
    if is_recoverable e
    then (if republish then "republished" else "recoverable; rerun with --republish")
    else "needs CRM resend (identifiers not retained)"

unfoldable reconcile_line : Bool → ℕ → Event → String
unfolding to_left to_right str_of
reconcile_line republish now e =
    to_left 40 e.event_id
    <> (" "
        <> (to_left 11 e.source
            <> (" "
                <> (to_right 7 (str_of ((now - e.received_at) / 1000000))
                    <> ("  " <> (action_of republish e <> "\n"))))))

dlq_time : iso_full 63900000000000500 ≡ "2025-11-29T08:00:00.000500+00:00"
unfolding iso_full str_of
dlq_time = refl
