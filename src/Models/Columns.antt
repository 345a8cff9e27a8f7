-- ===== src/Models/Columns.antt =====
-- What the columns of src/gateway/models/ledger.py hold: VARCHAR of a width, and NUMERIC(18, 6).
-- Postgres raises a DataError for a longer text, for one with a NUL character and for a larger
-- number.
use conversion_gateway.Prelude.{
  ltb, leb, nat_eq, ℕ, ◌^◌, String, code, Bool, true, ◌&&◌, not, Option, none, some,
}
use conversion_gateway.Normalise.Strings.{char_count, all_chars}
use conversion_gateway.Models.Payload.{Decimal}
use conversion_gateway.Models.Rows.{Event}

-- `String(width)`
unfoldable text_fits : ℕ → String → Bool
unfolding char_count all_chars
text_fits width t = leb (char_count t) width && all_chars (λ c. not (nat_eq (code c) 0)) t

unfoldable maybe_fits : ℕ → Option String → Bool
unfolding text_fits
maybe_fits width none = true
maybe_fits width (some t) = text_fits width t

-- `Numeric(18, 6)`
unfoldable number_fits : Option Decimal → Bool
number_fits none = true
number_fits (some d) = ltb d.micros (10 ^ 18)

-- The columns of `Event` whose values come from outside. The other text columns hold members of enums.
unfoldable pub event_fits : Event → Bool
unfolding text_fits maybe_fits number_fits
event_fits e =
    text_fits 255 e.event_id
    && text_fits 255 e.source_event_id
    && maybe_fits 32 e.correlation_id
    && maybe_fits 255 e.conversion_action
    && number_fits e.conversion_value
    && maybe_fits 3 e.currency
    && maybe_fits 255 e.click_id

-- The column of `DeadLetter` whose width a value from the platform may exceed. The reason is a
-- fixed text around this code or around a count and fits where it does, and the message is cut to
-- its width; a NUL character in the message is left out of account.
unfoldable pub code_fits : Option String → Bool
unfolding maybe_fits
code_fits code = maybe_fits 128 code
