-- ===== src/Api/Calendar.antt =====
-- `datetime.fromtimestamp(ms / 1000, tz=UTC)`. The microseconds are exact, where the code divides to a
-- float, which after the year 2242 is off by some microseconds. A year after 9999 is an exception.
use conversion_gateway.Prelude.{
  ltb, if◌then◌else◌, ℕ, ◌+◌, ◌-◌, ◌*◌, ◌/◌, ◌%◌, ◌≡◌, refl, false, Option, none, some,
}
use conversion_gateway.Models.Payload.{CivilTime}

-- The date of a day, counted from 0000-03-01: by eras of 400 years, which begin in March.
abbrev pub date_at : ℕ → ℕ → CivilTime
date_at days micros =
    let era = days / 146097 in
    let day_of_era = days % 146097 in
    let year_of_era =
      (day_of_era - day_of_era / 1460 + day_of_era / 36524 - day_of_era / 146096) / 365 in
    let day_of_year = day_of_era - (365 * year_of_era + year_of_era / 4 - year_of_era / 100) in
    let from_march = (5 * day_of_year + 2) / 153 in
    let year = year_of_era + 400 * era in
    record {
      year = if ltb from_march 10 then year else year + 1;
      month = if ltb from_march 10 then from_march + 3 else from_march - 9;
      day = day_of_year - (153 * from_march + 2) / 5 + 1;
      hour = micros / 3600000000;
      minute = micros / 60000000 % 60;
      second = micros / 1000000 % 60;
      microsecond = micros % 1000000;
      west_of_utc = false;
      offset_minutes = 0;
    }

-- `none` is a ValueError or an OverflowError.
unfoldable pub from_epoch_millis : ℕ → Option CivilTime
from_epoch_millis ms =
    if ltb ms 253402300800000
    then some (date_at (ms / 86400000 + 719468) (ms % 86400000 * 1000))
    else none

seeded_time :
    from_epoch_millis 1790069400000
    ≡ some (record {
      year = 2026;
      month = 9;
      day = 22;
      hour = 9;
      minute = 30;
      second = 0;
      microsecond = 0;
      west_of_utc = false;
      offset_minutes = 0;
    })
unfolding from_epoch_millis
seeded_time = refl
