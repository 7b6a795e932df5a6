-- ===== src/Guard/Session/Week.antt =====
-- The session rules (guards/session_guard.py) as one interval of the week.
use trading_snapshot.Base.{ℕ, ◌+◌, ◌*◌, ◌<◌, some, ltb, leb, ◌≡◌, arith}
use trading_snapshot.Guard.Session.{LocalTime, Config, weekday, ge_fields, trading_allowed}

-- Microseconds since midnight, and since Monday.
abbrev pub of_day : ℕ → ℕ → ℕ → ℕ → ℕ
of_day h m s us = ((h * 60 + m) * 60 + s) * 1000000 + us

abbrev pub day_length : ℕ
day_length = 86400000000

pub week_moment : LocalTime → ℕ
week_moment t = weekday t * day_length + of_day t.hour t.minute t.second t.microsecond

-- The range of the fields of a Python datetime.
pub record IsDatetime (t : LocalTime) : Type 0 where
  pub hour : t.hour < 24
  pub minute : t.minute < 60
  pub second : t.second < 60
  pub microsecond : t.microsecond < 1000000

pub record IsConfigured (c : Config) : Type 0 where
  pub no_trade_hour : c.no_trade_hour < 24
  pub no_trade_minute : c.no_trade_minute < 60
  pub force_close_hour : c.force_close_hour < 24
  pub force_close_minute : c.force_close_minute < 60

-- The comparison of the fields, on one day, is that of the microseconds since midnight.
ge_fields-of_day :
    (h m : ℕ) (t : LocalTime)
    → IsDatetime t
    → h < 24
    → m < 60
    → ge_fields t (record t { hour = h; minute = m; second = 0; microsecond = 0 })
      ≡ leb (of_day h m 0 0) (of_day t.hour t.minute t.second t.microsecond)
ge_fields-of_day h m t v p q = ground arith

weekday-lt : (t : LocalTime) → weekday t < 7
unfolding weekday
weekday-lt t = omega arith

-- For a datetime with its fields in range, and configured times that exist, trading is allowed
-- exactly from Monday 00:00 until the cutoff of Friday.
pub trading_allowed-week :
    (c : Config) (t : LocalTime)
    → IsDatetime t
    → IsConfigured c
    → trading_allowed c t
      ≡ some (ltb (week_moment t) (4 * day_length + of_day c.no_trade_hour c.no_trade_minute 0 0))
unfolding trading_allowed week_moment
trading_allowed-week c t v k = ground (
  arith,
  weekday-lt t,
  ge_fields-of_day c.no_trade_hour c.no_trade_minute t v k.no_trade_hour k.no_trade_minute,
)
