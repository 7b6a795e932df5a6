-- ===== src/Guard/Session.antt =====
-- SessionGuard (guards/session_guard.py). The conversion to the session's time zone is Python's
-- zoneinfo, an argument; the rules then read the fields of the local datetime.
pub mod Week
use trading_snapshot.Base.{
  ℕ, ◌+◌, ◌*◌, ◌%◌, Bool, true, false, not, ◌&&◌, Option, none, some, is_some, ltb, leb, ◌==◌,
  if◌then◌else◌,
}

-- A datetime of the session's zone; `day` is `toordinal()`.
pub record LocalTime : Type 0 where
  pub day : ℕ
  pub hour : ℕ
  pub minute : ℕ
  pub second : ℕ
  pub microsecond : ℕ

pub record Config : Type 0 where
  pub no_trade_hour : ℕ
  pub no_trade_minute : ℕ
  pub force_close_hour : ℕ
  pub force_close_minute : ℕ

-- What the broker's clock returns: a naive datetime, or an instant with a zone.
pub data Reading (U : Type 0) : Type 0 where
  naive : LocalTime → Reading U
  aware : U → Reading U

unfoldable pub now : {U : Type 0} → (U → LocalTime) → Reading U → LocalTime
now astimezone (naive t) = t
now astimezone (aware u) = astimezone u

-- Monday is 0.
unfoldable pub weekday : LocalTime → ℕ
weekday t = (t.day + 6) % 7

-- `t.replace(hour=h, minute=m, second=0, microsecond=0)`; `none` is the ValueError.
unfoldable pub replace : ℕ → ℕ → LocalTime → Option LocalTime
replace h m t =
    if ltb h 24 && ltb m 60
    then some (record t { hour = h; minute = m; second = 0; microsecond = 0 })
    else none

-- `a >= b` of datetimes in one zone compares the fields in this order.
abbrev pub ge_fields : LocalTime → LocalTime → Bool
ge_fields a b =
    if ltb b.day a.day
    then true
    else if ltb a.day b.day
    then false
    else if ltb b.hour a.hour
    then true
    else if ltb a.hour b.hour
    then false
    else if ltb b.minute a.minute
    then true
    else if ltb a.minute b.minute
    then false
    else if ltb b.second a.second
    then true
    else if ltb a.second b.second
    then false
    else leb b.microsecond a.microsecond

pub data Reason : Type 0 where
  weekend friday_no_trade : Reason

abbrev pub friday_reason : LocalTime → Option LocalTime → Option (Option Reason)
friday_reason t none = none
friday_reason t (some cutoff) = some (if ge_fields t cutoff then some friday_no_trade else none)

-- The outer `none` is the ValueError of a configured time that does not exist.
unfoldable pub reason : Config → LocalTime → Option (Option Reason)
unfolding replace
reason c t =
    if leb 5 (weekday t)
    then some (some weekend)
    else if weekday t == 4
    then friday_reason t (replace c.no_trade_hour c.no_trade_minute t)
    else some none

abbrev pub allowed_by : Option (Option Reason) → Option Bool
allowed_by none = none
allowed_by (some r) = some (not (is_some r))

unfoldable pub trading_allowed : Config → LocalTime → Option Bool
unfolding reason
trading_allowed c t = allowed_by (reason c t)

abbrev pub reached : LocalTime → Option LocalTime → Option Bool
reached t none = none
reached t (some flatten_time) = some (ge_fields t flatten_time)

unfoldable pub must_flatten_positions : Config → LocalTime → Option Bool
unfolding replace
must_flatten_positions c t =
    if weekday t == 4
    then reached t (replace c.force_close_hour c.force_close_minute t)
    else some false
