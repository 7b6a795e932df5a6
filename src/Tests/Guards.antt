-- ===== src/Tests/Guards.antt =====
-- The guards (guards/*.py) on short runs.
use trading_snapshot.Base.{◌+◌, ◌*◌, true, false, none, some, List, [], ◌∷◌, ◌≡◌, refl, arith, ltb}
use trading_snapshot.Base.Int.{ℤ, pos, ltb_ℤ, leb_ℤ, ◌-ℤ◌}
use trading_snapshot.Base.Float.{whole, abs}
use trading_snapshot.Guard.Kill.{KillSwitch, attribute_error, can_trade, trigger}
use trading_snapshot.Guard.Kill.Latch
use trading_snapshot.Guard.Execution.{Config, ExecutionGuard, initial, pending_timed_out}
use trading_snapshot.Guard.Execution
use trading_snapshot.Guard.Execution.Throttle
use trading_snapshot.Guard.Market
use trading_snapshot.Guard.Market.Baseline
use trading_snapshot.Guard.Session
use trading_snapshot.Guard.Session.Week.{
  IsDatetime, IsConfigured, week_moment, of_day, day_length, trading_allowed-week,
}

abbrev switch : KillSwitch
switch = record {
  has_alerts = true;
  triggered = false;
  reason = none;
  desync_failures = 0;
  broker_failures = 0;
  max_desync_failures = 2;
  max_broker_failures = 3;
  sent = [];
}

abbrev tripped : KillSwitch
tripped = record switch { triggered = true; reason = some "REPEATED POSITION DESYNC" }

steps-latched_example :
    (can_trade (Latch.steps (Latch.desync_ok ∷ Latch.triggers "again" ∷ []) tripped) ≡ false)
    × ((Latch.steps (Latch.desync_ok ∷ Latch.triggers "again" ∷ []) tripped).reason
        ≡ some "REPEATED POSITION DESYNC")
steps-latched_example =
    Latch.steps-latched (Latch.desync_ok ∷ Latch.triggers "again" ∷ []) tripped refl

abbrev silent : KillSwitch
silent = record switch { has_alerts = false }

trigger-latches_example :
    (can_trade (trigger "x" silent).0 ≡ false)
    × ((trigger "x" silent).0.reason ≡ some "x")
    × ((trigger "x" silent).1 ≡ attribute_error)
trigger-latches_example = Latch.trigger-latches "x" silent

-- A two-second cooldown.
abbrev execution : Config
execution = record { execution_cooldown = pos 2000000; pending_timeout = pos 5000000 }

abbrev orders : List Throttle.Event
orders =
    Throttle.try_send (pos 100)
    ∷ Throttle.try_send (pos 200)
    ∷ Throttle.filled
    ∷ Throttle.try_send (pos 2000099)
    ∷ Throttle.try_send (pos 2000100)
    ∷ []

sends-orders : Throttle.sends execution orders initial ≡ pos 100 ∷ pos 2000100 ∷ []
unfolding Throttle.sends Throttle.step Execution.can_send_order Execution.mark_order_sent
    Execution.mark_fill_success ◌-ℤ◌
sends-orders = refl

sends-IsSpaced_example : Throttle.IsSpaced execution none (Throttle.sends execution orders initial)
sends-IsSpaced_example = Throttle.sends-IsSpaced execution orders initial

-- A point of one, spreads and jumps of at most ten points.
abbrev market : Market.MarketConfig whole
market = record {
  point = some (pos 1);
  max_spread_points = pos 10;
  max_tick_age_sec = pos 30;
  max_tick_jump_points = pos 10;
  max_stale_price_sec = some (pos 60);
}

abbrev based : Market.MarketGuard whole
based = record {
  last_bid = some (pos 100);
  last_tick_time = some (pos 1000);
  last_price_change_time = some (pos 1000);
  jump_candidate_bid = none;
  blocked_reason = none;
}

abbrev calm : Market.Tick whole
calm = record { bid = pos 105; ask = pos 106; time = Market.at (pos 1000) }

calm-allowed :
    Market.can_trade whole (Market.update whole market (pos 1001) (some calm) based) ≡ true
unfolding Market.can_trade Market.update Market.entry Market.after_entry Market.settle abs ◌-ℤ◌
calm-allowed = refl

update-allows_example :
    (p : ℤ) × Baseline.IsSound whole market (pos 1001) calm p
    × Baseline.IsNear whole market p (pos 105) based
    × ((Market.update whole market (pos 1001) (some calm) based).last_bid ≡ some (pos 105))
update-allows_example = Baseline.update-allows whole market (pos 1001) calm based calm-allowed

abbrev leap : Market.Tick whole
leap = record { bid = pos 200; ask = pos 201; time = Market.at (pos 1001) }

abbrev leap_again : Market.Tick whole
leap_again = record { bid = pos 204; ask = pos 205; time = Market.at (pos 1002) }

leap-measured : Market.entry whole market (pos 1001) leap ≡ Market.measured (pos 1)
unfolding Market.entry ◌-ℤ◌
leap-measured = refl

leap_again-measured : Market.entry whole market (pos 1002) leap_again ≡ Market.measured (pos 1)
unfolding Market.entry ◌-ℤ◌
leap_again-measured = refl

far-leap : ltb_ℤ (pos 10) (Market.jump_points whole (pos 1) (pos 200) (pos 100)) ≡ true
unfolding abs ◌-ℤ◌
far-leap = refl

far-leap_again : ltb_ℤ (pos 10) (Market.jump_points whole (pos 1) (pos 204) (pos 100)) ≡ true
unfolding abs ◌-ℤ◌
far-leap_again = refl

near-leaps : leb_ℤ (Market.jump_points whole (pos 1) (pos 204) (pos 200)) (pos 10) ≡ true
unfolding abs ◌-ℤ◌
near-leaps = refl

abbrev after_leap : Market.MarketGuard whole
after_leap = Market.update whole market (pos 1001) (some leap) based

-- Friday, 20:59:59.5, with the cutoff at 20:00 and the closing time at 21:00.
abbrev friday : Session.LocalTime
friday = record { day = 739235; hour = 20; minute = 59; second = 59; microsecond = 500000 }

abbrev hours : Session.Config
hours = record {
  no_trade_hour = 20;
  no_trade_minute = 0;
  force_close_hour = 21;
  force_close_minute = 0;
}

friday-IsDatetime : IsDatetime friday
friday-IsDatetime = record {
  hour = omega arith;
  minute = omega arith;
  second = omega arith;
  microsecond = omega arith;
}

hours-IsConfigured : IsConfigured hours
hours-IsConfigured = record {
  no_trade_hour = omega arith;
  no_trade_minute = omega arith;
  force_close_hour = omega arith;
  force_close_minute = omega arith;
}

trading_allowed-week_example :
    Session.trading_allowed hours friday
    ≡ some (ltb (week_moment friday) (4 * day_length + of_day 20 0 0 0))
trading_allowed-week_example =
    trading_allowed-week hours friday friday-IsDatetime hours-IsConfigured
