-- ===== src/Tests/Backtests.antt =====
-- A backtest on whole numbers (trading_research/engine/backtester.py).
use trading_snapshot.Base.{◌≤◌, false, none, some, List, [], ◌∷◌, ◌≡◌, refl, inr, length, arith}
use trading_snapshot.Base.Int.{ℤ, pos, ◌+ℤ◌, ◌-ℤ◌, ◌*ℤ◌}
use trading_snapshot.Base.Float
use trading_snapshot.Base.Float.{whole}
use trading_snapshot.Backtest.Bar
use trading_snapshot.Backtest.Bar.{
  buy, CloseReason, next_bar_open, is_same_bar, Bar, Position, exit_for_bar, tp_gap, sl_before_tp,
}
use trading_snapshot.Backtest.Bar.Conservative.{
  IsStopExit, IsAttainable, exit_for_bar-stop_first, exit_for_bar-IsAttainable,
}
use trading_snapshot.Backtest.Fill
use trading_snapshot.Backtest.Fill.{Costs, Signal, by_distance}
use trading_snapshot.Backtest.Manage
use trading_snapshot.Backtest.Manage.{Strategy, Config, next_bar, Trade}
use trading_snapshot.Backtest.Run
use trading_snapshot.Backtest.Run.{RunState, start, run_bars, run_backtest}
use trading_snapshot.Backtest.Run.Exposure.{exposure, run_backtest-exposure}
use trading_snapshot.Backtest.Run.Curve.{IsCurve, run_bars-IsCurve}
use trading_snapshot.Backtest.Metrics.{Numpy, max_drawdown_of, compute_metrics, is_be}
use trading_snapshot.Backtest.Metrics
use trading_snapshot.Backtest.Metrics.Drawdown.{IsLargestFall, max_drawdown_of-IsLargestFall}

abbrev held : Position whole
held = record {
  side = buy;
  sl = some (pos 90);
  tp = some (pos 120);
  initial_sl = some (pos 90);
  initial_tp = some (pos 120);
  entry = pos 100;
  signal_entry = pos 100;
  risk = pos 10;
  open_time = 0;
  signal_time = 0;
  open_bar = 0;
  fill_timing = next_bar_open;
  moved_to_be = false;
  pending_be_move = false;
  entry_spread_price = pos 0;
  entry_slippage_price = pos 0;
}

-- The bar reaches the target 120 and the stop 90, and the stop counts.
exit_for_bar-stop_first_example :
    (e : ℤ × CloseReason) × (exit_for_bar whole held (pos 100) (pos 125) (pos 85) 1 ≡ some e)
    × IsStopExit whole buy (pos 90) (pos 100) e
exit_for_bar-stop_first_example =
    exit_for_bar-stop_first whole held (pos 100) (pos 125) (pos 85) (pos 90) 1 refl refl
      (inr (refl, inr refl))

-- An open at 130 is beyond the target, and the exit is still at 120.
beyond_target : exit_for_bar whole held (pos 130) (pos 135) (pos 118) 1 ≡ some (pos 120, tp_gap)
unfolding exit_for_bar
beyond_target = refl

exit_for_bar-IsAttainable_example : IsAttainable whole buy (pos 135) (pos 118) (pos 120)
exit_for_bar-IsAttainable_example =
    exit_for_bar-IsAttainable whole held (pos 130) (pos 135) (pos 118) (pos 120) tp_gap 1 refl
      (refl, refl, refl) refl refl refl beyond_target

abbrev free : Costs whole
free = record {
  spread = λ c. pos 0;
  slippage = λ c. pos 0;
  commission = λ c. pos 0;
  swap = λ c. pos 0;
  rollover_units = λ c. 0;
}

abbrev long : Signal whole
long = record { side = buy; entry = pos 100; tp = some (pos 120); stop = by_distance (pos 10) }

-- A signal on every bar, and no exit of its own.
abbrev eager : Strategy whole
eager = record {
  State = Unit;
  bind_data = λ df st. st;
  on_bar = λ i df st. (some long, st);
  should_exit = λ i p df st. (false, st);
}

abbrev config : Config whole
config = record {
  use_break_even = false;
  break_even_trigger = pos 1;
  break_even_offset = pos 0;
  daily_sl_limit = none;
  weekly_sl_limit = none;
  max_positions = 1;
  mode = next_bar;
  close_on_friday = false;
  friday_cutoff = 0;
  iso_week = λ t. 1;
}

abbrev quiet : Bar whole
quiet = record { timestamp = 0; bar_open = pos 100; high = pos 105; low = pos 95; close = pos 100 }

abbrev drop : Bar whole
drop = record { timestamp = 60; bar_open = pos 100; high = pos 101; low = pos 80; close = pos 85 }

abbrev frame : List (Bar whole)
frame = quiet ∷ drop ∷ []

abbrev Running : Type 0
Running = RunState whole config free eager

abbrev begin : Running
begin = start whole config free eager tt

abbrev after : Running
after = run_bars whole config free eager frame 0 frame begin

-- The order of the first bar is filled at the open of the second and stopped out there.
one_trade : length after.book.trades ≡ 1
unfolding run_bars Run.step Run.new_period Run.fill_due Run.fill_orders Run.enter_now
    Run.manage_open Run.queue_next Manage.manage_all Manage.manage Manage.apply_be Manage.mark_be
    Manage.book_trade Manage.close_trade Manage.final_reason Bar.exit_for_bar Bar.exit_in_range
    Fill.make_position Fill.adverse_fill Fill.stop_of Fill.can_open Fill.trade_costs
    Fill.friday_close_state Float.abs Float.min Float.max ◌+ℤ◌ ◌-ℤ◌ ◌*ℤ◌
one_trade = refl

returned : run_backtest whole config free eager frame 0 tt ≡ some after
unfolding run_backtest
returned = refl

run_backtest-exposure_example : exposure whole config free eager frame after ≤ 1
run_backtest-exposure_example =
    run_backtest-exposure whole config free eager frame 0 tt after returned

last_day : after.current_day ≡ some 0
unfolding run_bars Run.step Run.new_period Run.fill_due Run.enter_now Run.manage_open Run.queue_next
last_day = refl

run_bars-IsCurve_example : IsCurve whole 0 after.book
run_bars-IsCurve_example =
    run_bars-IsCurve whole config free eager frame 0 frame tt 0 (tt, (tests_order, tt)) last_day
  where
    tests_order : 0 ≤ 0
    tests_order = omega arith

sixty : Run.infer_bar_interval whole config free eager frame ≡ 60
unfolding Run.infer_bar_interval
sixty = refl

abbrev equity : List ℤ
equity = pos 0 ∷ pos 5 ∷ pos 2 ∷ pos 7 ∷ pos 1 ∷ []

six : max_drawdown_of whole equity ≡ pos 6
unfolding max_drawdown_of Metrics.drawdown_from Float.max ◌-ℤ◌
six = refl

max_drawdown_of-IsLargestFall_example : IsLargestFall whole equity (max_drawdown_of whole equity)
max_drawdown_of-IsLargestFall_example =
    max_drawdown_of-IsLargestFall whole (λ _. Unit) (λ u _. refl) (λ u v _ _. refl) equity
      (tt, (tt, (tt, (tt, (tt, tt)))))

abbrev numpy : Numpy whole
numpy = record {
  np_sum = λ xs. pos 0;
  np_mean = λ xs. pos 0;
  np_max = λ xs. pos 0;
  np_min = λ xs. pos 0;
  np_median = λ xs. pos 0;
  np_quantile_90 = λ xs. pos 0;
}

abbrev trades : List (Trade whole)
trades = after.book.trades

one_loss : (compute_metrics whole numpy trades equity).losses ≡ 1
unfolding compute_metrics is_be run_bars Run.step Run.new_period Run.fill_due Run.fill_orders
    Run.enter_now Run.manage_open Run.queue_next Manage.manage_all Manage.manage Manage.apply_be
    Manage.mark_be Manage.book_trade Manage.close_trade Manage.final_reason Bar.exit_for_bar
    Bar.exit_in_range Fill.make_position Fill.adverse_fill Fill.stop_of Fill.can_open
    Fill.trade_costs Fill.friday_close_state Float.abs Float.min Float.max ◌+ℤ◌ ◌-ℤ◌ ◌*ℤ◌
one_loss = refl
