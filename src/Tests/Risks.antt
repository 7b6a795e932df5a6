-- ===== src/Tests/Risks.antt =====
-- The risk gate of one strategy on whole numbers (risk/position_sizer.py, risk/risk_manager.py).
use trading_snapshot.Base.{true, false, none, some, [], ◌∷◌, ◌≡◌, refl}
use trading_snapshot.Base.Int.{ℤ, pos, negsuc, ◌+ℤ◌, ◌-ℤ◌, ◌*ℤ◌}
use trading_snapshot.Base.Float
use trading_snapshot.Base.Float.{whole}
use trading_snapshot.Account.Value.{null, number, text}
use trading_snapshot.Risk.Sizer
use trading_snapshot.Risk.Sizer.{PositionSizer, SymbolInfo, Lot, order_calc_profit, tick_formula}
use trading_snapshot.Risk.Margin.{MarginConfig, Limits, policy, Snapshot, snapshot}
use trading_snapshot.Risk.Margin
use trading_snapshot.Risk.Margin.Order
use trading_snapshot.Risk.Margin.Order.{
  Position, Terminal, Order, Projection, accepted, word, buy, validate_margin_for_order,
}
use trading_snapshot.Risk.Margin.Order.Stressed.{
  Reads, IsCovered, validate_margin_for_order-IsCovered,
}
use trading_snapshot.Risk.Gate
use trading_snapshot.Risk.Gate.{
  Manager, running, monitored, cap, exposed, pnls, Readings, blocked, can_open_new_trade,
  status_snapshot, daily_locked,
}
use trading_snapshot.Risk.Gate.Agree.{Agrees, status_snapshot-Agrees}
use trading_snapshot.Risk.Position
use trading_snapshot.Risk.Position.{RiskConfig, Terms, has_symbol}
use trading_snapshot.Risk.Number

abbrev sizer : PositionSizer whole
sizer = record {
  risk_buffer = pos 1;
  allow_undersized_lot = false;
  max_lot = some (pos 500);
  sanity_multiplier = pos 20;
}

abbrev symbol : SymbolInfo whole
symbol = record {
  tick_size = pos 1;
  tick_value = pos 1;
  volume_min = pos 1;
  volume_step = pos 1;
  volume_max = pos 200;
}

-- Whole numbers divide by keeping the dividend, so a risk of 7 at one unit per lot is a lot of 7.
abbrev seven : Lot whole
seven = record {
  lot = pos 7;
  actual_risk_usd = pos 7;
  risk_per_1_lot = pos 1;
  risk_source = order_calc_profit;
  stop_distance = pos 1;
}

abbrev manager : Manager
manager = record { lock_state = running; announced = []; notices = [] }

abbrev account : Snapshot whole
account = snapshot (number (pos 1000)) (number (pos 1000)) (number (pos 0))

-- A day that lost 80 of 100, and a risk of 30 per trade.
abbrev readings : Readings whole
readings = record {
  halt = monitored false;
  cap = cap (pos 3);
  exposure = exposed 1;
  margin_config = none;
  margin = account;
  strategy_id = text "xau";
  ledger = λ id. pnls (negsuc 79) (negsuc 79);
  daily_limit = some (pos 100);
  weekly_limit = none;
  daily_tolerance = number (pos 0);
  weekly_tolerance = number (pos 0);
  risk_per_trade = some (pos 30);
}

locked : (can_open_new_trade whole readings manager).1 ≡ blocked (some "DAILY_LOSS_LIMIT_PROJECTED")
unfolding can_open_new_trade Gate.decide Gate.decide_pnl Gate.order_guard Gate.check_account_halt
    Gate.check_open_positions_limit Gate.margin_guard Gate.strategy_pnls Gate.daily_guard
    Gate.check_sl_guard Margin.margin_policy Margin.check_current_margin_utility Float.abs Float.min
    ◌+ℤ◌ ◌-ℤ◌ ◌*ℤ◌
locked = refl

unhalted : Gate.check_account_halt readings.halt ≡ none
unfolding Gate.check_account_halt
unhalted = refl

below_cap : Gate.check_open_positions_limit readings.cap readings.exposure ≡ none
unfolding Gate.check_open_positions_limit
below_cap = refl

status_snapshot-Agrees_example :
    Agrees whole (can_open_new_trade whole readings manager).1 (status_snapshot whole readings)
status_snapshot-Agrees_example = status_snapshot-Agrees whole readings manager unhalted below_cap

abbrev limits : Limits whole
limits = record { max_utilization = pos 500; stress_multiplier = pos 2; estimate_buffer = pos 1 }

abbrev open_position : Position whole
open_position = record {
  symbol = some "XAU";
  side = word "BUY";
  price_open = number (pos 100);
  sl = number (pos 90);
  tp = null;
  volume = number (pos 1);
}

-- The broker expects the move to the stressed stop as the loss.
abbrev terminal : Terminal whole
terminal = record {
  has_methods = true;
  account = account;
  additional_margin = number (pos 50);
  open_positions = some (open_position ∷ []);
  estimate_order_profit = λ side name volume entry price. some (price -ℤ entry);
}

abbrev order : Order whole
order = record {
  side = "BUY";
  symbol = "XAU";
  volume = number (pos 1);
  entry = number (pos 100);
  sl = number (pos 95);
}

abbrev projection : Projection whole
projection = record {
  stressed_equity = pos 970;
  projected_margin = pos 50;
  projected_utilization = pos 50;
}

covered :
    (validate_margin_for_order whole (policy limits) terminal order manager).1 ≡ accepted projection
unfolding validate_margin_for_order Order.margin_verdict Order.stressed_verdict Order.project_margin
    Order.add_positions Order.order_stress_profit Order.position_stress_profit Order.side_of
    Number.finite_nonnegative Number.finite_positive Float.max Float.min ◌+ℤ◌ ◌-ℤ◌ ◌*ℤ◌
covered = refl

validate_margin_for_order-IsCovered_example :
    (l : Limits whole) × (b : ℤ) × (margin : ℤ) × (policy limits ≡ policy l)
    × Reads whole account b margin
    × IsCovered whole l terminal order b margin projection
validate_margin_for_order-IsCovered_example =
    validate_margin_for_order-IsCovered whole (policy limits) terminal order manager projection
      covered

abbrev config : RiskConfig whole
config = record {
  symbol = "XAU";
  tp_required = false;
  risk_per_trade = number (pos 30);
  tolerance = number (pos 0);
  slippage_tolerance = number (pos 0);
}

abbrev terms : Terms whole
terms = record {
  info = some symbol;
  point = number (pos 1);
  estimate = λ entry stop. some (pos 10);
}
