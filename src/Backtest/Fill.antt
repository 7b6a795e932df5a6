-- ===== src/Backtest/Fill.antt =====
-- Fills and costs of trading_research/engine/backtester.py: `_adverse_fill`, `_make_position`,
-- `_trade_costs`, `_can_open` and `_friday_close_state`. A cost hook is an argument, as the
-- caller's callable is; a constant cost is a hook that ignores its context.
use trading_snapshot.Base.{
  ℕ, ◌+◌, ◌*◌, ◌/◌, ◌%◌, Bool, true, false, not, ◌&&◌, ◌||◌, Option, none, some, ltb, leb, ◌==◌,
  if◌then◌else◌,
}
use trading_snapshot.Base.Int.{pos}
use trading_snapshot.Base.Float.{Floats, abs}
use trading_snapshot.Backtest.Bar.{Side, buy, sell, FillTiming, Position}

pub data Event : Type 0 where
  entry_event exit_event : Event

abbrev pub day_ns : ℕ
day_ns = 86_400_000_000_000

abbrev pub date : ℕ → ℕ
date t = t / day_ns

-- Monday is 0; the day of timestamp 0 is a Thursday.
abbrev pub dayofweek : ℕ → ℕ
dayofweek t = (date t + 3) % 7

abbrev pub is_other_day : ℕ → Option ℕ → Bool
is_other_day t none = true
is_other_day t (some next) = not (date next == date t)

-- Whether the bar closes positions for the weekend, and whether it starts after the cutoff.
unfoldable pub friday_close_state : ℕ → ℕ → ℕ → Option ℕ → Bool × Bool
friday_close_state t bar_interval cutoff next =
    let cutoff_ts = date t * day_ns + cutoff in
    let starts_after = leb cutoff_ts t in
    let contains = ltb t cutoff_ts && leb cutoff_ts (t + bar_interval) in
    if dayofweek t == 4
    then (starts_after || contains || is_other_day t next, starts_after)
    else (false, false)

module _ (fs : Floats) where
  open fs use {F, zero_f, one_f, add, sub, mul, div, of_ℤ, lt, le}

  -- The position of a context: before the entry only its target is known.
  pub data Carried : Type 0 where
    template : Option F → Carried
    held : Position fs → Carried

  pub record CostContext : Type 0 where
    pub bar_index : ℕ
    pub timestamp : ℕ
    pub side : Side
    pub event : Event
    pub price : F
    pub position : Carried

  pub record Costs : Type 0 where
    pub spread : CostContext → F
    pub slippage : CostContext → F
    pub commission : CostContext → F
    pub swap : CostContext → F
    -- `cost_model.rollover_units(context)`, 0 without a model
    pub rollover_units : CostContext → ℕ

  -- How a signal gives its stop: `sl_distance`, `sl`, or `risk_reference` without a stop.
  pub data Stop : Type 0 where
    by_distance by_level by_reference : F → Stop

  pub record Signal : Type 0 where
    pub side : Side
    pub entry : F
    pub tp : Option F
    pub stop : Stop

  abbrev pub direction : Side → F
  direction buy = one_f
  direction sell = sub zero_f one_f

  abbrev pub adverse : Side → Event → F
  adverse side entry_event = direction side
  adverse side exit_event = sub zero_f (direction side)

  pub record Filled : Type 0 where
    pub price : F
    pub spread : F
    pub slippage : F

  unfoldable pub adverse_fill : Costs → CostContext → Filled
  adverse_fill costs c =
      let half = div (costs.spread c) (of_ℤ (pos 2)) in
      record {
        price = add c.price (mul (adverse c.side c.event) (add half (costs.slippage c)));
        spread = half;
        slippage = costs.slippage c;
      }

  abbrev pub wrong_side : Side → F → F → Bool
  wrong_side buy sl entry = le entry sl
  wrong_side sell sl entry = le sl entry

  -- the stop and the risk of a fill, or no position
  unfoldable pub stop_of : Side → F → Stop → Option (Option F × F)
  stop_of side entry (by_distance d) = some (some (sub entry (mul (direction side) d)), d)
  stop_of side entry (by_reference level) = some (none, abs fs (sub entry level))
  stop_of side entry (by_level sl) =
      if wrong_side side sl entry then none else some (some sl, abs fs (sub entry sl))

  abbrev pub position_with :
      Signal → Filled → ℕ → ℕ → FillTiming → Option (Option F × F) → Option (Position fs)
  position_with s f i t timing none = none
  position_with s f i t timing (some (sl, risk)) =
      if le risk zero_f
      then none
      else some (record {
        side = s.side;
        sl = sl;
        tp = s.tp;
        initial_sl = sl;
        initial_tp = s.tp;
        entry = f.price;
        signal_entry = s.entry;
        risk = risk;
        open_time = t;
        signal_time = t;
        open_bar = i;
        fill_timing = timing;
        moved_to_be = false;
        pending_be_move = false;
        entry_spread_price = f.spread;
        entry_slippage_price = f.slippage;
      })

  unfoldable pub make_position : Costs → Signal → F → ℕ → ℕ → FillTiming → Option (Position fs)
  unfolding adverse_fill stop_of
  make_position costs s raw_entry i t timing =
      let context : CostContext = record {
        bar_index = i;
        timestamp = t;
        side = s.side;
        event = entry_event;
        price = raw_entry;
        position = template s.tp;
      } in
      let f = adverse_fill costs context in
      position_with s f i t timing (stop_of s.side f.price s.stop)

  pub record TradeCosts : Type 0 where
    pub spread_cost_r : F
    pub slippage_cost_r : F
    pub commission_cost_r : F
    pub swap_cost_r : F
    pub fees_r : F
    pub total_costs_r : F

  unfoldable pub trade_costs : Costs → Position fs → CostContext → F → F → TradeCosts
  trade_costs costs p c exit_spread exit_slippage =
      let spread_r = div (add p.entry_spread_price exit_spread) p.risk in
      let slippage_r = div (add p.entry_slippage_price exit_slippage) p.risk in
      let commission_r = costs.commission c in
      let swap_r = costs.swap c in
      record {
        spread_cost_r = spread_r;
        slippage_cost_r = slippage_r;
        commission_cost_r = commission_r;
        swap_cost_r = swap_r;
        fees_r = add commission_r swap_r;
        total_costs_r = add (add (add spread_r slippage_r) commission_r) swap_r;
      }

  -- `limit is not None and r <= -abs(limit)`
  abbrev pub limit_hit : Option F → F → Bool
  limit_hit none r = false
  limit_hit (some limit) r = le r (sub zero_f (abs fs limit))

  unfoldable pub can_open : ℕ → ℕ → F → F → Option F → Option F → ℕ → Bool
  can_open open_count pending_count daily_r weekly_r daily_limit weekly_limit max_positions =
      if limit_hit daily_limit daily_r
      then false
      else if limit_hit weekly_limit weekly_r
      then false
      else ltb (open_count + pending_count) max_positions
