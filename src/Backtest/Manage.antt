-- ===== src/Backtest/Manage.antt =====
-- Trades of `run_backtest` (trading_research/engine/backtester.py): how an open position is managed
-- on a bar and booked when it closes. The strategy is an argument with a state of its own.
use trading_snapshot.Base.{
  ℕ, ◌+◌, Bool, true, false, not, ◌&&◌, Option, none, some, List, [], ◌∷◌, ◌-◌, if◌then◌else◌,
}
use trading_snapshot.Base.Float.{Floats}
use trading_snapshot.Backtest.Bar.{
  Side, buy, sell, FillTiming, CloseReason, strategy_exit, friday_close, break_even, is_gap, Bar,
  Position, Exit, exit_for_bar,
}
use trading_snapshot.Backtest.Fill.{
  exit_event, held, CostContext, Costs, Signal, direction, adverse_fill, TradeCosts, trade_costs,
}

pub data Mode : Type 0 where
  next_bar open_bar : Mode

module _ (fs : Floats) where
  open fs use {F, zero_f, add, sub, mul, div, le}

  -- The methods of a strategy, which see the whole frame; a strategy without `should_exit` answers
  -- False.
  pub record Strategy : Type 1 where
    pub State : Type 0
    pub bind_data : List (Bar fs) → State → State
    pub on_bar : ℕ → List (Bar fs) → State → Option (Signal fs) × State
    pub should_exit : ℕ → Position fs → List (Bar fs) → State → Bool × State

  pub record Config : Type 0 where
    pub use_break_even : Bool
    pub break_even_trigger : F
    pub break_even_offset : F
    pub daily_sl_limit : Option F
    pub weekly_sl_limit : Option F
    pub max_positions : ℕ
    pub mode : Mode
    pub close_on_friday : Bool
    pub friday_cutoff : ℕ
    -- `ts.isocalendar().week`
    pub iso_week : ℕ → ℕ

  pub record Trade : Type 0 where
    pub side : Side
    pub open_time : ℕ
    pub signal_time : ℕ
    pub close_time : ℕ
    pub entry : F
    pub exit : F
    pub r : F
    pub close_reason : CloseReason
    pub costs : TradeCosts fs
    pub signal_entry : F
    pub initial_sl : Option F
    pub initial_tp : Option F
    pub initial_risk_price : F
    pub open_bar : ℕ
    pub close_bar : ℕ
    pub duration_bars : ℕ
    pub fill_timing : FillTiming
    pub swap_rollover_units : ℕ

  pub record PendingOrder : Type 0 where
    pub signal : Signal fs
    pub signal_time : ℕ
    pub fill_bar : ℕ

  -- The result of the loop; the newest trade stands first.
  pub record Book : Type 0 where
    pub trades : List Trade
    -- `equity` without its first value 0.0, newest first
    pub equity : List F
    pub daily_r : F
    pub weekly_r : F

  -- `equity[-1]`
  abbrev pub balance : List F → F
  balance [] = zero_f
  balance (e ∷ es) = e

  unfoldable pub book_trade : Trade → Book → Book
  book_trade t b = record {
    trades = t ∷ b.trades;
    equity = add (balance b.equity) t.r ∷ b.equity;
    daily_r = add b.daily_r t.r;
    weekly_r = add b.weekly_r t.r;
  }

  -- the pending move of the stop to break-even
  unfoldable pub apply_be : Config → Position fs → Position fs
  apply_be c p =
      if p.pending_be_move
      then record p {
        sl = some (add p.entry (mul (mul (direction fs p.side) p.risk) c.break_even_offset));
        moved_to_be = true;
        pending_be_move = false;
      }
      else p

  abbrev pub move_of : Bar fs → Position fs → Side → F
  move_of b p buy = div (sub b.high p.entry) p.risk
  move_of b p sell = div (sub p.entry b.low) p.risk

  unfoldable pub mark_be : Config → Bar fs → Position fs → Position fs
  mark_be c b p =
      if c.use_break_even && not p.moved_to_be && le c.break_even_trigger (move_of b p p.side)
      then record p { pending_be_move = true }
      else p

  abbrev pub equals : F → Option F → Bool
  equals x none = false
  equals x (some y) = le x y && le y x

  unfoldable pub final_reason : Position fs → F → CloseReason → CloseReason
  unfolding is_gap
  final_reason p raw_exit reason =
      if p.moved_to_be && equals raw_exit p.sl && not (is_gap reason) then break_even else reason

  abbrev pub result_of : Position fs → F → Side → F
  result_of p exit buy = div (sub exit p.entry) p.risk
  result_of p exit sell = div (sub p.entry exit) p.risk

  unfoldable pub close_trade : Costs fs → Position fs → ℕ → ℕ → F → CloseReason → Trade
  unfolding final_reason adverse_fill trade_costs
  close_trade costs p i t raw_exit reason =
      let context : CostContext fs = record {
        bar_index = i;
        timestamp = t;
        side = p.side;
        event = exit_event;
        price = raw_exit;
        position = held p;
      } in
      let f = adverse_fill fs costs context in
      let fees = trade_costs fs costs p context f.spread f.slippage in
      record {
        side = p.side;
        open_time = p.open_time;
        signal_time = p.signal_time;
        close_time = t;
        entry = p.entry;
        exit = f.price;
        r = sub (result_of p f.price p.side) fees.fees_r;
        close_reason = final_reason p raw_exit reason;
        costs = fees;
        signal_entry = p.signal_entry;
        initial_sl = p.initial_sl;
        initial_tp = p.initial_tp;
        initial_risk_price = p.risk;
        open_bar = p.open_bar;
        close_bar = i;
        duration_bars = i - p.open_bar + 1;
        fill_timing = p.fill_timing;
        swap_rollover_units = costs.rollover_units context;
      }

  module _ (c : Config) (costs : Costs fs) (s : Strategy) (df : List (Bar fs)) where
    open s use {State, should_exit}

    -- the close of the bar, where the strategy exits or the weekend closes the position
    abbrev pub late_exit : Bar fs → Bool → Bool → Exit fs
    late_exit b exits friday =
        if exits
        then some (b.close, strategy_exit)
        else if friday
        then some (b.close, friday_close)
        else none

    -- the strategy is asked only where the bar itself does not close the position
    abbrev pub exit_with : ℕ → Bar fs → Bool → Position fs → State → Exit fs → Exit fs × State
    exit_with i b friday p st (some e) = (some e, st)
    exit_with i b friday p st none =
        let (exits, st') = should_exit i p df st in (late_exit b exits friday, st')

    -- the body of the loop over the open positions, after the break-even move
    abbrev pub settle : ℕ → Bar fs → Position fs → Book → Exit fs → Option (Position fs) × Book
    settle i b p k none = (some (mark_be c b p), k)
    settle i b p k (some (raw_exit, reason)) =
        (none, book_trade (close_trade costs p i b.timestamp raw_exit reason) k)

    unfoldable pub manage :
        ℕ → Bar fs → Bool → Position fs → Book → State → Option (Position fs) × Book × State
    unfolding apply_be mark_be book_trade close_trade exit_for_bar
    manage i b friday p k st =
        let p' = apply_be c p in
        let (e, st') = exit_with i b friday p' st (exit_for_bar fs p' b.bar_open b.high b.low i) in
        let (kept, k') = settle i b p' k e in (kept, k', st')

    abbrev pub keep : Option (Position fs) → List (Position fs) → List (Position fs)
    keep none ps = ps
    keep (some p) ps = p ∷ ps

    unfoldable pub manage_all :
        ℕ → Bar fs → Bool → List (Position fs) → Book → State → List (Position fs) × Book × State
    unfolding manage
    manage_all i b friday [] k st = ([], k, st)
    manage_all i b friday (p ∷ ps) k st =
        let (kept, k1, st1) = manage i b friday p k st in
        let (surviving, k2, st2) = manage_all i b friday ps k1 st1 in (keep kept surviving, k2, st2)
