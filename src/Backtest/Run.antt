-- ===== src/Backtest/Run.antt =====
-- `run_backtest` of trading_research/engine/backtester.py on its own bars: the loop that fills due
-- orders, asks the strategy and manages the open positions. `next` is the timestamp of the
-- following bar.
pub mod Exposure
pub mod Curve
pub mod Sound
use trading_snapshot.Base.{
  ℕ, zero, suc, ◌+◌, Bool, true, false, not, ◌&&◌, ◌||◌, Option, none, some, is_some, List, [], ◌∷◌,
  ◌++◌, length, filter, ltb, leb, ◌==◌, ◌-◌, if◌then◌else◌, String,
}
use trading_snapshot.Base.Float.{Floats}
use trading_snapshot.Backtest.Bar.{
  Side, buy, sell, FillTiming, next_bar_open, same_bar_trigger, CloseReason, strategy_exit,
  friday_close, break_even, is_gap, Bar, Position, Exit, exit_for_bar,
}
use trading_snapshot.Backtest.Fill.{
  exit_event, date, friday_close_state, held, CostContext, Costs, Signal, direction, Filled,
  adverse_fill, make_position, TradeCosts, trade_costs, can_open,
}
use trading_snapshot.Backtest.Manage.{
  Mode, next_bar, open_bar, Strategy, Config, Trade, PendingOrder, Book, manage_all,
}

module _ (fs : Floats) (c : Config fs) (costs : Costs fs) (s : Strategy fs) where
  open fs use {F, zero_f}
  open s use {State}

  pub record RunState : Type 0 where
    pub open_positions : List (Position fs)
    pub pending_orders : List (PendingOrder fs)
    pub book : Book fs
    pub current_day : Option ℕ
    pub current_week : Option ℕ
    pub strategy : State

  abbrev least_gap : ℕ → ℕ → ℕ
  least_gap gap rest =
      if gap == 0 then rest else if rest == 0 then gap else if ltb gap rest then gap else rest

  -- `_infer_bar_interval`: the least positive difference of neighbouring timestamps of the frame, 0
  -- where there is none; subtraction stops at 0, which is not positive
  unfoldable pub infer_bar_interval : List (Bar fs) → ℕ
  infer_bar_interval [] = 0
  infer_bar_interval (b ∷ []) = 0
  infer_bar_interval (b ∷ b' ∷ bs) =
      least_gap (b'.timestamp - b.timestamp) (infer_bar_interval (b' ∷ bs))

  abbrev pub differs : ℕ → Option ℕ → Bool
  differs x none = true
  differs x (some y) = not (x == y)

  -- a new day or week starts its sum again
  unfoldable pub new_period : ℕ → RunState → RunState
  new_period t r =
      let day = date t in
      let week = c.iso_week t in
      record r {
        book = record {
          trades = r.book.trades;
          equity = r.book.equity;
          daily_r = if differs day r.current_day then zero_f else r.book.daily_r;
          weekly_r = if differs week r.current_week then zero_f else r.book.weekly_r;
        };
        current_day = some day;
        current_week = some week;
      }

  abbrev pub add_position : ℕ → Option (Position fs) → List (Position fs) → List (Position fs)
  add_position t none ps = ps
  add_position t (some p) ps = ps ++ (record p { signal_time = t }) ∷ []

  unfoldable pub fill_orders :
      ℕ → Bar fs → List (PendingOrder fs) → List (Position fs) → List (Position fs)
  fill_orders i b [] ps = ps
  fill_orders i b (o ∷ os) ps = fill_orders i b os (
      add_position o.signal_time
        (make_position fs costs o.signal b.bar_open i b.timestamp next_bar_open) ps)

  abbrev pub is_due : ℕ → PendingOrder fs → Bool
  is_due i o = o.fill_bar == i

  -- Orders that are due leave the queue; after the Friday cutoff they are dropped.
  unfoldable pub fill_due : ℕ → Bar fs → Bool → RunState → RunState
  unfolding fill_orders
  fill_due i b after_cutoff r =
      let due = filter (is_due i) r.pending_orders in
      record r {
        open_positions =
            if after_cutoff then r.open_positions else fill_orders i b due r.open_positions;
        pending_orders = filter (λ o. not (is_due i o)) r.pending_orders;
      }

  abbrev pub may_open : RunState → Bool
  may_open r =
      can_open fs (length r.open_positions) (length r.pending_orders) r.book.daily_r r.book.weekly_r
        c.daily_sl_limit c.weekly_sl_limit c.max_positions

  abbrev pub is_open_bar : Mode → Bool
  is_open_bar open_bar = true
  is_open_bar next_bar = false

  abbrev pub triggered : ℕ → Bar fs → Option (Signal fs) → RunState → RunState
  triggered i b none r = r
  triggered i b (some sig) r = record r {
    open_positions =
        add_position b.timestamp
          (make_position fs costs sig sig.entry i b.timestamp same_bar_trigger) r.open_positions;
  }

  abbrev pub queued : ℕ → Bar fs → Option (Signal fs) → RunState → RunState
  queued i b none r = r
  queued i b (some sig) r = record r {
    pending_orders =
        r.pending_orders
        ++ (record { signal = sig; signal_time = b.timestamp; fill_bar = suc i }) ∷ [];
  }

  abbrev pub timestamp_of : List (Bar fs) → Option ℕ
  timestamp_of [] = none
  timestamp_of (b ∷ bs) = some b.timestamp

  abbrev pub start : State → RunState
  start st = record {
    open_positions = [];
    pending_orders = [];
    book = record { trades = []; equity = []; daily_r = zero_f; weekly_r = zero_f };
    current_day = none;
    current_week = none;
    strategy = st;
  }

  abbrev pub drop : ℕ → List (Bar fs) → List (Bar fs)
  drop zero bs = bs
  drop (suc n) [] = []
  drop (suc n) (b ∷ bs) = drop n bs

module _ (fs : Floats) (c : Config fs) (costs : Costs fs) (s : Strategy fs)
    (df : List (Bar fs)) where
  open s use {State, bind_data, on_bar}

  -- `open_bar`: a signal of this bar is filled on it
  unfoldable pub enter_now : ℕ → Bar fs → Bool → RunState fs c costs s → RunState fs c costs s
  enter_now i b friday r =
      let (signal, st) = on_bar i df r.strategy in
      if is_open_bar fs c costs s c.mode && not friday && may_open fs c costs s r
      then triggered fs c costs s i b signal (record r { strategy = st })
      else r

  -- `next_bar`: a signal of this bar waits for the open of the next one
  unfoldable pub queue_next :
      ℕ → Bar fs → Bool → Bool → RunState fs c costs s → RunState fs c costs s
  queue_next i b friday has_next r =
      let (signal, st) = on_bar i df r.strategy in
      if not (is_open_bar fs c costs s c.mode) && not friday && has_next && may_open fs c costs s r
      then queued fs c costs s i b signal (record r { strategy = st })
      else r

  unfoldable pub manage_open : ℕ → Bar fs → Bool → RunState fs c costs s → RunState fs c costs s
  unfolding manage_all
  manage_open i b friday r =
      let (surviving, k, st) =
        manage_all fs c costs s df i b friday r.open_positions r.book r.strategy in
      record r { open_positions = surviving; book = k; strategy = st }

  -- one bar; the next bar's timestamp tells whether this is the day's last one
  unfoldable pub step : ℕ → Bar fs → Option ℕ → RunState fs c costs s → RunState fs c costs s
  unfolding new_period fill_due enter_now manage_open queue_next infer_bar_interval
  step i b next r =
      let (closes, after_cutoff) =
        friday_close_state b.timestamp (infer_bar_interval fs c costs s df) c.friday_cutoff next in
      let friday = c.close_on_friday && closes in
      queue_next i b friday (is_some next) (
        manage_open i b friday (
          enter_now i b friday (
            fill_due fs c costs s i b (c.close_on_friday && after_cutoff)
              (new_period fs c costs s b.timestamp r))))

  unfoldable pub run_bars : ℕ → List (Bar fs) → RunState fs c costs s → RunState fs c costs s
  unfolding step
  run_bars i [] r = r
  run_bars i (b ∷ bs) r = run_bars (suc i) bs (step i b (timestamp_of fs c costs s bs) r)

  -- `range(warmup_bars, len(df))`; `none` is the ValueError of a cap below one
  unfoldable pub run_backtest : ℕ → State → Option (RunState fs c costs s)
  unfolding run_bars
  run_backtest warmup_bars st =
      if ltb c.max_positions 1
      then none
      else some (
          run_bars warmup_bars (drop fs c costs s warmup_bars df)
            (start fs c costs s (bind_data df st)))
