-- ===== src/Backtest/Bar.antt =====
-- Positions and bars of trading_research/engine/backtester.py, and `_exit_for_bar`.
pub mod Conservative
use trading_snapshot.Base.{
  ℕ, Bool, true, false, not, ◌&&◌, Option, none, some, is_some, ◌==◌, if◌then◌else◌,
}
use trading_snapshot.Base.Float.{Floats, min, max}

pub data Side : Type 0 where
  buy sell : Side

pub data FillTiming : Type 0 where
  next_bar_open same_bar_trigger : FillTiming

abbrev pub is_same_bar : FillTiming → Bool
is_same_bar same_bar_trigger = true
is_same_bar next_bar_open = false

pub data CloseReason : Type 0 where
  sl_before_tp sl_same_bar_trigger tp_same_bar_trigger sl_gap tp_gap sl_hit tp_hit : CloseReason
  strategy_exit friday_close break_even : CloseReason

-- `close_reason.endswith("gap")`
unfoldable pub is_gap : CloseReason → Bool
is_gap sl_gap = true
is_gap tp_gap = true
is_gap _ = false

module _ (fs : Floats) where
  open fs use {F, le}

  -- A row of the frame; the timestamp counts nanoseconds, as pandas does.
  pub record Bar : Type 0 where
    pub timestamp : ℕ
    pub bar_open : F
    pub high : F
    pub low : F
    pub close : F

  pub record Position : Type 0 where
    pub side : Side
    pub sl : Option F
    pub tp : Option F
    pub initial_sl : Option F
    pub initial_tp : Option F
    pub entry : F
    pub signal_entry : F
    pub risk : F
    pub open_time : ℕ
    pub signal_time : ℕ
    pub open_bar : ℕ
    pub fill_timing : FillTiming
    pub moved_to_be : Bool
    pub pending_be_move : Bool
    pub entry_spread_price : F
    pub entry_slippage_price : F

  abbrev pub Exit : Type 0
  Exit = Option (F × CloseReason)

  -- a level that is set and reached from above (`price <= level`), or from below
  abbrev pub at_or_below : F → Option F → Bool
  at_or_below price none = false
  at_or_below price (some level) = le price level

  abbrev pub at_or_above : F → Option F → Bool
  at_or_above price none = false
  at_or_above price (some level) = le level price

  -- a stop and a target as the side of the position reaches them
  abbrev pub stop_reached : Side → F → F → Option F → Bool
  stop_reached buy high low sl = at_or_below low sl
  stop_reached sell high low sl = at_or_above high sl

  abbrev pub target_reached : Side → F → F → Option F → Bool
  target_reached buy high low tp = at_or_above high tp
  target_reached sell high low tp = at_or_below low tp

  abbrev pub at : Option F → CloseReason → Exit
  at none reason = none
  at (some price) reason = some (price, reason)

  -- the stop first, whatever else the range reaches
  unfoldable pub exit_in_range :
      Side → Option F → Option F → F → F → CloseReason → CloseReason → Exit
  exit_in_range side sl tp high low on_sl on_tp =
      if stop_reached side high low sl
      then at sl (if target_reached side high low tp then sl_before_tp else on_sl)
      else if target_reached side high low tp
      then at tp on_tp
      else none

  -- the open beyond the stop fills there; beyond the target it fills at the target
  unfoldable pub exit_for_bar : Position → (bar_open high low : F) → ℕ → Exit
  unfolding exit_in_range
  exit_for_bar p o high low current_bar =
      if is_same_bar p.fill_timing && p.open_bar == current_bar
      then exit_in_range p.side p.sl p.tp (max fs o high) (min fs o low) sl_same_bar_trigger
          tp_same_bar_trigger
      else if stop_reached p.side o o p.sl
      then some (o, sl_gap)
      else if target_reached p.side o o p.tp
      then at p.tp tp_gap
      else exit_in_range p.side p.sl p.tp high low sl_hit tp_hit
