-- ===== src/Risk/Gate.antt =====
-- RiskManager (risk/risk_manager.py): `can_open_new_trade` with the guards it asks in order, and
-- `status_snapshot` of the heartbeat. What the shared account monitor, the broker and the trade
-- ledger answer is in `Readings`; delivery of alerts is best effort and left out, so a notice is
-- the line that is always printed.
pub mod Clear
pub mod Agree
use trading_snapshot.Base.{
  ℕ, Bool, true, false, not, ◌&&◌, ◌||◌, Option, none, some, is_some, List, [], ◌∷◌, any, String,
  str_eq, if◌then◌else◌,
}
use trading_snapshot.Base.Int.{ℤ, pos, leb_ℤ, ltb_ℤ}
use trading_snapshot.Base.Float.{Floats, abs, min}
use trading_snapshot.Account.Value.{Value, text}
use trading_snapshot.Risk.Number.{as_number, kept, nonnegative, finite_nonnegative, finite_positive}
use trading_snapshot.Risk.Margin.{
  MarginConfig, margin_policy, Snapshot, no_snapshot, snapshot, check_current_margin_utility,
}

-- The shared account monitor: absent, failing, or its `halted` flag.
pub data Halt : Type 0 where
  no_monitor snapshot_failed : Halt
  monitored : Bool → Halt

-- MAX_OPEN_POSITIONS: absent, no int, or an int.
pub data Cap : Type 0 where
  uncapped not_int : Cap
  cap : ℤ → Cap

-- `broker.list_all_positions()`: not there, raising, or the number of open positions.
pub data Exposure : Type 0 where
  no_query raised_query : Exposure
  exposed : ℕ → Exposure

pub data Period : Type 0 where
  daily weekly : Period

pub data Lock : Type 0 where
  running daily_locked weekly_locked margin_locked : Lock

pub data Notice : Type 0 where
  -- `[RISK GUARD] BLOCK (reason)` and `[SL GUARD] ... transition=RUNNING->state`
  risk_block : String → Notice
  sl_block : Lock → Option String → Notice

pub record Manager : Type 0 where
  pub lock_state : Lock
  pub announced : List String
  pub notices : List Notice

-- `(True, None)`, or `(False, reason)`.
pub data Decision : Type 0 where
  allowed : Decision
  blocked : Option String → Decision

unfoldable pub check_account_halt : Halt → Option String
check_account_halt no_monitor = none
check_account_halt snapshot_failed = some "ACCOUNT_STATE_UNAVAILABLE"
check_account_halt (monitored halted) = if halted then some "ACCOUNT_HALTED" else none

abbrev pub count_guard : ℤ → Exposure → Option String
count_guard limit no_query = some "POSITION_QUERY_UNAVAILABLE"
count_guard limit raised_query = some "POSITION_QUERY_UNAVAILABLE"
count_guard limit (exposed n) =
    if leb_ℤ limit (pos n) then some "MAX_OPEN_POSITIONS_REACHED" else none

unfoldable pub check_open_positions_limit : Cap → Exposure → Option String
check_open_positions_limit uncapped e = none
check_open_positions_limit not_int e = some "CONFIG_INVALID_MAX_OPEN_POSITIONS"
check_open_positions_limit (cap limit) e =
    if ltb_ℤ limit (pos 0) then some "CONFIG_INVALID_MAX_OPEN_POSITIONS" else count_guard limit e

unfoldable pub emit_block_warning : String → Manager → Manager
emit_block_warning reason m =
    if any (str_eq reason) m.announced
    then m
    else record m { announced = reason ∷ m.announced; notices = risk_block reason ∷ m.notices }

abbrev pub lock_of : Period → Lock
lock_of daily = daily_locked
lock_of weekly = weekly_locked

abbrev pub is_lock : Period → Lock → Bool
is_lock daily daily_locked = true
is_lock daily running = false
is_lock daily weekly_locked = false
is_lock daily margin_locked = false
is_lock weekly weekly_locked = true
is_lock weekly running = false
is_lock weekly daily_locked = false
is_lock weekly margin_locked = false

unfoldable pub transition_strategy_lock : Period → Option String → Manager → Manager
transition_strategy_lock period reason m = if is_lock period m.lock_state then m else record m {
  lock_state = lock_of period;
  notices = sl_block (lock_of period) reason ∷ m.notices;
}

abbrev pub tolerance_reason : Period → String
tolerance_reason daily = "CONFIG_INVALID_DAILY_LOSS_TOLERANCE"
tolerance_reason weekly = "CONFIG_INVALID_WEEKLY_LOSS_TOLERANCE"

abbrev pub limit_reason : Period → String
limit_reason daily = "DAILY_LOSS_LIMIT"
limit_reason weekly = "WEEKLY_LOSS_LIMIT"

abbrev pub projected_reason : Period → String
projected_reason daily = "DAILY_LOSS_LIMIT_PROJECTED"
projected_reason weekly = "WEEKLY_LOSS_LIMIT_PROJECTED"

abbrev pub or_else : Option String → Option String → Option String
or_else (some reason) later = some reason
or_else none later = later

module _ (fs : Floats) where
  open fs use {F, zero_f, add, mul, div, lt, le, finite}

  -- the dict of `_check_sl_guard`, less its copies of the arguments
  pub record SlGuard : Type 0 where
    pub stops : Bool
    pub reason : Option String
    pub realized_loss : F
    pub projected : F
    pub effective_limit : F
    pub fallback : Bool

  abbrev pub sl_open : SlGuard
  sl_open = record {
    stops = false;
    reason = none;
    realized_loss = zero_f;
    projected = zero_f;
    effective_limit = zero_f;
    fallback = false;
  }

  -- `reason` stands only where the guard blocks
  abbrev pub sl_verdict : Bool → String → F → F → F → Bool → SlGuard
  sl_verdict stops reason realized projected effective fallback = record {
    stops = stops;
    reason = if stops then some reason else none;
    realized_loss = realized;
    projected = projected;
    effective_limit = effective;
    fallback = fallback;
  }

  -- a known, positive risk per trade is added to the loss; otherwise the loss alone is compared
  abbrev pub realized_only : Period → F → F → SlGuard
  realized_only period realized limit =
      sl_verdict (le limit realized) (limit_reason period) realized realized limit true

  abbrev pub project : Period → F → F → F → Option F → SlGuard
  project period realized limit tolerance none = realized_only period realized limit
  project period realized limit tolerance (some risk) =
      if le risk zero_f
      then realized_only period realized limit
      else sl_verdict (lt (add limit (mul risk tolerance)) (add realized risk))
          (projected_reason period) realized (add realized risk) (add limit (mul risk tolerance))
          false

  abbrev pub tolerated : Period → F → F → Option F → Option F → SlGuard
  tolerated period realized limit risk none =
      sl_verdict true (tolerance_reason period) realized zero_f zero_f false
  tolerated period realized limit risk (some tolerance) =
      project period realized limit tolerance risk

  -- `tolerance_r` is a number, True and False included, that is finite and not negative
  abbrev pub tolerance_number : Value fs → Option F
  tolerance_number v = kept fs (λ x. finite x && not (lt x zero_f)) (as_number fs v)

  unfoldable pub check_sl_guard : Period → Value fs → F → Option F → Option F → SlGuard
  check_sl_guard period tolerance pnl none risk = sl_open
  check_sl_guard period tolerance pnl (some limit) risk =
      tolerated period (abs fs (min fs pnl zero_f)) (abs fs limit) risk (tolerance_number tolerance)

  -- `get_daily_strategy_pnl` and `get_weekly_strategy_pnl`, or the RuntimeError of either
  pub data Pnl : Type 0 where
    no_pnl : String → Pnl
    pnls : F → F → Pnl

  pub record Readings : Type 0 where
    pub halt : Halt
    pub cap : Cap
    pub exposure : Exposure
    pub margin_config : Option (MarginConfig fs)
    pub margin : Snapshot fs
    pub strategy_id : Value fs
    pub ledger : String → Pnl
    pub daily_limit : Option F
    pub weekly_limit : Option F
    pub daily_tolerance : Value fs
    pub weekly_tolerance : Value fs
    pub risk_per_trade : Option F

  abbrev pub pnl_of : (String → Pnl) → Value fs → Pnl
  pnl_of ledger (text id) = if str_eq id "" then no_pnl "STRATEGY_ID_UNAVAILABLE" else ledger id
  pnl_of ledger _ = no_pnl "STRATEGY_ID_UNAVAILABLE"

  unfoldable pub strategy_pnls : Readings → Pnl
  strategy_pnls r = pnl_of r.ledger r.strategy_id

  unfoldable pub margin_guard : Readings → Option String
  unfolding check_current_margin_utility
  margin_guard r = check_current_margin_utility fs (margin_policy fs r.margin_config) r.margin

  -- the account, the position cap, the margin: the first that blocks
  unfoldable pub order_guard : Readings → Option String
  unfolding check_account_halt check_open_positions_limit margin_guard
  order_guard r =
      or_else (check_account_halt r.halt)
        (or_else (check_open_positions_limit r.cap r.exposure) (margin_guard r))

  unfoldable pub daily_guard : Readings → F → SlGuard
  unfolding check_sl_guard
  daily_guard r pnl = check_sl_guard daily r.daily_tolerance pnl r.daily_limit r.risk_per_trade

  unfoldable pub weekly_guard : Readings → F → SlGuard
  unfolding check_sl_guard
  weekly_guard r pnl = check_sl_guard weekly r.weekly_tolerance pnl r.weekly_limit r.risk_per_trade

  abbrev pub block : String → Manager → Manager × Decision
  block reason m = (emit_block_warning reason m, blocked (some reason))

  abbrev pub lock : Period → SlGuard → Manager → Manager × Decision
  lock period g m = (transition_strategy_lock period g.reason m, blocked g.reason)

  unfoldable pub decide_pnl : Readings → Manager → Pnl → Manager × Decision
  unfolding daily_guard weekly_guard transition_strategy_lock emit_block_warning
  decide_pnl r m (no_pnl reason) = block reason m
  decide_pnl r m (pnls day week) =
      if (daily_guard r day).stops
      then lock daily (daily_guard r day) m
      else if (weekly_guard r week).stops
      then lock weekly (weekly_guard r week) m
      else (record m { lock_state = running; announced = [] }, allowed)

  unfoldable pub decide : Readings → Manager → Option String → Manager × Decision
  unfolding decide_pnl strategy_pnls
  decide r m (some reason) = block reason m
  decide r m none = decide_pnl r m (strategy_pnls r)

  unfoldable pub can_open_new_trade : Readings → Manager → Manager × Decision
  unfolding decide order_guard
  can_open_new_trade r m = decide r m (order_guard r)

  pub record Status : Type 0 where
    pub daily_lock : Bool
    pub weekly_lock : Bool
    pub margin_lock : Bool
    pub margin_reason : Option String
    pub margin_utilization : Option F
    pub lock_state : Lock

  abbrev pub ratio : Option F → Option F → Option F
  ratio (some equity) (some margin) = some (div margin equity)
  ratio none margin = none
  ratio (some equity) none = none

  abbrev pub utilization_of : Snapshot fs → Option F
  utilization_of no_snapshot = none
  utilization_of (snapshot balance equity margin) =
      ratio (finite_positive fs equity) (finite_nonnegative fs margin)

  abbrev pub lock_state_of : Bool → Bool → Bool → Lock
  lock_state_of day week margin =
      if day
      then daily_locked
      else if week
      then weekly_locked
      else if margin
      then margin_locked
      else running

  abbrev pub status_of : Readings → Pnl → Option Status
  status_of r (no_pnl reason) = none
  status_of r (pnls day week) = some (record {
    daily_lock = (daily_guard r day).stops;
    weekly_lock = (weekly_guard r week).stops;
    margin_lock = is_some (margin_guard r);
    margin_reason = margin_guard r;
    margin_utilization = utilization_of r.margin;
    lock_state =
        lock_state_of (daily_guard r day).stops (weekly_guard r week).stops
          (is_some (margin_guard r));
  })

  -- `none` is the RuntimeError that `_strategy_pnls` lets through.
  unfoldable pub status_snapshot : Readings → Option Status
  unfolding strategy_pnls daily_guard weekly_guard margin_guard
  status_snapshot r = status_of r (strategy_pnls r)
