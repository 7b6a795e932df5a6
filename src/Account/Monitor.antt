-- ===== src/Account/Monitor.antt =====
-- AccountMonitor (risk/account_monitor.py) over the store of Account/State.antt. The kill switch
-- is the object that the constructor takes, an interface; the broker's answers, the database and
-- the clock are arguments of each call. A message is the constructor of what it reports.

pub mod Check
pub mod Startup
pub mod Wiring
use trading_snapshot.Base.{
  ℕ, Bool, true, false, not, ◌&&◌, ◌||◌, Option, none, some, List, [], ◌∷◌, ◌++◌, String,
  if◌then◌else◌, ◌==◌, ◌≡◌,
}
use trading_snapshot.Base.Int.{pos}
use trading_snapshot.Base.Float.{Floats}
use trading_snapshot.Intent.BrokerId.{Text}
use trading_snapshot.Account.Broker.{Listing, positions, query_failed}
use trading_snapshot.Account.Positions.{FlattenResult, is_flat}
use trading_snapshot.Account.Value.{Result, ok, err, Value, number}
use trading_snapshot.Account.State.{
  AccountState, Db, World, read_state, record_equity, halt, reset_if_new,
}

pub data Breach : Type 0 where
  hard_dd_breach dd_breach profit_target profit_warning : Breach

pub data AlertKind : Type 0 where
  of_breach : Breach → AlertKind
  halt_propagated halt_recovery_degraded : AlertKind

abbrev pub breach_name : Breach → String
breach_name hard_dd_breach = "HARD_DD_BREACH"
breach_name dd_breach = "DD_BREACH"
breach_name profit_target = "PROFIT_TARGET"
breach_name profit_warning = "PROFIT_WARNING"

abbrev pub flatten_reason : Breach → String
flatten_reason hard_dd_breach = "ACCOUNT_HARD_DD_BREACH"
flatten_reason dd_breach = "ACCOUNT_DD_BREACH"
flatten_reason profit_target = "ACCOUNT_PROFIT_TARGET"
flatten_reason profit_warning = "ACCOUNT_PROFIT_WARNING"

abbrev pub alert_code : AlertKind → ℕ
alert_code (of_breach hard_dd_breach) = 0
alert_code (of_breach dd_breach) = 1
alert_code (of_breach profit_target) = 2
alert_code (of_breach profit_warning) = 3
alert_code halt_propagated = 4
alert_code halt_recovery_degraded = 5

-- Why the kill switch is triggered.
pub data Cause : Type 0 where
  account_breach : Breach → Cause
  halted_by_sibling : Option String → Cause
  store_unavailable reset_blocked : Cause

pub data Flattened : Type 0 where
  raised returned_none : Flattened
  flattened : FlattenResult → Flattened

-- The kill switch, with the broker that it flattens.
pub record Switch : Type 1 where
  pub K : Type 0
  pub triggered : K → Bool
  pub trigger : Cause → K → K
  pub flatten_all : String → Bool → K → Flattened × K
  pub trigger-triggered : (c : Cause) (k : K) → triggered (trigger c k) ≡ true
  pub flatten-triggered :
      (r : String) (quiet : Bool) (k : K) → triggered (flatten_all r quiet k).1 ≡ triggered k

pub data Health : Type 0 where
  running halted_flat halted_degraded : Health

pub data Action : Type 0 where
  ok_action warn_action halt_action halt_degraded_action : Action

pub data Log : Type 0 where
  alerted : AlertKind → Log
  state_unavailable reset_applied startup_reset_blocked : Log
  flatten_raised : Breach → Log

abbrev pub proves_flat : Flattened → Bool
proves_flat (flattened r) = is_flat r
proves_flat _ = false

module _ (fs : Floats) where
  open fs use {F, zero_f, sub, mul, div, of_ℤ, lt, le}

  pub record Rules : Type 0 where
    pub max_dd_percent : Option F
    pub hard_dd_percent : Option F
    pub profit_target_percent : Option F
    pub profit_warning_percent : Option F
    pub starting_equity : Option (Value fs)

  -- `self.state`: an `_empty_state`, or the store's row.
  pub data View : Type 0 where
    blank : Bool → Option String → View
    row : AccountState fs → View

  abbrev pub view_of : Option (AccountState fs) → View
  view_of none = blank false none
  view_of (some s) = row s

  abbrev pub is_halted : View → Bool
  is_halted (blank h _) = h
  is_halted (row s) = s.halted

  abbrev pub reason_of : View → Option String
  reason_of (blank _ r) = r
  reason_of (row s) = s.halt_reason

  abbrev pub peak_of : View → Option F
  peak_of (blank _ _) = none
  peak_of (row s) = s.peak_equity

  abbrev pub starting_of : View → Option F
  starting_of (blank _ _) = none
  starting_of (row s) = s.starting_equity

  abbrev pub last_of : View → Option F
  last_of (blank _ _) = none
  last_of (row s) = s.last_equity

  pub record Report : Type 0 where
    pub action : Action
    pub breach : Option String
    pub dd_percent : Option F
    pub profit_percent : Option F
    pub equity : Option F
    pub peak_equity : Option F
    pub starting_equity : Option F
    pub halted : Bool
    pub halt_health : Health

  -- What the broker and the database answer during one check.
  pub record Meets : Type 0 where
    pub equity : Option F
    pub balance : Option F
    pub on_read : World fs
    pub on_record : World fs
    pub on_halt : World fs
    pub now : F

  -- `value is None or value <= 0`
  abbrev pub is_usable : F → Bool
  is_usable x = not (le x zero_f)

  -- Python's truth of a float that may be None.
  abbrev pub truthy : Option F → Bool
  truthy none = false
  truthy (some x) = not (le x zero_f && le zero_f x)

  abbrev pub reaches : F → Option F → Bool
  reaches x none = false
  reaches x (some limit) = le limit x

  unfoldable pub evaluate_breach : Rules → F → F → Option Breach
  evaluate_breach rules dd profit =
      if reaches dd rules.hard_dd_percent
      then some hard_dd_breach
      else if reaches dd rules.max_dd_percent
      then some dd_breach
      else if reaches profit rules.profit_target_percent
      then some profit_target
      else if reaches profit rules.profit_warning_percent
      then some profit_warning
      else none

  abbrev pub percent : F → F → F
  percent change base = mul (div change base) (of_ℤ (pos 100))

  abbrev pub dd_of : Option F → F → F
  dd_of none equity = zero_f
  dd_of (some peak) equity = if truthy (some peak) then percent (sub peak equity) peak else zero_f

  abbrev pub profit_of : Option F → F → F
  profit_of none equity = zero_f
  profit_of (some start) equity =
      if truthy (some start) then percent (sub equity start) start else zero_f

  -- `balance if balance and balance > 0 else equity`, where no starting equity is configured.
  abbrev pub configured : Rules → Option F → F → Value fs
  configured rules balance equity = elim rules.starting_equity [
    | some v ↦ v
    | none ↦ elim balance [
      | none ↦ number equity
      | some b ↦ if lt zero_f b then number b else number equity
    ]
  ]
