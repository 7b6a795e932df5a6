-- ===== src/Risk/Position.antt =====
-- `validate_open_position` of RiskManager (risk/risk_manager.py): whether an open position is
-- protected and its risk is within what the strategy allows, entry slippage included.
pub mod Protected
pub mod Slippage
use trading_snapshot.Base.{
  Bool, true, false, not, ◌&&◌, ◌||◌, Option, none, some, String, str_eq, if◌then◌else◌,
}
use trading_snapshot.Base.Int.{pos}
use trading_snapshot.Base.Float.{Floats, abs, max}
use trading_snapshot.Account.Value.{Value, null, number}
use trading_snapshot.Risk.Number.{as_number, strict_number, kept, finite_positive}
use trading_snapshot.Risk.Sizer.{SymbolInfo, risk_per_lot}
use trading_snapshot.Risk.Gate.{tolerance_number}
use trading_snapshot.Risk.Margin.Order.{Side, buy, sell, side_of, downside, Position}

module _ (fs : Floats) where
  open fs use {F, zero_f, one_f, add, sub, mul, div, of_ℤ, lt, le, finite}

  pub data Verdict : Type 0 where
    valid : Verdict
    -- POSITION_RISK_ELEVATED_BY_SLIPPAGE, which is valid as well
    elevated : Verdict
    invalid : String → Verdict

  -- `_last_position_risk`
  pub record PositionRisk : Type 0 where
    pub actual_risk : F
    pub configured_risk : F
    pub planned_risk : Option F

  -- SYMBOL, `TAKE_PROFIT_MODEL != "NONE"`, RISK_PER_TRADE_USD and the two tolerances
  pub record RiskConfig : Type 0 where
    pub symbol : String
    pub tp_required : Bool
    pub risk_per_trade : Value fs
    pub tolerance : Value fs
    pub slippage_tolerance : Value fs

  -- the fields of the execution cache that are read; an absent key is `null`
  pub record ExecutionContext : Type 0 where
    pub requested_entry_price : Value fs
    pub expected_entry_price : Value fs
    pub actual_entry_price : Value fs
    pub initial_sl : Value fs
    pub planned_risk_usd : Value fs
    pub risk_usd : Value fs
    pub entry_slippage : Value fs

  -- `broker.get_symbol_info()` with its point, and `estimate_profit_per_lot`
  pub record Terms : Type 0 where
    pub info : Option (SymbolInfo fs)
    pub point : Value fs
    pub estimate : F → F → Option F

  abbrev pub eq : F → F → Bool
  eq a b = le a b && le b a

  -- 1e-6 and 1e-9, as the nearest float to the quotient
  abbrev pub micro : F
  micro = div one_f (of_ℤ (pos 1_000_000))

  abbrev pub nano : F
  nano = div one_f (of_ℤ (pos 1_000_000_000))

  -- `math.isclose(a, b, abs_tol=tol)` with its default relative tolerance
  unfoldable pub isclose : F → F → F → Bool
  isclose a b tol =
      eq a b
      || (finite a
          && finite b
          && (le (abs fs (sub b a)) (abs fs (mul nano b))
              || le (abs fs (sub b a)) (abs fs (mul nano a))
              || le (abs fs (sub b a)) tol))

  -- `max_risk * (1 + tolerance + 1e-6)`
  abbrev pub allowance : F → F → F
  allowance max_risk tolerance = mul max_risk (add (add one_f tolerance) micro)

  abbrev pub fallback : Value fs → Value fs → Value fs
  fallback null other = other
  fallback v other = v

  abbrev pub finite_strict : Value fs → Option F
  finite_strict v = kept fs finite (strict_number fs v)

  abbrev pub first_positive : Option F → Option F → Option F
  first_positive (some x) other = some x
  first_positive none other = other

  abbrev pub is_adverse : Side → F → F → F → Bool
  is_adverse buy entry reference tol = lt (add reference tol) entry
  is_adverse sell entry reference tol = lt entry (sub reference tol)

  -- the numbers of the execution cache, all of them finite
  pub record Execution : Type 0 where
    pub reference : F
    pub actual : F
    pub initial_sl : F
    pub planned : F
    pub slippage : F

  abbrev pub collect : Option F → Option F → Option F → Option F → Option F → Option Execution
  collect (some reference) (some actual) (some stop) (some planned) (some slippage) = some (record {
    reference = reference;
    actual = actual;
    initial_sl = stop;
    planned = planned;
    slippage = slippage;
  })
  collect none actual stop planned slippage = none
  collect (some reference) none stop planned slippage = none
  collect (some reference) (some actual) none planned slippage = none
  collect (some reference) (some actual) (some stop) none slippage = none
  collect (some reference) (some actual) (some stop) (some planned) none = none

  unfoldable pub execution_of : ExecutionContext → Option Execution
  execution_of c =
      collect (finite_strict (fallback c.requested_entry_price c.expected_entry_price))
        (finite_strict c.actual_entry_price) (finite_strict c.initial_sl)
        (finite_strict (fallback c.planned_risk_usd c.risk_usd)) (finite_strict c.entry_slippage)

  abbrev pub slippage_number : Value fs → Option F
  slippage_number v = kept fs (λ x. finite x && not (lt x zero_f)) (strict_number fs v)

  -- the position whose numbers have been read
  pub record Held : Type 0 where
    pub side : Side
    pub entry : F
    pub sl : F
    pub volume : F

  unfoldable pub is_slippage :
      Held → (actual_risk max_risk tolerance slippage_tolerance point : F) → Execution → Bool
  unfolding isclose
  is_slippage h actual_risk max_risk tolerance slippage_tolerance point e =
      let tol = mul point (of_ℤ (pos 2)) in
      let observed = abs fs (sub h.entry e.reference) in
      isclose h.entry e.actual tol
      && isclose h.sl e.initial_sl tol
      && not (le observed zero_f)
      && isclose observed e.slippage tol
      && is_adverse h.side h.entry e.reference tol
      && not (lt (allowance max_risk tolerance) e.planned)
      && not
          (lt (mul max_risk (add (add (add one_f tolerance) slippage_tolerance) micro)) actual_risk)

  abbrev pub excess_of :
      Held
      → (actual_risk max_risk tolerance : F) → Option F
      → Option F
      → Option Execution
      → Option F
  excess_of h actual max_risk tolerance (some slip) (some point) (some e) =
      if is_slippage h actual max_risk tolerance slip point e then some e.planned else none
  excess_of h actual max_risk tolerance none point e = none
  excess_of h actual max_risk tolerance (some slip) none e = none
  excess_of h actual max_risk tolerance (some slip) (some point) none = none

  abbrev pub context_of : Option ExecutionContext → Option Execution
  context_of none = none
  context_of (some c) = execution_of c

  -- the planned risk of a position whose excess is entry slippage
  unfoldable pub risk_excess_is_entry_slippage :
      RiskConfig → SymbolInfo fs → Value fs → Option ExecutionContext → Held → F → F → F → Option F
  unfolding is_slippage execution_of
  risk_excess_is_entry_slippage c i point context h actual max_risk tolerance =
      excess_of h actual max_risk tolerance (slippage_number c.slippage_tolerance)
        (first_positive (finite_positive fs point) (finite_positive fs (number i.tick_size)))
        (context_of context)

  abbrev pub State : Type 0
  State = Option PositionRisk

  module _ (c : RiskConfig) (t : Terms) (context : Option ExecutionContext) (last : State) where
    abbrev pub refuse : String → State × Verdict
    refuse reason = (last, invalid reason)

    abbrev pub need : {A : Type 0} → String → Option A → (A → State × Verdict) → State × Verdict
    need reason none next = refuse reason
    need reason (some a) next = next a

    abbrev pub seen : F → F → Option F → State
    seen actual max_risk planned =
        some (record { actual_risk = actual; configured_risk = max_risk; planned_risk = planned })

    abbrev pub excess_verdict : F → F → Option F → State × Verdict
    excess_verdict actual max_risk none =
        (seen actual max_risk none, invalid "POSITION_RISK_EXCEEDS_LIMIT")
    excess_verdict actual max_risk (some planned) = (seen actual max_risk (some planned), elevated)

    unfoldable pub limit_verdict : SymbolInfo fs → Held → F → F → F → State × Verdict
    unfolding risk_excess_is_entry_slippage
    limit_verdict i h actual max_risk tolerance =
        if lt (allowance max_risk tolerance) actual
        then excess_verdict actual max_risk
            (risk_excess_is_entry_slippage c i t.point context h actual max_risk tolerance)
        else (seen actual max_risk none, valid)

    -- `isinstance(max_risk, (int, float))` and `max_risk > 0`
    abbrev pub limit_number : Value fs → Option F
    limit_number v = kept fs (λ x. not (le x zero_f)) (as_number fs v)

    -- A tick size of zero divides by zero inside the `try`.
    abbrev pub usable_info : Option (SymbolInfo fs) → Option (SymbolInfo fs)
    usable_info none = none
    usable_info (some i) = if eq i.tick_size zero_f then none else some i

    unfoldable pub known_risk : Held → SymbolInfo fs → F → State × Verdict
    unfolding limit_verdict
    known_risk h i per_lot =
        if le per_lot zero_f
        then refuse "POSITION_RISK_DISTANCE_INVALID"
        else need "POSITION_RISK_LIMIT_INVALID" (limit_number c.risk_per_trade) (λ max_risk.
          need "POSITION_RISK_TOLERANCE_INVALID" (tolerance_number fs c.tolerance)
            (λ tolerance. limit_verdict i h (mul per_lot h.volume) max_risk tolerance))

    unfoldable pub risk_verdict : Held → State × Verdict
    unfolding known_risk
    risk_verdict h = need "POSITION_RISK_DISTANCE_UNAVAILABLE" (usable_info t.info) (λ i.
        known_risk h i (risk_per_lot fs t.estimate h.entry h.sl i.tick_size i.tick_value).risk)

    -- the stop on the right side of the target, or of the entry where there is none
    abbrev pub is_protected : Side → F → F → Option F → Bool
    is_protected buy entry sl (some tp) = lt entry tp && lt sl tp
    is_protected sell entry sl (some tp) = lt tp entry && lt tp sl
    is_protected buy entry sl none = lt sl entry
    is_protected sell entry sl none = lt entry sl

    abbrev pub is_low : Option F → Bool
    is_low none = false
    is_low (some tp) = le tp zero_f

    -- `tp` is `none` where no target is required
    unfoldable pub levels_verdict : Held → Option F → State × Verdict
    unfolding risk_verdict
    levels_verdict h tp =
        if le h.entry zero_f || le h.sl zero_f || le h.volume zero_f || is_low tp
        then refuse "POSITION_SL_TP_REQUIRED"
        else if not (is_protected h.side h.entry h.sl tp)
        then refuse "POSITION_SL_TP_DIRECTION_INVALID"
        else if eq (downside fs h.side h.entry h.sl) zero_f
        then (last, valid)
        else risk_verdict h

    abbrev pub finite_number : Value fs → Option F
    finite_number v = kept fs finite (as_number fs v)

    abbrev pub wrap : Option F → Option (Option F)
    wrap none = none
    wrap (some x) = some (some x)

    abbrev pub target_of : Bool → Value fs → Option (Option F)
    target_of false tp = some none
    target_of true tp = wrap (finite_number tp)

    unfoldable pub position_verdict : Position fs → State × Verdict
    unfolding levels_verdict side_of
    position_verdict p = need "POSITION_SIDE_INVALID" (side_of p.side) (λ side.
        need "POSITION_INVALID_NUMERIC_FIELD" (finite_number p.price_open) (λ entry.
          need "POSITION_INVALID_NUMERIC_FIELD" (finite_number p.sl) (λ sl.
            need "POSITION_INVALID_NUMERIC_FIELD" (target_of c.tp_required p.tp) (λ tp.
              need "POSITION_INVALID_NUMERIC_FIELD" (finite_number p.volume) (λ volume.
                levels_verdict (record { side = side; entry = entry; sl = sl; volume = volume })
                  tp)))))

    abbrev pub has_symbol : Option String → Bool
    has_symbol none = false
    has_symbol (some symbol) = str_eq symbol c.symbol

    unfoldable pub validate_open_position : Option (Position fs) → State × Verdict
    unfolding position_verdict
    validate_open_position none = (last, valid)
    validate_open_position (some p) =
        if not (has_symbol p.symbol) then refuse "POSITION_SYMBOL_MISMATCH" else position_verdict p
