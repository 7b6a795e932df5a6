-- ===== src/Risk/Position/Protected.antt =====
-- What a position that passes `validate_open_position` (risk/risk_manager.py) is known to have.
use trading_snapshot.Base.{true, false, ◌&&◌, Option, none, some, ◌≡◌, ◌⊎◌}
use trading_snapshot.Base.Float.{Floats, abs, max}
use trading_snapshot.Account.Value.{Value}
use trading_snapshot.Risk.Number.{as_number}
use trading_snapshot.Risk.Sizer.Fits.{RiskIs}
use trading_snapshot.Risk.Margin.Order.Losses.{Sided}
use trading_snapshot.Risk.Position.Slippage.{IsSlippage}
use trading_snapshot.Risk.Sizer.{SymbolInfo}
use trading_snapshot.Risk.Gate.{tolerance_number}
use trading_snapshot.Risk.Margin.Order.{Side, buy, sell, Position}
use trading_snapshot.Risk.Position.{
  Verdict, valid, elevated, RiskConfig, ExecutionContext, Terms, micro, Held, State,
}

module _ (fs : Floats) (c : RiskConfig fs) (t : Terms fs) (context : Option (ExecutionContext fs))
    (last : State fs) where
  open fs use {F, zero_f, one_f, add, sub, mul, div, lt, le, finite}

  -- the position is kept: `(True, None)` or `(True, POSITION_RISK_ELEVATED_BY_SLIPPAGE)`
  pub data Kept : State fs × Verdict fs → Type 0 where
    kept_valid : (s : State fs) → Kept (s, valid)
    kept_elevated : (s : State fs) → Kept (s, elevated)

  -- The limits are known and the risk is within them, or the excess is entry slippage.
  pub record IsWithin (h : Held fs) (info : SymbolInfo fs) (per_lot : F) : Type 0 where
    pub max_risk : F
    pub tolerance : F
    pub max_risk_is : as_number fs c.risk_per_trade ≡ some max_risk
    pub max_risk_positive : le max_risk zero_f ≡ false
    pub tolerance_is : tolerance_number fs c.tolerance ≡ some tolerance
    pub per_lot_positive : le per_lot zero_f ≡ false
    pub bounded :
        (lt (mul max_risk (add (add one_f tolerance) (micro fs))) (mul per_lot h.volume) ≡ false)
        ⊎ ((cached : ExecutionContext fs) × (context ≡ some cached)
            × IsSlippage fs c h cached (mul per_lot h.volume) max_risk tolerance)

  -- The risk of one lot from the entry to the stop: the broker's estimate, or the formula from a
  -- tick size that is not zero.
  pub record IsBounded (h : Held fs) : Type 0 where
    pub info : SymbolInfo fs
    pub per_lot : F
    pub info_is : t.info ≡ some info
    pub tick_size_set : (le info.tick_size zero_f && le zero_f info.tick_size) ≡ false
    pub per_lot_is :
        RiskIs fs
          (mul (div (abs fs (sub h.entry h.sl)) info.tick_size) info.tick_value)
          (t.estimate h.entry h.sl)
          per_lot
    pub within : IsWithin h info per_lot

  -- a finite number
  pub record FiniteIs (v : Value fs) (x : F) : Type 0 where
    pub number_is : as_number fs v ≡ some x
    pub is_finite : finite x ≡ true

  -- the target that counts: none where none is required
  pub data TargetIs (v : Value fs) : Option F → Type 0 where
    not_required : c.tp_required ≡ false → TargetIs v none
    required : (x : F) → c.tp_required ≡ true → FiniteIs v x → TargetIs v (some x)

  pub record IsHeld (p : Position fs) (h : Held fs) (tp : Option F) : Type 0 where
    pub symbol_is : p.symbol ≡ some c.symbol
    pub side_is : Sided p.side h.side
    pub entry_is : FiniteIs p.price_open h.entry
    pub sl_is : FiniteIs p.sl h.sl
    pub tp_is : TargetIs p.tp tp
    pub volume_is : FiniteIs p.volume h.volume

  -- The stop is on its right side: with a target, entry and stop are below it for a BUY and above it
  -- for a SELL; without one, the stop is below the entry for a BUY and above it for a SELL.
  pub data IsOnSide : Side → F → F → Option F → Type 0 where
    long_to :
        (entry sl tp : F) → lt entry tp ≡ true → lt sl tp ≡ true → IsOnSide buy entry sl (some tp)
    short_to :
        (entry sl tp : F) → lt tp entry ≡ true → lt tp sl ≡ true → IsOnSide sell entry sl (some tp)
    long : (entry sl : F) → lt sl entry ≡ true → IsOnSide buy entry sl none
    short : (entry sl : F) → lt entry sl ≡ true → IsOnSide sell entry sl none

  -- the stop is not on the losing side of the entry
  pub data IsEven : Side → F → F → Type 0 where
    even_long :
        (entry sl : F) → le (max fs (sub entry sl) zero_f) zero_f ≡ true → IsEven buy entry sl
    even_short :
        (entry sl : F) → le (max fs (sub sl entry) zero_f) zero_f ≡ true → IsEven sell entry sl

  -- The levels are positive, the stop is on its side, and the risk at the stop is bounded unless
  -- the stop is at or past break-even.
  pub record IsProtected (h : Held fs) (tp : Option F) : Type 0 where
    pub entry_positive : le h.entry zero_f ≡ false
    pub sl_positive : le h.sl zero_f ≡ false
    pub volume_positive : le h.volume zero_f ≡ false
    pub tp_positive : (x : F) → tp ≡ some x → le x zero_f ≡ false
    pub on_side : IsOnSide h.side h.entry h.sl tp
    pub bounded : IsEven h.side h.entry h.sl ⊎ IsBounded h
