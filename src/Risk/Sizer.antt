-- ===== src/Risk/Sizer.antt =====
-- PositionSizer (risk/position_sizer.py): the lot of an order from its stop and its risk in the
-- account's currency. The broker's estimate (`estimate_profit_per_lot`) is an argument, and the
-- diagnostic prints are left out.
pub mod Fits
use trading_snapshot.Base.{
  Bool, true, false, not, ◌&&◌, Option, none, some, if◌then◌else◌, ◌≡◌, refl,
}
use trading_snapshot.Base.Float.{Floats, abs, min, whole}

-- `math.floor(x)` as a number of the carrier, and `round(x, digits)`.
pub record Rounding (fs : Floats) : Type 0 where
  pub floor : fs.F → fs.F
  pub round_2 : fs.F → fs.F
  pub round_4 : fs.F → fs.F
  pub round_8 : fs.F → fs.F

-- Whole numbers are their own roundings.
abbrev pub whole_rounding : Rounding whole
whole_rounding = record { floor = λ x. x; round_2 = λ x. x; round_4 = λ x. x; round_8 = λ x. x }

pub data Reason : Type 0 where
  no_symbol_info invalid_tick_size invalid_tick_value invalid_stop_distance invalid_risk : Reason
  invalid_risk_per_lot anomalous_lot lot_above_max lot_below_min cannot_fit_risk : Reason

pub data Source : Type 0 where
  order_calc_profit tick_formula : Source

module _ (fs : Floats) where
  open fs use {F, zero_f, sub, mul, div, lt, le}

  pub record SymbolInfo : Type 0 where
    pub tick_size : F
    pub tick_value : F
    pub volume_min : F
    pub volume_step : F
    pub volume_max : F

  pub record PositionSizer : Type 0 where
    pub risk_buffer : F
    pub allow_undersized_lot : Bool
    pub max_lot : Option F
    pub sanity_multiplier : F

  pub record PerLot : Type 0 where
    pub risk : F
    pub source : Source
    pub manual : F

  pub record Lot : Type 0 where
    pub lot : F
    pub actual_risk_usd : F
    pub risk_per_1_lot : F
    pub risk_source : Source
    pub stop_distance : F

  pub data Sizing : Type 0 where
    refused : Reason → Sizing
    sized : Lot → Sizing

  abbrev pub tick_risk : F → F → F → F → F
  tick_risk entry stop tick_size tick_value =
      mul (div (abs fs (sub entry stop)) tick_size) tick_value

  -- the broker's estimate if it is positive, the manual formula otherwise
  abbrev pub choose_risk : F → Option F → PerLot
  choose_risk manual none = record { risk = manual; source = tick_formula; manual = manual }
  choose_risk manual (some mt5) =
      if lt zero_f mt5
      then record { risk = mt5; source = order_calc_profit; manual = manual }
      else record { risk = manual; source = tick_formula; manual = manual }

  unfoldable pub risk_per_lot : (F → F → Option F) → F → F → F → F → PerLot
  risk_per_lot estimate entry stop tick_size tick_value =
      choose_risk (tick_risk entry stop tick_size tick_value) (estimate entry stop)

  module _ (r : Rounding fs) (s : PositionSizer) (i : SymbolInfo) (risk_usd : F) where
    unfoldable pub round_down_to_step : F → F → F
    round_down_to_step lot step =
        if le step zero_f then lot else r.round_8 (mul (r.floor (div lot step)) step)

    abbrev pub answer : F → PerLot → F → Sizing
    answer distance p lot = sized (record {
      lot = r.round_4 lot;
      actual_risk_usd = r.round_2 (mul lot p.risk);
      risk_per_1_lot = r.round_2 p.risk;
      risk_source = p.source;
      stop_distance = distance;
    })

    -- the risk that the lot takes, and one step less where it is too much
    unfoldable pub fit_risk : F → PerLot → F → Sizing
    fit_risk distance p lot =
        if lt risk_usd (mul lot p.risk)
        then if le i.volume_min (sub lot i.volume_step)
          then answer distance p (sub lot i.volume_step)
          else refused cannot_fit_risk
        else answer distance p lot

    unfoldable pub fit_volume : F → PerLot → F → Sizing
    unfolding fit_risk
    fit_volume distance p rounded =
        if lt rounded i.volume_min
        then if s.allow_undersized_lot
          then fit_risk distance p (min fs i.volume_min i.volume_max)
          else refused lot_below_min
        else fit_risk distance p (min fs rounded i.volume_max)

    abbrev pub above_max : F → Option F → Bool
    above_max raw none = false
    above_max raw (some ceiling) = lt ceiling raw

    -- the broker's estimate gives a lot far above the manual formula's
    unfoldable pub is_anomalous : F → F → F → Bool
    is_anomalous effective raw manual =
        lt zero_f manual
        && lt zero_f (div effective manual)
        && lt (mul (div effective manual) s.sanity_multiplier) raw

    unfoldable pub size_with : F → PerLot → Sizing
    unfolding fit_volume is_anomalous round_down_to_step
    size_with distance p =
        let effective = mul risk_usd s.risk_buffer in
        let raw = div effective p.risk in
        if le p.risk zero_f
        then refused invalid_risk_per_lot
        else if is_anomalous effective raw p.manual
        then refused anomalous_lot
        else if above_max raw s.max_lot
        then refused lot_above_max
        else fit_volume distance p (round_down_to_step raw i.volume_step)

    unfoldable pub size_position : (F → F → Option F) → F → F → Sizing
    unfolding size_with risk_per_lot
    size_position estimate entry stop =
        if le i.tick_size zero_f
        then refused invalid_tick_size
        else if le i.tick_value zero_f
        then refused invalid_tick_value
        else if le (abs fs (sub entry stop)) zero_f
        then refused invalid_stop_distance
        else if le risk_usd zero_f
        then refused invalid_risk
        else size_with (abs fs (sub entry stop))
            (risk_per_lot estimate entry stop i.tick_size i.tick_value)

  -- `broker.get_symbol_info()` may be None.
  unfoldable pub calculate_lot :
      Rounding fs → PositionSizer → Option SymbolInfo → (F → F → Option F) → F → F → F → Sizing
  unfolding size_position
  calculate_lot r s none estimate entry stop risk_usd = refused no_symbol_info
  calculate_lot r s (some i) estimate entry stop risk_usd =
      size_position r s i risk_usd estimate entry stop
