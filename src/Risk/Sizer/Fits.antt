-- ===== src/Risk/Sizer/Fits.antt =====
-- What a lot that the position sizer (risk/position_sizer.py) gives has passed.
use trading_snapshot.Base.{true, false, Option, none, some, ◌≡◌, refl, inl, inr, Bool-cases, arith}
use trading_snapshot.Base.Float.{Floats, abs, min}
use trading_snapshot.Risk.Sizer.{
  Rounding, PositionSizer, SymbolInfo, PerLot, Lot, choose_risk, risk_per_lot,
}

module _ (fs : Floats) where
  open fs use {F, zero_f, sub, mul, div, lt}

  -- The risk of one lot: the broker's estimate if there is one and it is positive, else the manual
  -- formula's.
  pub data RiskIs (manual : F) : Option F → F → Type 0 where
    estimated : (x : F) → lt zero_f x ≡ true → RiskIs manual (some x) x
    unusable : (x : F) → lt zero_f x ≡ false → RiskIs manual (some x) manual
    no_estimate : RiskIs manual none manual

  choose_risk-RiskIs : (manual : F) (o : Option F) → RiskIs manual o (choose_risk fs manual o).risk
  choose_risk-RiskIs manual none = no_estimate
  choose_risk-RiskIs manual (some x) = elim (Bool-cases (lt zero_f x)) [
    | inl usable ↦ rw usable (estimated x usable)
    | inr useless ↦ rw useless (unusable x useless)
  ]

  choose_risk-manual : (manual : F) (o : Option F) → (choose_risk fs manual o).manual ≡ manual
  choose_risk-manual manual none = refl
  choose_risk-manual manual (some x) = ground arith

  pub risk_per_lot-RiskIs :
      (estimate : F → F → Option F) (entry stop tick_size tick_value : F)
      → RiskIs
          (mul (div (abs fs (sub entry stop)) tick_size) tick_value)
          (estimate entry stop)
          (risk_per_lot fs estimate entry stop tick_size tick_value).risk
  unfolding risk_per_lot
  risk_per_lot-RiskIs estimate entry stop tick_size tick_value = choose_risk-RiskIs _ _

  pub risk_per_lot-manual :
      (estimate : F → F → Option F) (entry stop tick_size tick_value : F)
      → (risk_per_lot fs estimate entry stop tick_size tick_value).manual
        ≡ mul (div (abs fs (sub entry stop)) tick_size) tick_value
  unfolding risk_per_lot
  risk_per_lot-manual estimate entry stop tick_size tick_value = choose_risk-manual _ _

module _ (fs : Floats) (r : Rounding fs) (s : PositionSizer fs) (risk_usd : fs.F) where
  open fs use {F, zero_f, sub, mul, div, lt, le}

  module _ (i : SymbolInfo fs) where
    -- the whole steps in the raw lot, or the raw lot where there is no step
    pub data Stepped (raw rounded : F) : Type 0 where
      steps :
          le i.volume_step zero_f ≡ false
          → rounded ≡ r.round_8 (mul (r.floor (div raw i.volume_step)) i.volume_step)
          → Stepped raw rounded
      stepless : le i.volume_step zero_f ≡ true → rounded ≡ raw → Stepped raw rounded

    -- The exact lot behind an answer: from `whole_lot`, the lot cut to the broker's range, either
    -- kept with a risk within `risk_usd`, or lowered by one step and still not below the minimum.
    pub data Exact (p : PerLot fs) (whole_lot lot : F) : Type 0 where
      keeps : lot ≡ whole_lot → lt risk_usd (mul lot p.risk) ≡ false → Exact p whole_lot lot
      lowers :
          lot ≡ sub whole_lot i.volume_step
          → lt risk_usd (mul whole_lot p.risk) ≡ true
          → le i.volume_min lot ≡ true
          → Exact p whole_lot lot

    -- the cut to the broker's range: the minimum stands in only where that is allowed
    pub data Cut (rounded whole_lot : F) : Type 0 where
      within :
          whole_lot ≡ min fs rounded i.volume_max
          → lt rounded i.volume_min ≡ false
          → Cut rounded whole_lot
      raised :
          whole_lot ≡ min fs i.volume_min i.volume_max
          → s.allow_undersized_lot ≡ true
          → Cut rounded whole_lot

    pub record IsFitted (p : PerLot fs) (rounded : F) (a : Lot fs) : Type 0 where
      pub whole_lot : F
      pub exact : F
      pub cut : Cut rounded whole_lot
      pub fits : Exact p whole_lot exact
      pub lot_is : a.lot ≡ r.round_4 exact
      pub risk_is : a.actual_risk_usd ≡ r.round_2 (mul exact p.risk)

    -- The raw lot, from the buffered risk, is not above the ceiling, nor above the multiple of the
    -- manual formula's lot where that is positive; the answer comes from its whole steps.
    pub record IsSized (p : PerLot fs) (a : Lot fs) : Type 0 where
      pub raw : F
      pub rounded : F
      pub raw_is : raw ≡ div (mul risk_usd s.risk_buffer) p.risk
      pub per_lot_positive : le p.risk zero_f ≡ false
      pub plausible :
          lt zero_f p.manual ≡ true
          → lt zero_f (div (mul risk_usd s.risk_buffer) p.manual) ≡ true
          → lt (mul (div (mul risk_usd s.risk_buffer) p.manual) s.sanity_multiplier) raw ≡ false
      pub ceiling : (m : F) → s.max_lot ≡ some m → lt m raw ≡ false
      pub stepped : Stepped raw rounded
      pub fitted : IsFitted p rounded a

    pub record IsGranted (estimate : F → F → Option F) (entry stop : F) (a : Lot fs) : Type 0 where
      pub tick_size_positive : le i.tick_size zero_f ≡ false
      pub tick_value_positive : le i.tick_value zero_f ≡ false
      pub stop_apart : le (abs fs (sub entry stop)) zero_f ≡ false
      pub risk_positive : le risk_usd zero_f ≡ false
      pub per_lot : PerLot fs
      pub per_lot_is :
          RiskIs fs
            (mul (div (abs fs (sub entry stop)) i.tick_size) i.tick_value)
            (estimate entry stop)
            per_lot.risk
      pub manual_is : per_lot.manual ≡ mul (div (abs fs (sub entry stop)) i.tick_size) i.tick_value
      pub sized_by : IsSized per_lot a
