-- ===== src/Order/Plan.antt =====
-- The checks of `execute_signal` (core/order_executor.py) between the claim of a signal and its
-- submission: what is rejected, what is cancelled, and the order that is sent.
pub mod Bounds
use trading_snapshot.Base.{
  Bool, true, false, not, ◌&&◌, ◌||◌, Option, none, some, is_some, String, str_eq, if◌then◌else◌,
}
use trading_snapshot.Base.Float.{Floats, abs}

module _ (fs : Floats) where
  open fs use {F, zero_f, add, sub, mul, lt, le}

  pub record Signal : Type 0 where
    pub side : String
    pub expected_entry : F
    pub stop_distance : F
    pub tp_distance : Option F
    pub stop_price : Option F

  -- `TAKE_PROFIT_MODEL == "NONE"`, `STOP_LOSS_MODEL == "CUSTOM"` and the slippage limit.
  pub record ExecutionConfig : Type 0 where
    pub no_tp_model : Bool
    pub custom_stop_model : Bool
    pub max_slippage_as_stop_fraction : F

  pub record Quote : Type 0 where
    pub bid : F
    pub ask : F

  pub record Order : Type 0 where
    pub volume : F
    pub sl : F
    pub tp : F

  pub data Plan : Type 0 where
    cancels rejects : String → Plan
    submits : Order → Plan

  -- What the risk manager answers for an entry and a stop, and for the margin of a volume.
  pub record RiskAnswers : Type 0 where
    -- the lot, or the reason why there is none
    pub calculate_position_size : F → F → Option F
    pub size_reason : String
    pub validate_margin_for_order : F → F → F → Option String

  pub data Stop : Type 0 where
    refused : String → Stop
    distance : Option F → F → Stop

  abbrev pub is_buy : Signal → Bool
  is_buy s = str_eq s.side "BUY"

  abbrev pub market_price : Signal → Quote → F
  market_price s q = if is_buy s then q.ask else q.bid

  abbrev pub is_valid_side : Signal → F → F → Bool
  is_valid_side s sl market = (is_buy s && lt sl market) || (str_eq s.side "SELL" && lt market sl)

  abbrev pub custom_stop : Signal → F → Option F → Stop
  custom_stop s market none = refused "CUSTOM stop model requires stop_price"
  custom_stop s market (some sl) =
      if is_valid_side s sl market
      then distance (some sl) (abs fs (sub s.expected_entry sl))
      else refused "custom stop is beyond market entry"

  abbrev pub plain_stop : Signal → Option F → Stop
  plain_stop s none = distance none s.stop_distance
  plain_stop s (some _) = refused "stop_price requires STOP_LOSS_MODEL=CUSTOM"

  unfoldable pub choose_stop : ExecutionConfig → Signal → F → Stop
  choose_stop c s market =
      if c.custom_stop_model then custom_stop s market s.stop_price else plain_stop s s.stop_price

  abbrev pub stop_level : Signal → F → Option F → F → F
  stop_level s market (some sl) d = sl
  stop_level s market none d = if is_buy s then sub market d else add market d

  abbrev pub target : Signal → F → Option F → F
  target s market none = zero_f
  target s market (some t) = if is_buy s then add market t else sub market t

  abbrev pub with_margin : Signal → F → F → F → Option String → Plan
  with_margin s market sl lot (some reason) = rejects reason
  with_margin s market sl lot none =
      submits (record { volume = lot; sl = sl; tp = target s market s.tp_distance })

  abbrev pub with_size : RiskAnswers → Signal → F → F → Option F → Plan
  with_size a s market sl none = rejects a.size_reason
  with_size a s market sl (some lot) =
      with_margin s market sl lot (a.validate_margin_for_order lot market sl)

  unfoldable pub size_order : RiskAnswers → Signal → F → F → Plan
  size_order a s market sl = with_size a s market sl (a.calculate_position_size market sl)

  unfoldable pub plan_stop : ExecutionConfig → RiskAnswers → Signal → F → Stop → Plan
  unfolding size_order
  plan_stop c a s market (refused reason) = rejects reason
  plan_stop c a s market (distance level d) =
      if le d zero_f
      then rejects "invalid stop-loss distance"
      else if lt (mul d c.max_slippage_as_stop_fraction) (abs fs (sub market s.expected_entry))
      then cancels "slippage limit exceeded"
      else size_order a s market (stop_level s market level d)

  abbrev pub is_bad_target : Option F → Bool
  is_bad_target none = false
  is_bad_target (some t) = le t zero_f

  -- `(tp_distance is None) != no_tp_model`
  abbrev pub mismatch : Option F → Bool → Bool
  mismatch none no_tp = not no_tp
  mismatch (some _) no_tp = no_tp

  unfoldable pub plan_order : ExecutionConfig → RiskAnswers → Signal → Option Quote → Plan
  unfolding plan_stop choose_stop
  plan_order c a s none = rejects "tick unavailable"
  plan_order c a s (some q) =
      if mismatch s.tp_distance c.no_tp_model
      then rejects "signal take-profit does not match TAKE_PROFIT_MODEL"
      else if is_bad_target s.tp_distance
      then rejects "invalid take-profit distance"
      else plan_stop c a s (market_price s q) (choose_stop c s (market_price s q))
