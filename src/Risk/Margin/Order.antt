-- ===== src/Risk/Margin/Order.antt =====
-- `validate_margin_for_order` of RiskManager (risk/risk_manager.py): the margin after a new order
-- against the equity that is left when every stop is reached, stressed by a multiplier.
pub mod Stressed
pub mod Losses
use trading_snapshot.Base.{
  Bool, true, false, not, ◌&&◌, Option, none, some, List, [], ◌∷◌, String, str_eq, ◌==◌,
  if◌then◌else◌,
}
use trading_snapshot.Base.Int.{ℤ, pos, negsuc}
use trading_snapshot.Base.Float.{Floats, min, max}
use trading_snapshot.Account.Value.{Value}
use trading_snapshot.Risk.Number.{as_number, kept, finite_nonnegative, finite_positive}
use trading_snapshot.Risk.Margin.{
  Limits, Policy, disabled, invalid_policy, policy, Snapshot, no_snapshot, snapshot,
}
use trading_snapshot.Risk.Gate.{Manager, emit_block_warning}

pub data Side : Type 0 where
  buy sell : Side

-- `position.type`: an int, a string, or anything else.
pub data RawSide : Type 0 where
  code : ℤ → RawSide
  word : String → RawSide
  other_type : RawSide

abbrev pub side_of_word : String → Option Side
side_of_word w = if str_eq w "BUY" then some buy else if str_eq w "SELL" then some sell else none

abbrev pub side_of_code : ℤ → Option Side
side_of_code (pos n) = if n == 0 then some buy else if n == 1 then some sell else none
side_of_code (negsuc n) = none

-- `{0: "BUY", 1: "SELL", "BUY": "BUY", "SELL": "SELL"}.get(raw_side)`
unfoldable pub side_of : RawSide → Option Side
side_of (code n) = side_of_code n
side_of (word w) = side_of_word w
side_of other_type = none

module _ (fs : Floats) where
  open fs use {F, zero_f, add, sub, mul, div, lt, le, finite}

  -- the attributes of a position of the broker; a symbol that is no string is `none`
  pub record Position : Type 0 where
    pub symbol : Option String
    pub side : RawSide
    pub price_open : Value fs
    pub sl : Value fs
    pub tp : Value fs
    pub volume : Value fs

  -- `downside`: how far the stop is on the losing side of the entry
  abbrev pub downside : Side → F → F → F
  downside buy entry sl = max fs (sub entry sl) zero_f
  downside sell entry sl = max fs (sub sl entry) zero_f

  abbrev pub stress_price : Side → F → F → F → F
  stress_price buy entry sl multiplier = sub entry (mul (downside buy entry sl) multiplier)
  stress_price sell entry sl multiplier = add entry (mul (downside sell entry sl) multiplier)

  abbrev pub loss_of : Option F → Option F
  loss_of none = none
  loss_of (some profit) = some (min fs profit zero_f)

  abbrev pub above_zero : Value fs → Option F
  above_zero v = kept fs (λ x. finite x && not (le x zero_f)) (as_number fs v)

  -- `estimate_order_profit` of the broker
  abbrev pub Estimate : Type 0
  Estimate = Side → String → F → F → F → Option F

  module _ (estimate : Estimate) (multiplier : F) where
    abbrev pub stress_at : Side → String → Option F → Option F → Option F → Option F
    stress_at side symbol none entry sl = none
    stress_at side symbol (some volume) none sl = none
    stress_at side symbol (some volume) (some entry) none = none
    stress_at side symbol (some volume) (some entry) (some sl) =
        if le (stress_price side entry sl multiplier) zero_f
        then none
        else loss_of (estimate side symbol volume entry (stress_price side entry sl multiplier))

    unfoldable pub order_stress_profit :
        Option Side → String → Value fs → Value fs → Value fs → Option F
    order_stress_profit none symbol volume entry sl = none
    order_stress_profit (some side) symbol volume entry sl =
        stress_at side symbol (above_zero volume) (above_zero entry) (above_zero sl)

    abbrev pub stress_of_symbol : Position → Option String → Option F
    stress_of_symbol p none = none
    stress_of_symbol p (some symbol) =
        if str_eq symbol ""
        then none
        else order_stress_profit (side_of p.side) symbol p.volume p.price_open p.sl

    unfoldable pub position_stress_profit : Position → Option F
    unfolding order_stress_profit side_of
    position_stress_profit p = stress_of_symbol p p.symbol

    abbrev pub add_profit : F → Option F → Option F
    add_profit total none = none
    add_profit total (some profit) = some (add total profit)

    -- the loop over the open positions; `none` is a position without a known stress
    unfoldable pub add_positions : Option F → List Position → Option F
    unfolding position_stress_profit
    add_positions total [] = total
    add_positions none (p ∷ ps) = none
    add_positions (some total) (p ∷ ps) =
        add_positions (add_profit total (position_stress_profit p)) ps

  -- what the broker answers for one order; `has_methods` tells that its three methods exist
  pub record Terminal : Type 0 where
    pub has_methods : Bool
    pub account : Snapshot fs
    pub additional_margin : Value fs
    pub open_positions : Option (List Position)
    pub estimate_order_profit : Estimate

  pub record Order : Type 0 where
    pub side : String
    pub symbol : String
    pub volume : Value fs
    pub entry : Value fs
    pub sl : Value fs

  pub record Projection : Type 0 where
    pub stressed_equity : F
    pub projected_margin : F
    pub projected_utilization : F

  pub data Verdict : Type 0 where
    unchecked : Verdict
    accepted : Projection → Verdict
    rejected : String → Verdict

  unfoldable pub project_margin : Limits fs → F → F → F → F → Verdict
  project_margin l balance margin additional stress =
      let equity = add balance stress in
      let projected = mul (add margin additional) l.estimate_buffer in
      if le equity zero_f
      then rejected "MARGIN_STRESS_EQUITY_NONPOSITIVE"
      else if le (div projected equity) l.max_utilization
      then accepted (record {
        stressed_equity = equity;
        projected_margin = projected;
        projected_utilization = div projected equity;
      })
      else rejected "MARGIN_STRESS_LIMIT"

  -- an answer that is needed to go on, and the reason to reject without it
  abbrev pub need : {A : Type 0} → String → Option A → (A → Verdict) → Verdict
  need reason none next = rejected reason
  need reason (some a) next = next a

  abbrev pub need_account : Snapshot fs → (F → F → Verdict) → Verdict
  need_account no_snapshot next = rejected "MARGIN_DATA_UNAVAILABLE"
  need_account (snapshot balance equity margin) next =
      need "MARGIN_DATA_INVALID" (finite_positive fs balance)
        (λ b. need "MARGIN_DATA_INVALID" (finite_nonnegative fs margin) (λ m. next b m))

  unfoldable pub stressed_verdict : Limits fs → Terminal → Order → F → F → Verdict
  unfolding project_margin add_positions order_stress_profit
  stressed_verdict l t o balance margin =
      need "MARGIN_ESTIMATE_UNAVAILABLE" (finite_nonnegative fs t.additional_margin) (λ additional.
        need "POSITION_QUERY_UNAVAILABLE" t.open_positions (λ ps.
          need "MARGIN_STRESS_UNAVAILABLE"
            (order_stress_profit t.estimate_order_profit l.stress_multiplier (side_of_word o.side)
              o.symbol o.volume o.entry o.sl)
            (λ own.
              need "MARGIN_STRESS_UNPROTECTED_POSITION"
                (add_positions t.estimate_order_profit l.stress_multiplier (some own) ps)
                (λ total. project_margin l balance margin additional total))))

  unfoldable pub margin_verdict : Policy fs → Terminal → Order → Verdict
  unfolding stressed_verdict
  margin_verdict disabled t o = unchecked
  margin_verdict invalid_policy t o = rejected "CONFIG_INVALID_MARGIN_POLICY"
  margin_verdict (policy l) t o =
      if t.has_methods
      then need_account t.account (λ balance margin. stressed_verdict l t o balance margin)
      else rejected "MARGIN_DATA_UNAVAILABLE"

  abbrev pub warn : Verdict → Manager → Manager
  warn unchecked m = m
  warn (accepted p) m = m
  warn (rejected reason) m = emit_block_warning reason m

  -- every rejection is also a block warning
  unfoldable pub validate_margin_for_order :
      Policy fs → Terminal → Order → Manager → Manager × Verdict
  unfolding margin_verdict emit_block_warning
  validate_margin_for_order p t o m = (warn (margin_verdict p t o) m, margin_verdict p t o)
