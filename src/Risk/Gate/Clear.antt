-- ===== src/Risk/Gate/Clear.antt =====
-- When `can_open_new_trade` (risk/risk_manager.py) lets a trade through: the gate against a
-- description of a clear account that does not follow the order of its checks.
use trading_snapshot.Base.{true, false, Option, none, some, ◌≡◌, ◌↔◌, arith, String, if◌then◌else◌}
use trading_snapshot.Base.Int.{ℤ, pos, ltb_ℤ}
use trading_snapshot.Base.Float.{Floats, abs, min}
use trading_snapshot.Account.Value.{Value}
use trading_snapshot.Risk.Number.{finite_nonnegative, finite_positive}
use trading_snapshot.Risk.Margin.{
  Limits, Policy, disabled, invalid_policy, policy, margin_policy, Snapshot, no_snapshot, snapshot,
  utilization_guard, check_current_margin_utility,
}
use trading_snapshot.Risk.Gate.{
  Halt, no_monitor, snapshot_failed, monitored, Cap, uncapped, not_int, cap, Exposure, no_query,
  raised_query, exposed, or_else, check_account_halt, check_open_positions_limit, tolerance_number,
  Pnl, no_pnl, pnls, Readings, strategy_pnls, margin_guard, order_guard,
}

abbrev pub Unhalted : Halt → Type 0
Unhalted no_monitor = Unit
Unhalted snapshot_failed = ⊥
Unhalted (monitored halted) = halted ≡ false

abbrev pub Counted : ℤ → Exposure → Type 0
Counted limit no_query = ⊥
Counted limit raised_query = ⊥
Counted limit (exposed n) = ltb_ℤ (pos n) limit ≡ true

-- The number of open positions is known and below the cap.
abbrev pub UnderCap : Cap → Exposure → Type 0
UnderCap uncapped e = Unit
UnderCap not_int e = ⊥
UnderCap (cap limit) e = Counted limit e

Unhalted-halt : (h : Halt) → (check_account_halt h ≡ none) ↔ Unhalted h
unfolding check_account_halt
Unhalted-halt no_monitor = ground arith
Unhalted-halt snapshot_failed = ground arith
Unhalted-halt (monitored halted) = ground arith

UnderCap-limit : (c : Cap) (e : Exposure) → (check_open_positions_limit c e ≡ none) ↔ UnderCap c e
unfolding check_open_positions_limit
UnderCap-limit uncapped e = ground arith
UnderCap-limit not_int e = ground arith
UnderCap-limit (cap limit) no_query = ground arith
UnderCap-limit (cap limit) raised_query = ground arith
UnderCap-limit (cap limit) (exposed n) = ground arith

module _ (fs : Floats) where
  open fs use {F, zero_f, add, mul, div, lt, le}

  abbrev pub Utilized : Limits fs → Option F → Option F → Type 0
  Utilized l (some equity) (some margin) = lt l.max_utilization (div margin equity) ≡ false
  Utilized l none margin = ⊥
  Utilized l (some equity) none = ⊥

  -- Equity is a positive and margin a nonnegative finite number, and their ratio is within the
  -- policy's maximum.
  abbrev pub MarginKept : Policy fs → Snapshot fs → Type 0
  MarginKept disabled s = Unit
  MarginKept invalid_policy s = ⊥
  MarginKept (policy l) no_snapshot = ⊥
  MarginKept (policy l) (snapshot balance equity margin) =
      Utilized l (finite_positive fs equity) (finite_nonnegative fs margin)

  Utilized-guard :
      (l : Limits fs) (e m : Option F) → (utilization_guard fs l e m ≡ none) ↔ Utilized l e m
  Utilized-guard l none m = ground arith
  Utilized-guard l (some e) none = ground arith
  Utilized-guard l (some e) (some m) = ground arith

  MarginKept-guard :
      (p : Policy fs) (s : Snapshot fs)
      → (check_current_margin_utility fs p s ≡ none) ↔ MarginKept p s
  unfolding check_current_margin_utility
  MarginKept-guard disabled s = ground arith
  MarginKept-guard invalid_policy s = ground arith
  MarginKept-guard (policy l) no_snapshot = ground arith
  MarginKept-guard (policy l) (snapshot balance equity margin) =
      Utilized-guard l (finite_positive fs equity) (finite_nonnegative fs margin)

  abbrev pub Projected : (realized limit tolerance : F) → Option F → Type 0
  Projected realized limit tolerance none = le limit realized ≡ false
  Projected realized limit tolerance (some risk) =
      if le risk zero_f
      then le limit realized ≡ false
      else lt (add limit (mul risk tolerance)) (add realized risk) ≡ false

  abbrev pub Tolerated : (realized limit : F) → Option F → Option F → Type 0
  Tolerated realized limit risk none = ⊥
  Tolerated realized limit risk (some tolerance) = Projected realized limit tolerance risk

  -- The loss of the period and the risk of the new trade stay within the limit and its
  -- tolerance; where no risk is known, the loss stays below the limit.
  abbrev pub LossKept : Value fs → F → Option F → Option F → Type 0
  LossKept tolerance pnl none risk = Unit
  LossKept tolerance pnl (some limit) risk =
      Tolerated (abs fs (min fs pnl zero_f)) (abs fs limit) risk (tolerance_number fs tolerance)

  abbrev pub LossesKept : Readings fs → Pnl fs → Type 0
  LossesKept r (no_pnl reason) = ⊥
  LossesKept r (pnls day week) =
      LossKept r.daily_tolerance day r.daily_limit r.risk_per_trade
      × LossKept r.weekly_tolerance week r.weekly_limit r.risk_per_trade

  -- Every question of the gate was answered, and every answer allows a trade.
  pub record IsClear (r : Readings fs) : Type 0 where
    pub unhalted : Unhalted r.halt
    pub under_cap : UnderCap r.cap r.exposure
    pub margin_kept : MarginKept (margin_policy fs r.margin_config) r.margin
    pub losses_kept : LossesKept r (strategy_pnls fs r)

  or_else-none : (a b : Option String) → (or_else a b ≡ none) ↔ ((a ≡ none) × (b ≡ none))
  or_else-none none b = ground arith
  or_else-none (some reason) b = ground arith

  pub order_guard-none :
      (r : Readings fs)
      → (order_guard fs r ≡ none) ↔ (
          Unhalted r.halt
          × UnderCap r.cap r.exposure
          × MarginKept (margin_policy fs r.margin_config) r.margin)
  unfolding order_guard margin_guard
  order_guard-none r =
      let halt = check_account_halt r.halt in
      let limit = check_open_positions_limit r.cap r.exposure in
      let margin = check_current_margin_utility fs (margin_policy fs r.margin_config) r.margin in
      (
        λ h.
            let first = (or_else-none halt (or_else limit margin)).0 h in
            let later = (or_else-none limit margin).0 first.1 in
            (
              (Unhalted-halt r.halt).0 first.0,
              (UnderCap-limit r.cap r.exposure).0 later.0,
              (MarginKept-guard (margin_policy fs r.margin_config) r.margin).0 later.1,
            ),
        λ k. (or_else-none halt (or_else limit margin)).1 (
          (Unhalted-halt r.halt).1 k.0,
          (or_else-none limit margin).1 (
            (UnderCap-limit r.cap r.exposure).1 k.1,
            (MarginKept-guard (margin_policy fs r.margin_config) r.margin).1 k.2,
          ),
        ),
      )
