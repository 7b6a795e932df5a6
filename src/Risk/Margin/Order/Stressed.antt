-- ===== src/Risk/Margin/Order/Stressed.antt =====
-- What an order that passes `validate_margin_for_order` (risk/risk_manager.py) leaves of the
-- account.
use trading_snapshot.Base.{
  true, false, Option, none, some, List, ◌≡◌, refl, inl, inr, Bool-cases, arith, String,
}
use trading_snapshot.Base.Float.{Floats}
use trading_snapshot.Risk.Number.{finite_nonnegative, finite_positive}
use trading_snapshot.Risk.Margin.{
  Limits, Policy, disabled, invalid_policy, policy, Snapshot, no_snapshot, snapshot,
}
use trading_snapshot.Risk.Gate.{Manager}
use trading_snapshot.Risk.Margin.Order.Losses.{Named, Loses, Sums, order-Loses, add_positions-Sums}
use trading_snapshot.Risk.Margin.Order.{
  Side, Position, Terminal, Order, Projection, Verdict, unchecked, accepted, rejected,
  project_margin, need, need_account, stressed_verdict, margin_verdict, validate_margin_for_order,
}

module _ (fs : Floats) where
  open fs use {F, zero_f, add, mul, div, lt, le}

  need-accepted :
      {A : Type 0} (reason : String) (o : Option A) {next : A → Verdict fs} {p : Projection fs}
      → need fs reason o next ≡ accepted p
      → (a : A) × (o ≡ some a) × (next a ≡ accepted p)
  need-accepted reason none h = absurd (let bad : ◌≡◌ {A = Verdict fs} _ (accepted _) = h in cc)
  need-accepted reason (some a) h = (a, refl, h)

  module _ (l : Limits fs) (t : Terminal fs) (o : Order fs) (balance margin : F) where
    -- The margin of the order and all open positions are known, with the losses of the order and
    -- of every position at their stressed stops; the equity that is left is positive, and the
    -- margin after the order, with its buffer, is within the maximum share of it.
    pub record IsCovered (p : Projection fs) : Type 0 where
      pub additional : F
      pub positions : List (Position fs)
      pub side : Side
      pub own : F
      pub total : F
      pub additional_is : finite_nonnegative fs t.additional_margin ≡ some additional
      pub listed : t.open_positions ≡ some positions
      pub side_is : Named o.side side
      pub own_is :
          Loses fs t.estimate_order_profit l.stress_multiplier side o.symbol o.volume o.entry o.sl
            own
      pub total_is : Sums fs t.estimate_order_profit l.stress_multiplier own positions total
      pub solvent : le (add balance total) zero_f ≡ false
      pub within :
          le
            (div (mul (add margin additional) l.estimate_buffer) (add balance total))
            l.max_utilization
          ≡ true

    project_margin-within :
        (additional stress : F) (p : Projection fs)
        → project_margin fs l balance margin additional stress ≡ accepted p
        → (le (add balance stress) zero_f ≡ false)
          × (le
                (div (mul (add margin additional) l.estimate_buffer) (add balance stress))
                l.max_utilization
              ≡ true)
    unfolding project_margin
    project_margin-within additional stress p h = ground arith

    stressed_verdict-IsCovered :
        (p : Projection fs) → stressed_verdict fs l t o balance margin ≡ accepted p → IsCovered p
    unfolding stressed_verdict
    stressed_verdict-IsCovered p h =
        let (additional, additional_is, h1) = need-accepted _ _ h in
        let (positions, listed, h2) = need-accepted _ _ h1 in
        let (own, own_is, h3) = need-accepted _ _ h2 in
        let (total, total_is, h4) = need-accepted _ _ h3 in
        let (solvent, within) = project_margin-within additional total p h4 in
        let (side, side_is, loses) =
          order-Loses fs t.estimate_order_profit l.stress_multiplier o.side o.symbol o.volume
            o.entry o.sl own own_is in
        record {
          additional = additional;
          positions = positions;
          side = side;
          own = own;
          total = total;
          additional_is = additional_is;
          listed = listed;
          side_is = side_is;
          own_is = loses;
          total_is =
              add_positions-Sums fs t.estimate_order_profit l.stress_multiplier own total positions
                total_is;
          solvent = solvent;
          within = within;
        }

  abbrev pub Reads : Snapshot fs → F → F → Type 0
  Reads no_snapshot b m = ⊥
  Reads (snapshot balance equity margin) b m =
      (finite_positive fs balance ≡ some b) × (finite_nonnegative fs margin ≡ some m)

  need_account-Reads :
      (s : Snapshot fs) (next : F → F → Verdict fs) (p : Projection fs)
      → need_account fs s next ≡ accepted p
      → (b : F) × (m : F) × Reads s b m × (next b m ≡ accepted p)
  need_account-Reads no_snapshot next p h =
      absurd (let bad : ◌≡◌ {A = Verdict fs} _ (accepted p) = h in cc)
  need_account-Reads (snapshot balance equity margin) next p h =
      let (b, hb, h1) = need-accepted _ _ h in
      let (m, hm, h2) = need-accepted _ _ h1 in (b, m, (hb, hm), h2)

  -- An order is accepted only under a valid policy and with a known balance and margin. The margin of
  -- the order and all open positions are known then, with the loss of the order and of every
  -- position at its stop, moved away from the entry by the stress multiplier, where a gain counts
  -- as nothing. The equity that their sum leaves is positive, and the margin after the order, with
  -- its buffer, is within the maximum share of it.
  pub validate_margin_for_order-IsCovered :
      (policy_now : Policy fs) (t : Terminal fs) (o : Order fs) (m : Manager) (p : Projection fs)
      → (validate_margin_for_order fs policy_now t o m).1 ≡ accepted p
      → (l : Limits fs) × (b : F) × (margin : F) × (policy_now ≡ policy l)
        × Reads t.account b margin
        × IsCovered l t o b margin p
  unfolding validate_margin_for_order margin_verdict
  validate_margin_for_order-IsCovered disabled t o m p h =
      absurd (let bad : ◌≡◌ {A = Verdict fs} unchecked (accepted p) = h in cc)
  validate_margin_for_order-IsCovered invalid_policy t o m p h =
      absurd (let bad : ◌≡◌ {A = Verdict fs} (rejected _) (accepted p) = h in cc)
  validate_margin_for_order-IsCovered (policy l) t o m p h = elim (Bool-cases t.has_methods) [
    | inl there ↦
        let (b, margin, reads, h1) = need_account-Reads t.account _ p (rw there at h) in
        (l, b, margin, refl, reads, stressed_verdict-IsCovered l t o b margin p h1)
    | inr missing ↦ absurd (
        let bad : ◌≡◌ {A = Verdict fs} (rejected "MARGIN_DATA_UNAVAILABLE") (accepted p) =
          (rw missing at h) in
        cc)
  ]
