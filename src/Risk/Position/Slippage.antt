-- ===== src/Risk/Position/Slippage.antt =====
-- When an excess of risk counts as entry slippage, described apart from
-- `_risk_excess_is_entry_slippage` (risk/risk_manager.py), and that the code agrees.
use trading_snapshot.Base.{
  Bool, true, false, Option, none, some, ◌≡◌, refl, subst, inl, inr, Bool-cases, arith,
}
use trading_snapshot.Base.Int.{pos}
use trading_snapshot.Base.Float.{Floats, abs}
use trading_snapshot.Account.Value.{Value, number}
use trading_snapshot.Risk.Number.{strict_number, kept, finite_positive, positive}
use trading_snapshot.Risk.Sizer.{SymbolInfo}
use trading_snapshot.Risk.Margin.Order.{Side, buy, sell}
use trading_snapshot.Risk.Position.{
  RiskConfig, ExecutionContext, micro, isclose, fallback, finite_strict, first_positive, is_adverse,
  Execution, collect, execution_of, slippage_number, Held, is_slippage, excess_of, context_of,
  risk_excess_is_entry_slippage,
}

module _ (fs : Floats) where
  open fs use {F, zero_f, one_f, add, sub, mul, of_ℤ, lt, le, finite}

  -- a number that passes a test
  pub kept-some :
      (test : F → Bool) (o : Option F) (x : F)
      → kept fs test o ≡ some x
      → (o ≡ some x) × (test x ≡ true)
  kept-some test none x h = absurd (let bad : ◌≡◌ {A = Option F} none (some x) = h in cc)
  kept-some test (some y) x h = elim (Bool-cases (test y)) [
    | inl passes ↦
        let e : some y ≡ some x = (rw passes at h) in
        let same : y ≡ x = cc in (e, subst (λ z. test z ≡ true) same passes)
    | inr out ↦ absurd (let bad : ◌≡◌ {A = Option F} none (some x) = (rw out at h) in cc)
  ]

  -- the numbers that the execution cache has for the entry
  pub record Recorded (c : ExecutionContext fs) (e : Execution fs) : Type 0 where
    pub reference_is :
        finite_strict fs (fallback fs c.requested_entry_price c.expected_entry_price)
        ≡ some e.reference
    pub actual_is : finite_strict fs c.actual_entry_price ≡ some e.actual
    pub initial_sl_is : finite_strict fs c.initial_sl ≡ some e.initial_sl
    pub planned_is : finite_strict fs (fallback fs c.planned_risk_usd c.risk_usd) ≡ some e.planned
    pub slippage_is : finite_strict fs c.entry_slippage ≡ some e.slippage

  -- the entry is worse than the reference by more than the tolerance: higher for a BUY
  pub data IsWorse : Side → F → F → F → Type 0 where
    dearer :
        {entry reference tol : F}
        → lt (add reference tol) entry ≡ true
        → IsWorse buy entry reference tol
    cheaper :
        {entry reference tol : F}
        → lt entry (sub reference tol) ≡ true
        → IsWorse sell entry reference tol

  -- The position has the entry and the stop that the cache recorded, up to two points; the entry is
  -- worse than the reference by the slippage that the cache recorded; the planned risk was within
  -- the limit, and the actual one is within the limit with the tolerance for slippage.
  pub record IsSlippage (c : RiskConfig fs) (h : Held fs) (context : ExecutionContext fs)
      (actual max_risk tolerance : F) : Type 0 where
    pub cache : Execution fs
    pub point : F
    pub extra : F
    pub recorded : Recorded context cache
    pub extra_is : slippage_number fs c.slippage_tolerance ≡ some extra
    pub point_positive : lt zero_f point ≡ true
    pub same_entry : isclose fs h.entry cache.actual (mul point (of_ℤ (pos 2))) ≡ true
    pub same_stop : isclose fs h.sl cache.initial_sl (mul point (of_ℤ (pos 2))) ≡ true
    pub moved : le (abs fs (sub h.entry cache.reference)) zero_f ≡ false
    pub same_slippage :
        isclose fs (abs fs (sub h.entry cache.reference)) cache.slippage (mul point (of_ℤ (pos 2)))
        ≡ true
    pub adverse : IsWorse h.side h.entry cache.reference (mul point (of_ℤ (pos 2)))
    pub planned_within :
        lt (mul max_risk (add (add one_f tolerance) (micro fs))) cache.planned ≡ false
    pub actual_within :
        lt (mul max_risk (add (add (add one_f tolerance) extra) (micro fs))) actual ≡ false

  collect-Recorded :
      (c : ExecutionContext fs) (e : Execution fs) (r a s p l : Option F)
      → finite_strict fs (fallback fs c.requested_entry_price c.expected_entry_price) ≡ r
      → finite_strict fs c.actual_entry_price ≡ a
      → finite_strict fs c.initial_sl ≡ s
      → finite_strict fs (fallback fs c.planned_risk_usd c.risk_usd) ≡ p
      → finite_strict fs c.entry_slippage ≡ l
      → collect fs r a s p l ≡ some e
      → Recorded c e
  collect-Recorded c e (some r) (some a) (some s) (some p) (some l) hr ha hs hp hl h =
      let made : Execution fs = record {
        reference = r;
        actual = a;
        initial_sl = s;
        planned = p;
        slippage = l;
      } in
      let same : made ≡ e = cc in
      subst (Recorded c) same (record {
        reference_is = hr;
        actual_is = ha;
        initial_sl_is = hs;
        planned_is = hp;
        slippage_is = hl;
      })
  collect-Recorded c e none a s p l hr ha hs hp hl h =
      absurd (let bad : ◌≡◌ {A = Option (Execution fs)} none (some e) = h in cc)
  collect-Recorded c e (some r) none s p l hr ha hs hp hl h =
      absurd (let bad : ◌≡◌ {A = Option (Execution fs)} none (some e) = h in cc)
  collect-Recorded c e (some r) (some a) none p l hr ha hs hp hl h =
      absurd (let bad : ◌≡◌ {A = Option (Execution fs)} none (some e) = h in cc)
  collect-Recorded c e (some r) (some a) (some s) none l hr ha hs hp hl h =
      absurd (let bad : ◌≡◌ {A = Option (Execution fs)} none (some e) = h in cc)
  collect-Recorded c e (some r) (some a) (some s) (some p) none hr ha hs hp hl h =
      absurd (let bad : ◌≡◌ {A = Option (Execution fs)} none (some e) = h in cc)

  context-Recorded :
      (o : Option (ExecutionContext fs)) (e : Execution fs)
      → context_of fs o ≡ some e
      → (c : ExecutionContext fs) × (o ≡ some c) × Recorded c e
  unfolding execution_of
  context-Recorded none e h =
      absurd (let bad : ◌≡◌ {A = Option (Execution fs)} none (some e) = h in cc)
  context-Recorded (some c) e h =
      (c, refl, collect-Recorded c e _ _ _ _ _ refl refl refl refl refl h)

  is_adverse-IsWorse :
      (side : Side) (entry reference tol : F)
      → is_adverse fs side entry reference tol ≡ true
      → IsWorse side entry reference tol
  is_adverse-IsWorse buy entry reference tol h = dearer h
  is_adverse-IsWorse sell entry reference tol h = cheaper h

  positive_point :
      (v w : Value fs) (point : F)
      → first_positive fs (finite_positive fs v) (finite_positive fs w) ≡ some point
      → lt zero_f point ≡ true
  unfolding finite_positive
  positive_point v w point h = go (finite_positive fs v) refl h
    where
      passes : (u : Value fs) → finite_positive fs u ≡ some point → lt zero_f point ≡ true
      passes u e =
          let (_, p) = kept-some (positive fs) (strict_number fs u) point e in ground (arith, p)

      go :
          (o : Option F)
          → finite_positive fs v ≡ o
          → first_positive fs o (finite_positive fs w) ≡ some point
          → lt zero_f point ≡ true
      go none e k = passes w k
      go (some x) e k = passes v (let same : some x ≡ some point = k in cc)

  is_slippage-IsSlippage :
      (c : RiskConfig fs) (h : Held fs) (context : ExecutionContext fs)
      (actual max_risk tolerance extra point : F) (e : Execution fs)
      → Recorded context e
      → slippage_number fs c.slippage_tolerance ≡ some extra
      → lt zero_f point ≡ true
      → is_slippage fs h actual max_risk tolerance extra point e ≡ true
      → IsSlippage c h context actual max_risk tolerance
  unfolding is_slippage
  is_slippage-IsSlippage c h context actual max_risk tolerance extra point e r x positive k =
      record {
        cache = e;
        point = point;
        extra = extra;
        recorded = r;
        extra_is = x;
        point_positive = positive;
        same_entry = ground (arith, k);
        same_stop = ground (arith, k);
        moved = ground (arith, k);
        same_slippage = ground (arith, k);
        adverse = is_adverse-IsWorse h.side h.entry e.reference _ (ground (arith, k));
        planned_within = ground (arith, k);
        actual_within = ground (arith, k);
      }

  excess_of-IsSlippage :
      (c : RiskConfig fs) (h : Held fs) (o : Option (ExecutionContext fs))
      (actual max_risk tolerance planned : F) (x p : Option F) (e : Option (Execution fs))
      → slippage_number fs c.slippage_tolerance ≡ x
      → ((point : F) → p ≡ some point → lt zero_f point ≡ true)
      → context_of fs o ≡ e
      → excess_of fs h actual max_risk tolerance x p e ≡ some planned
      → (context : ExecutionContext fs) × (o ≡ some context)
        × IsSlippage c h context actual max_risk tolerance
  excess_of-IsSlippage c h o actual max_risk tolerance planned none p e hx hp he k =
      absurd (let bad : ◌≡◌ {A = Option F} none (some planned) = k in cc)
  excess_of-IsSlippage c h o actual max_risk tolerance planned (some x) none e hx hp he k =
      absurd (let bad : ◌≡◌ {A = Option F} none (some planned) = k in cc)
  excess_of-IsSlippage c h o actual max_risk tolerance planned (some x) (some point) none hx hp he
        k =
      absurd (let bad : ◌≡◌ {A = Option F} none (some planned) = k in cc)
  excess_of-IsSlippage c h o actual max_risk tolerance planned (some x) (some point) (some e) hx hp
        he k =
      elim (Bool-cases (is_slippage fs h actual max_risk tolerance x point e)) [
        | inl excused ↦
            let (context, there, r) = context-Recorded o e he in
            (
              context,
              there,
              is_slippage-IsSlippage c h context actual max_risk tolerance x point e r hx
                  (hp point refl) excused,
            )
        | inr out ↦ absurd (let bad : ◌≡◌ {A = Option F} none (some planned) = (rw out at k) in cc)
      ]

  pub excess-IsSlippage :
      (c : RiskConfig fs) (i : SymbolInfo fs) (v : Value fs) (o : Option (ExecutionContext fs))
      (h : Held fs) (actual max_risk tolerance planned : F)
      → risk_excess_is_entry_slippage fs c i v o h actual max_risk tolerance ≡ some planned
      → (context : ExecutionContext fs) × (o ≡ some context)
        × IsSlippage c h context actual max_risk tolerance
  unfolding risk_excess_is_entry_slippage
  excess-IsSlippage c i v o h actual max_risk tolerance planned k =
      excess_of-IsSlippage c h o actual max_risk tolerance planned _ _ _ refl
        (λ point e. positive_point v (number i.tick_size) point e) refl k
