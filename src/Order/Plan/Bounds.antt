-- ===== src/Order/Plan/Bounds.antt =====
-- What an order that is sent has passed (core/order_executor.py).
use trading_snapshot.Base.{
  true, false, ◌&&◌, Option, none, some, String, str_eq_iff, ◌≡◌, ◌≢◌, refl, sym, subst, inl, inr,
  Bool-cases, arith, if◌then◌else◌,
}
use trading_snapshot.Base.Float.{Floats, abs}
use trading_snapshot.Order.Plan.{
  Signal, ExecutionConfig, Quote, Order, cancels, rejects, submits, RiskAnswers, Stop, refused,
  distance, is_buy, is_valid_side, custom_stop, plain_stop, market_price, choose_stop, stop_level,
  target, with_margin, with_size, size_order, plan_stop, is_bad_target, mismatch, plan_order,
}

module _ (fs : Floats) (c : ExecutionConfig fs) (a : RiskAnswers fs) (s : Signal fs) where
  open fs use {F, zero_f, add, sub, mul, lt, le}

  -- one value for a BUY, another for any other side
  pub data Chosen (bought sold x : F) : Type 0 where
    buys : s.side ≡ "BUY" → x ≡ bought → Chosen bought sold x
    sells : s.side ≢ "BUY" → x ≡ sold → Chosen bought sold x

  chosen : (bought sold : F) → Chosen bought sold (if is_buy fs s then bought else sold)
  chosen bought sold = elim (Bool-cases (is_buy fs s)) [
    | inl buying ↦ buys ((str_eq_iff s.side "BUY").0 buying) (rw buying refl)
    | inr selling ↦
        sells (λ e. let bad = (str_eq_iff s.side "BUY").1 e in absurd (cc)) (rw selling refl)
  ]

  -- the stop is on the losing side of the market: below it for a BUY, above it for a SELL
  pub data IsBehind (market sl : F) : Type 0 where
    below : s.side ≡ "BUY" → lt sl market ≡ true → IsBehind market sl
    above : s.side ≡ "SELL" → lt market sl ≡ true → IsBehind market sl

  -- The stop of the order and its distance: under the CUSTOM model the signal's stop price, which is
  -- behind the market, and its distance from the expected entry; else the signal's distance, taken
  -- off the market price.
  pub data StopIs (market d sl : F) : Type 0 where
    custom :
        c.custom_stop_model ≡ true
        → s.stop_price ≡ some sl
        → IsBehind market sl
        → d ≡ abs fs (sub s.expected_entry sl)
        → StopIs market d sl
    plain :
        c.custom_stop_model ≡ false
        → s.stop_price ≡ none
        → d ≡ s.stop_distance
        → Chosen (sub market d) (add market d) sl
        → StopIs market d sl

  -- The target of the order: 0 without one, and else the signal's positive distance from the market.
  -- There is one exactly where the model asks for one.
  pub data TargetIs (market tp : F) : Type 0 where
    no_target : c.no_tp_model ≡ true → s.tp_distance ≡ none → tp ≡ zero_f → TargetIs market tp
    at_distance :
        (t : F)
        → c.no_tp_model ≡ false
        → s.tp_distance ≡ some t
        → le t zero_f ≡ false
        → Chosen (add market t) (sub market t) tp
        → TargetIs market tp

  -- The stop and the target are the signal's, the stop distance is positive, the market is within
  -- the slippage limit of the signal, the volume is the risk manager's for this entry and stop, and
  -- the margin check passed.
  pub record IsChecked (market : F) (o : Order fs) : Type 0 where
    pub stop : F
    pub stop_is : StopIs market stop o.sl
    pub stop_positive : le stop zero_f ≡ false
    pub slippage :
        lt (mul stop c.max_slippage_as_stop_fraction) (abs fs (sub market s.expected_entry)) ≡ false
    pub volume : a.calculate_position_size market o.sl ≡ some o.volume
    pub margin : a.validate_margin_for_order o.volume market o.sl ≡ none
    pub tp_is : TargetIs market o.tp

  valid_side-IsBehind : (sl market : F) → is_valid_side fs s sl market ≡ true → IsBehind market sl
  valid_side-IsBehind sl market h = elim (Bool-cases (is_buy fs s && lt sl market)) [
    | inl bought ↦
        below ((str_eq_iff s.side "BUY").0 (ground (arith, bought))) (ground (arith, bought))
    | inr other ↦
        above ((str_eq_iff s.side "SELL").0 (ground (arith, other, h))) (ground (arith, other, h))
  ]

  custom-StopIs :
      (market d : F) (level o : Option F)
      → c.custom_stop_model ≡ true
      → s.stop_price ≡ o
      → custom_stop fs s market o ≡ distance level d
      → StopIs market d (stop_level fs s market level d)
  custom-StopIs market d level none m e h =
      absurd (let bad : ◌≡◌ {A = Stop fs} (refused _) (distance level d) = h in cc)
  custom-StopIs market d level (some sl) m e h = elim (Bool-cases (is_valid_side fs s sl market)) [
    | inl valid ↦
        let same : ◌≡◌ {A = Stop fs} (distance (some sl) (abs fs (sub s.expected_entry sl)))
            (distance level d) =
          (rw valid at h) in
        let level_is : some sl ≡ level = cc in
        let d_is : abs fs (sub s.expected_entry sl) ≡ d = cc in
        subst (λ l. StopIs market d (stop_level fs s market l d)) level_is
          (custom m e (valid_side-IsBehind sl market valid) (sym d_is))
    | inr beyond ↦
        absurd (let bad : ◌≡◌ {A = Stop fs} (refused _) (distance level d) = (rw beyond at h) in cc)
  ]

  plain-StopIs :
      (market d : F) (level o : Option F)
      → c.custom_stop_model ≡ false
      → s.stop_price ≡ o
      → plain_stop fs s o ≡ distance level d
      → StopIs market d (stop_level fs s market level d)
  plain-StopIs market d level (some sl) m e h =
      absurd (let bad : ◌≡◌ {A = Stop fs} (refused _) (distance level d) = h in cc)
  plain-StopIs market d level none m e h =
      let same : ◌≡◌ {A = Stop fs} (distance none s.stop_distance) (distance level d) = h in
      let level_is : none ≡ level = cc in
      let d_is : s.stop_distance ≡ d = cc in
      subst (λ l. StopIs market d (stop_level fs s market l d)) level_is
        (plain m e (sym d_is) (chosen (sub market d) (add market d)))

  choose_stop-StopIs :
      (market d : F) (level : Option F)
      → choose_stop fs c s market ≡ distance level d
      → StopIs market d (stop_level fs s market level d)
  unfolding choose_stop
  choose_stop-StopIs market d level h = elim (Bool-cases c.custom_stop_model) [
    | inl m ↦ custom-StopIs market d level s.stop_price m refl (rw m at h)
    | inr m ↦ plain-StopIs market d level s.stop_price m refl (rw m at h)
  ]

  target-TargetIs :
      (market : F) (o : Option F)
      → s.tp_distance ≡ o
      → mismatch fs o c.no_tp_model ≡ false
      → is_bad_target fs o ≡ false
      → TargetIs market (target fs s market o)
  target-TargetIs market none e m good = no_target (ground arith) e refl
  target-TargetIs market (some t) e m good =
      at_distance t m e good (chosen (add market t) (sub market t))

  with_margin-IsChecked :
      (market sl lot d : F) (m : Option String) (o : Order fs)
      → StopIs market d sl
      → TargetIs market (target fs s market s.tp_distance)
      → le d zero_f ≡ false
      → lt (mul d c.max_slippage_as_stop_fraction) (abs fs (sub market s.expected_entry)) ≡ false
      → a.calculate_position_size market sl ≡ some lot
      → a.validate_margin_for_order lot market sl ≡ m
      → with_margin fs s market sl lot m ≡ submits o
      → IsChecked market o
  with_margin-IsChecked market sl lot d (some r) o hst htp hd hs hv hm h =
      absurd (let bad : rejects r ≡ submits o = h in cc)
  with_margin-IsChecked market sl lot d none o hst htp hd hs hv hm h =
      let sent : Order fs = record {
        volume = lot;
        sl = sl;
        tp = target fs s market s.tp_distance;
      } in
      let e : sent ≡ o = cc in
      subst (IsChecked market) e (record {
        stop = d;
        stop_is = hst;
        stop_positive = hd;
        slippage = hs;
        volume = hv;
        margin = hm;
        tp_is = htp;
      })

  with_size-IsChecked :
      (market sl d : F) (v : Option F) (o : Order fs)
      → StopIs market d sl
      → TargetIs market (target fs s market s.tp_distance)
      → le d zero_f ≡ false
      → lt (mul d c.max_slippage_as_stop_fraction) (abs fs (sub market s.expected_entry)) ≡ false
      → a.calculate_position_size market sl ≡ v
      → with_size fs a s market sl v ≡ submits o
      → IsChecked market o
  with_size-IsChecked market sl d none o hst htp hd hs hv h =
      absurd (let bad : rejects a.size_reason ≡ submits o = h in cc)
  with_size-IsChecked market sl d (some lot) o hst htp hd hs hv h =
      with_margin-IsChecked market sl lot d (a.validate_margin_for_order lot market sl) o hst htp hd
        hs hv refl h

  plan_stop-IsChecked :
      (market : F) (st : Stop fs) (o : Order fs)
      → choose_stop fs c s market ≡ st
      → TargetIs market (target fs s market s.tp_distance)
      → plan_stop fs c a s market st ≡ submits o
      → IsChecked market o
  unfolding plan_stop size_order
  plan_stop-IsChecked market (refused r) o e htp h =
      absurd (let bad : rejects r ≡ submits o = h in cc)
  plan_stop-IsChecked market (distance level d) o e htp h = elim (Bool-cases (le d zero_f)) [
    | inl flat ↦
        absurd (let bad : rejects "invalid stop-loss distance" ≡ submits o = (rw flat at h) in cc)
    | inr positive ↦
        elim (Bool-cases
          (lt (mul d c.max_slippage_as_stop_fraction) (abs fs (sub market s.expected_entry)))) [
            | inl slipped ↦ absurd (
                let bad : cancels "slippage limit exceeded" ≡ submits o =
                  (rw slipped at rw positive at h) in
                cc)
            | inr near ↦
                let sl = stop_level fs s market level d in
                with_size-IsChecked market sl d (a.calculate_position_size market sl) o
                  (choose_stop-StopIs market d level e) htp positive near refl
                  (rw near at rw positive at h)
          ]
  ]

  -- An order is sent only for a quote, at its ask for a BUY and else at its bid, and then: its stop is
  -- the signal's, on the losing side of the market where the signal gives its price, and else as
  -- far from the market as the signal says. The stop distance is positive, the market price is
  -- within the slippage limit of the price that the signal expected, the volume is what the risk
  -- manager gives for this price and stop, the margin check passed, and the target is the signal's,
  -- which has one exactly if the model asks for one.
  pub plan_order-IsChecked :
      (q : Option (Quote fs)) (o : Order fs)
      → plan_order fs c a s q ≡ submits o
      → (quote : Quote fs) × (market : F) × (q ≡ some quote)
        × Chosen quote.ask quote.bid market
        × IsChecked market o
  unfolding plan_order
  plan_order-IsChecked none o h =
      absurd (let bad : rejects "tick unavailable" ≡ submits o = h in cc)
  plan_order-IsChecked (some q) o h = elim (Bool-cases (mismatch fs s.tp_distance c.no_tp_model)) [
    | inl wrong ↦ absurd (
        let bad : rejects "signal take-profit does not match TAKE_PROFIT_MODEL" ≡ submits o =
          (rw wrong at h) in
        cc)
    | inr fits ↦ elim (Bool-cases (is_bad_target fs s.tp_distance)) [
      | inl low ↦ absurd (
          let bad : rejects "invalid take-profit distance" ≡ submits o = (rw low at rw fits at h) in
          cc)
      | inr good ↦ (
        q,
        market_price fs s q,
        refl,
        chosen q.ask q.bid,
        plan_stop-IsChecked (market_price fs s q) (choose_stop fs c s (market_price fs s q)) o refl
            (target-TargetIs (market_price fs s q) s.tp_distance refl fits good)
            (rw good at rw fits at h),
      )
    ]
  ]
