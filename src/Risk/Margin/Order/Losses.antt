-- ===== src/Risk/Margin/Order/Losses.antt =====
-- The losses that an order and the open positions would make at their stressed stops, described
-- apart from the code (`_order_stress_profit` and `_position_stress_profit` of
-- risk/risk_manager.py), and what the code computes of them.
use trading_snapshot.Base.{
  true, false, not, ◌&&◌, Option, none, some, List, [], ◌∷◌, String, str_eq, str_eq_iff, ◌==◌, ◌≡◌,
  refl, subst, sym, inl, inr, Bool-cases, Option-cases, arith,
}
use trading_snapshot.Base.Int.{pos, negsuc}
use trading_snapshot.Base.Float.{Floats, min, max}
use trading_snapshot.Account.Value.{Value}
use trading_snapshot.Risk.Number.{as_number, kept}
use trading_snapshot.Risk.Margin.Order.{
  Side, buy, sell, RawSide, code, word, other_type, side_of_word, side_of, Position, stress_price,
  loss_of, above_zero, Estimate, stress_at, order_stress_profit, stress_of_symbol,
  position_stress_profit, add_positions,
}

-- the side that a word or a code names
pub data Named : String → Side → Type 0 where
  named_buy : Named "BUY" buy
  named_sell : Named "SELL" sell

pub data Sided : RawSide → Side → Type 0 where
  by_word : (w : String) (side : Side) → Named w side → Sided (word w) side
  by_zero : Sided (code (pos 0)) buy
  by_one : Sided (code (pos 1)) sell

side_of_word-Named : (w : String) (side : Side) → side_of_word w ≡ some side → Named w side
side_of_word-Named w side h = elim (Bool-cases (str_eq w "BUY")) [
  | inl bought ↦
      let e : some buy ≡ some side = (rw bought at h) in
      let e' : buy ≡ side = cc in
      subst (λ u. Named u side) (sym ((str_eq_iff w "BUY").0 bought))
        (subst (Named "BUY") e' named_buy)
  | inr other ↦ elim (Bool-cases (str_eq w "SELL")) [
    | inl sold ↦
        let e : some sell ≡ some side = (rw sold at rw other at h) in
        let e' : sell ≡ side = cc in
        subst (λ u. Named u side) (sym ((str_eq_iff w "SELL").0 sold))
          (subst (Named "SELL") e' named_sell)
    | inr neither ↦
        absurd
          (let bad : ◌≡◌ {A = Option Side} none (some side) = (rw neither at rw other at h) in cc)
  ]
]

pub side_of-Sided : (raw : RawSide) (side : Side) → side_of raw ≡ some side → Sided raw side
unfolding side_of
side_of-Sided (word w) side h = by_word w side (side_of_word-Named w side h)
side_of-Sided other_type side h =
    absurd (let bad : ◌≡◌ {A = Option Side} none (some side) = h in cc)
side_of-Sided (code (negsuc n)) side h =
    absurd (let bad : ◌≡◌ {A = Option Side} none (some side) = h in cc)
side_of-Sided (code (pos n)) side h = elim (Bool-cases (n == 0)) [
  | inl zeroth ↦
      let e : some buy ≡ some side = (rw zeroth at h) in
      let e' : buy ≡ side = cc in
      let e0 : n ≡ 0 = ground (arith, zeroth) in
      subst (λ m. Sided (code (pos m)) side) (sym e0) (subst (Sided (code (pos 0))) e' by_zero)
  | inr other ↦ elim (Bool-cases (n == 1)) [
    | inl first ↦
        let e : some sell ≡ some side = (rw first at rw other at h) in
        let e' : sell ≡ side = cc in
        let e1 : n ≡ 1 = ground (arith, first) in
        subst (λ m. Sided (code (pos m)) side) (sym e1) (subst (Sided (code (pos 1))) e' by_one)
    | inr neither ↦
        absurd
          (let bad : ◌≡◌ {A = Option Side} none (some side) = (rw neither at rw other at h) in cc)
  ]
]

module _ (fs : Floats) where
  open fs use {F, zero_f, add, sub, mul, lt, le, finite}

  -- a finite, positive number
  pub record Above (v : Value fs) (x : F) : Type 0 where
    pub number_is : as_number fs v ≡ some x
    pub is_finite : finite x ≡ true
    pub is_positive : le x zero_f ≡ false

  above_zero-Above : (v : Value fs) (x : F) → above_zero fs v ≡ some x → Above v x
  above_zero-Above v x h = go (as_number fs v) refl h
    where
      go :
          (o : Option F)
          → as_number fs v ≡ o
          → kept fs (λ y. finite y && not (le y zero_f)) o ≡ some x
          → Above v x
      go none e k = absurd (let bad : ◌≡◌ {A = Option F} none (some x) = k in cc)
      go (some y) e k = elim (Bool-cases (finite y && not (le y zero_f))) [
        | inl fits ↦
            let e' : some y ≡ some x = (rw fits at k) in
            let same : y ≡ x = cc in
            subst (Above v) same (record {
              number_is = e;
              is_finite = ground (arith, fits);
              is_positive = ground (arith, fits);
            })
        | inr out ↦ absurd (let bad : ◌≡◌ {A = Option F} none (some x) = (rw out at k) in cc)
      ]

  module _ (estimate : Estimate fs) (multiplier : F) where
    -- the stop, moved away from the entry by the multiplier; a stop on the gaining side counts as
    -- the entry
    pub data StressedAt : Side → F → F → F → Type 0 where
      lower :
          (entry sl : F)
          → StressedAt buy entry sl (sub entry (mul (max fs (sub entry sl) zero_f) multiplier))
      higher :
          (entry sl : F)
          → StressedAt sell entry sl (add entry (mul (max fs (sub sl entry) zero_f) multiplier))

    -- a gain counts as nothing
    pub data Counted : F → F → Type 0 where
      as_loss : (profit : F) → lt zero_f profit ≡ false → Counted profit profit
      no_gain : (profit : F) → lt zero_f profit ≡ true → Counted profit zero_f

    -- The profit, not above 0, of a volume from its entry to its stressed stop, as the broker
    -- estimates it. All three are finite, positive numbers, and so is the price.
    pub record Loses (side : Side) (symbol : String) (volume entry sl : Value fs) (loss : F)
        : Type 0 where
      pub lots : F
      pub opened : F
      pub stopped : F
      pub price : F
      pub profit : F
      pub lots_is : Above volume lots
      pub opened_is : Above entry opened
      pub stopped_is : Above sl stopped
      pub price_is : StressedAt side opened stopped price
      pub price_positive : le price zero_f ≡ false
      pub estimated : estimate side symbol lots opened price ≡ some profit
      pub loss_is : Counted profit loss

    stress_price-StressedAt :
        (side : Side) (entry sl : F)
        → StressedAt side entry sl (stress_price fs side entry sl multiplier)
    stress_price-StressedAt buy entry sl = lower entry sl
    stress_price-StressedAt sell entry sl = higher entry sl

    min-Counted : (profit : F) → Counted profit (min fs profit zero_f)
    unfolding min
    min-Counted profit = elim (Bool-cases (lt zero_f profit)) [
      | inl gains ↦ rw gains (no_gain profit gains)
      | inr none_made ↦ rw none_made (as_loss profit none_made)
    ]

    loss_of-Counted :
        (o : Option F) (loss : F)
        → loss_of fs o ≡ some loss
        → (profit : F) × (o ≡ some profit) × Counted profit loss
    loss_of-Counted none loss h = absurd (let bad : ◌≡◌ {A = Option F} none (some loss) = h in cc)
    loss_of-Counted (some profit) loss h =
        let e : some (min fs profit zero_f) ≡ some loss = h in
        let same : min fs profit zero_f ≡ loss = cc in
        (profit, refl, subst (Counted profit) same (min-Counted profit))

    stress_at-Loses :
        (side : Side) (symbol : String) (volume entry sl : Value fs) (loss : F) (v e s : Option F)
        → above_zero fs volume ≡ v
        → above_zero fs entry ≡ e
        → above_zero fs sl ≡ s
        → stress_at fs estimate multiplier side symbol v e s ≡ some loss
        → Loses side symbol volume entry sl loss
    stress_at-Loses side symbol volume entry sl loss none e s hv he hs h =
        absurd (let bad : ◌≡◌ {A = Option F} none (some loss) = h in cc)
    stress_at-Loses side symbol volume entry sl loss (some v) none s hv he hs h =
        absurd (let bad : ◌≡◌ {A = Option F} none (some loss) = h in cc)
    stress_at-Loses side symbol volume entry sl loss (some v) (some e) none hv he hs h =
        absurd (let bad : ◌≡◌ {A = Option F} none (some loss) = h in cc)
    stress_at-Loses side symbol volume entry sl loss (some v) (some e) (some s) hv he hs h =
        elim (Bool-cases (le (stress_price fs side e s multiplier) zero_f)) [
          | inl low ↦ absurd (let bad : ◌≡◌ {A = Option F} none (some loss) = (rw low at h) in cc)
          | inr fine ↦
              let (profit, known, counted) =
                loss_of-Counted (estimate side symbol v e (stress_price fs side e s multiplier))
                  loss (rw fine at h) in
              record {
                lots = v;
                opened = e;
                stopped = s;
                price = stress_price fs side e s multiplier;
                profit = profit;
                lots_is = above_zero-Above volume v hv;
                opened_is = above_zero-Above entry e he;
                stopped_is = above_zero-Above sl s hs;
                price_is = stress_price-StressedAt side e s;
                price_positive = fine;
                estimated = known;
                loss_is = counted;
              }
        ]

    pub order_stress_profit-Loses :
        (o : Option Side) (symbol : String) (volume entry sl : Value fs) (loss : F)
        → order_stress_profit fs estimate multiplier o symbol volume entry sl ≡ some loss
        → (side : Side) × (o ≡ some side) × Loses side symbol volume entry sl loss
    unfolding order_stress_profit
    order_stress_profit-Loses none symbol volume entry sl loss h =
        absurd (let bad : ◌≡◌ {A = Option F} none (some loss) = h in cc)
    order_stress_profit-Loses (some side) symbol volume entry sl loss h =
        (side, refl, stress_at-Loses side symbol volume entry sl loss _ _ _ refl refl refl h)

    -- the order's own loss
    pub order-Loses :
        (w symbol : String) (volume entry sl : Value fs) (loss : F)
        → order_stress_profit fs estimate multiplier (side_of_word w) symbol volume entry sl
          ≡ some loss
        → (side : Side) × Named w side × Loses side symbol volume entry sl loss
    order-Loses w symbol volume entry sl loss h =
        let (side, e, l) =
          order_stress_profit-Loses (side_of_word w) symbol volume entry sl loss h in
        (side, side_of_word-Named w side e, l)

    -- a position with a symbol and a side that is known, and its loss
    pub record PositionLoses (p : Position fs) (loss : F) : Type 0 where
      pub symbol : String
      pub side : Side
      pub symbol_is : p.symbol ≡ some symbol
      pub side_is : Sided p.side side
      pub loses : Loses side symbol p.volume p.price_open p.sl loss

    -- the losses of all the positions, added to a sum one after another
    pub data Sums : F → List (Position fs) → F → Type 0 where
      no_more : (total : F) → Sums total [] total
      next_loss :
          (p : Position fs) (ps : List (Position fs)) (from loss total : F)
          → PositionLoses p loss
          → Sums (add from loss) ps total
          → Sums from (p ∷ ps) total

    position-Loses :
        (p : Position fs) (loss : F) (o : Option String)
        → p.symbol ≡ o
        → stress_of_symbol fs estimate multiplier p o ≡ some loss
        → PositionLoses p loss
    position-Loses p loss none e h =
        absurd (let bad : ◌≡◌ {A = Option F} none (some loss) = h in cc)
    position-Loses p loss (some symbol) e h = elim (Bool-cases (str_eq symbol "")) [
      | inl empty ↦ absurd (let bad : ◌≡◌ {A = Option F} none (some loss) = (rw empty at h) in cc)
      | inr named ↦
          let (side, side_is, l) =
            order_stress_profit-Loses (side_of p.side) symbol p.volume p.price_open p.sl loss
              (rw named at h) in
          record {
            symbol = symbol;
            side = side;
            symbol_is = e;
            side_is = side_of-Sided p.side side side_is;
            loses = l;
          }
    ]

    position_stress_profit-Loses :
        (p : Position fs) (loss : F)
        → position_stress_profit fs estimate multiplier p ≡ some loss
        → PositionLoses p loss
    unfolding position_stress_profit
    position_stress_profit-Loses p loss h = position-Loses p loss p.symbol refl h

    none_left :
        (ps : List (Position fs)) (total : F)
        → add_positions fs estimate multiplier none ps ≡ some total
        → ⊥
    unfolding add_positions
    none_left [] total h = cc
    none_left (p ∷ ps) total h = cc

    pub add_positions-Sums :
        (from total : F) (ps : List (Position fs))
        → add_positions fs estimate multiplier (some from) ps ≡ some total
        → Sums from ps total
    unfolding add_positions
    add_positions-Sums from total [] h =
        let e : some from ≡ some total = h in
        let same : from ≡ total = cc in subst (Sums from []) same (no_more from)
    add_positions-Sums from total (p ∷ ps) h =
        elim (Option-cases (position_stress_profit fs estimate multiplier p)) [
          | inl unknown ↦ absurd (none_left ps total (rw unknown at h))
          | inr (loss, known) ↦
              next_loss p ps from loss total (position_stress_profit-Loses p loss known)
                (add_positions-Sums (add from loss) total ps (rw known at h))
        ]
