-- ===== src/Guard/Market/Baseline.antt =====
-- What `MarketGuard.update` (guards/market_guard.py) lets through, and how the price baseline
-- moves.
use trading_snapshot.Base.{
  true, false, none, some, ◌≡◌, refl, ◌⊎◌, inl, inr, arith, Bool-cases, Option-cases, sym, subst,
}
use trading_snapshot.Base.Int.{negsuc}
use trading_snapshot.Base.Float.{Floats}
use trading_snapshot.Guard.Market.{
  Reason, invalid_tick_time, tick_jump_limit, TickTime, missing, invalid, at, Tick, MarketConfig,
  MarketGuard, Entry, refused, measured, spread_points, jump_points, entry, settle, jumped,
  after_entry, update, can_trade,
}

module _ (fs : Floats) (c : MarketConfig fs) where
  open fs use {F, zero_f, sub, div, of_ℤ, lt, le}

  -- A tick that carries a time is no older than the limit, and at most five seconds ahead.
  abbrev pub IsTimely : F → TickTime fs → Type 0
  IsTimely now missing = Unit
  IsTimely now invalid = ⊥
  IsTimely now (at time) =
      (lt c.max_tick_age_sec (sub now time) ≡ false) × (lt (sub now time) (of_ℤ (negsuc 4)) ≡ false)

  -- The bounds that a tick meets before its price is compared with the baseline.
  pub record IsSound (now : F) (tick : Tick fs) (point : F) : Type 0 where
    pub timely : IsTimely now tick.time
    pub point_known : c.point ≡ some point
    pub point_positive : le point zero_f ≡ false
    pub spread : lt c.max_spread_points (spread_points fs point tick) ≡ false

  time-cases : (t : TickTime fs) → (t ≡ missing) ⊎ ((t ≡ invalid) ⊎ ((x : F) × (t ≡ at x)))
  time-cases missing = inl refl
  time-cases invalid = inr (inl refl)
  time-cases (at x) = inr (inr (x, refl))

  entry-bounds :
      (now : F) (tick : Tick fs) (p : F)
      → entry fs c now tick ≡ measured p
      → (c.point ≡ some p)
        × (le p zero_f ≡ false)
        × (lt c.max_spread_points (spread_points fs p tick) ≡ false)
  unfolding entry
  entry-bounds now tick p h = ground arith

  entry-IsTimely :
      (now : F) (tick : Tick fs) (p : F) → entry fs c now tick ≡ measured p → IsTimely now tick.time
  unfolding entry
  entry-IsTimely now tick p h = elim (time-cases tick.time) [
    | inl absent ↦ subst (IsTimely now) (sym absent) tt
    | inr (inl bad) ↦
        absurd (let e : refused invalid_tick_time ≡ measured p = (rw (bad, entry) at h) in cc)
    | inr (inr (x, known)) ↦ subst (IsTimely now) (sym known) (ground arith)
  ]

  entry-IsSound :
      (now : F) (tick : Tick fs) (p : F) → entry fs c now tick ≡ measured p → IsSound now tick p
  entry-IsSound now tick p h =
      let (known, positive, spread) = entry-bounds now tick p h in
      record {
        timely = entry-IsTimely now tick p h;
        point_known = known;
        point_positive = positive;
        spread = spread;
      }

  -- The price is within the jump limit of the baseline, if there is one, or of an outlier that
  -- the tick before it reported.
  abbrev pub IsNear : F → F → MarketGuard fs → Type 0
  IsNear p bid g =
      (g.last_bid ≡ none)
      ⊎ (((last : F) × (g.last_bid ≡ some last)
            × (lt c.max_tick_jump_points (jump_points fs p bid last) ≡ false))
          ⊎ ((outlier : F) × (g.jump_candidate_bid ≡ some outlier)
              × (le (jump_points fs p bid outlier) c.max_tick_jump_points ≡ true)))

  after_entry-IsNear :
      (p now : F) (tick : Tick fs) (g : MarketGuard fs)
      → can_trade fs (after_entry fs c p now tick g) ≡ true
      → IsNear p tick.bid g × ((after_entry fs c p now tick g).last_bid ≡ some tick.bid)
  unfolding can_trade after_entry jumped settle
  after_entry-IsNear p now tick g h = elim (Option-cases g.last_bid) [
    | inl first ↦ (inl first, ground arith)
    | inr (last, base) ↦
        elim (Bool-cases (lt c.max_tick_jump_points (jump_points fs p tick.bid last))) [
          | inr close ↦ (inr (inl (last, base, close)), ground arith)
          | inl far ↦ elim (Option-cases g.jump_candidate_bid) [
            | inl fresh ↦ absurd (ground arith)
            | inr (outlier, seen) ↦ (inr (inr (outlier, seen, ground arith)), ground arith)
          ]
        ]
  ]

  entry-cases : (e : Entry fs) → ((r : Reason) × (e ≡ refused r)) ⊎ ((p : F) × (e ≡ measured p))
  entry-cases (refused r) = inl (r, refl)
  entry-cases (measured p) = inr (p, refl)

  -- Trading is allowed after a tick only if the tick is timely, the spread is within its limit,
  -- and the price is near the baseline or confirms the outlier before it; the price is then the
  -- new baseline.
  pub update-allows :
      (now : F) (tick : Tick fs) (g : MarketGuard fs)
      → can_trade fs (update fs c now (some tick) g) ≡ true
      → (p : F) × IsSound now tick p
        × IsNear p tick.bid g
        × ((update fs c now (some tick) g).last_bid ≡ some tick.bid)
  unfolding update
  update-allows now tick g h = elim (entry-cases (entry fs c now tick)) [
    | inl (r, no_entry) ↦ absurd (let e = rw (no_entry, update) at h in unfold can_trade in cc)
    | inr (p, entered) ↦
        let (near, moved) = after_entry-IsNear p now tick g (rw (entered, update) at h) in
        (p, entry-IsSound now tick p entered, near, rw (entered, update) moved)
  ]

  -- The baseline moves only by a tick after which trading is allowed: an isolated outlier, a
  -- stale or a malformed tick leaves it.
  pub update-baseline :
      (now : F) (tick : Tick fs) (g : MarketGuard fs)
      → ((update fs c now (some tick) g).last_bid ≡ g.last_bid)
        ⊎ (can_trade fs (update fs c now (some tick) g) ≡ true)
  unfolding update can_trade after_entry jumped settle
  update-baseline now tick g = ground arith

  -- A gap of the market is accepted at its second tick: two ticks that are sound in themselves,
  -- both too far from the baseline and near one another, are blocked once and then followed.
  pub update-gap :
      (now now' p last : F) (first second : Tick fs) (g : MarketGuard fs)
      → entry fs c now first ≡ measured p
      → entry fs c now' second ≡ measured p
      → g.last_bid ≡ some last
      → g.jump_candidate_bid ≡ none
      → lt c.max_tick_jump_points (jump_points fs p first.bid last) ≡ true
      → lt c.max_tick_jump_points (jump_points fs p second.bid last) ≡ true
      → le (jump_points fs p second.bid first.bid) c.max_tick_jump_points ≡ true
      → let g' = update fs c now (some first) g in
        (g'.blocked_reason ≡ some tick_jump_limit)
        × (g'.last_bid ≡ some last)
        × (can_trade fs (update fs c now' (some second) g') ≡ true)
        × ((update fs c now' (some second) g').last_bid ≡ some second.bid)
  unfolding update can_trade after_entry jumped
  update-gap now now' p last first second g e e' base fresh far far' near = ground arith
