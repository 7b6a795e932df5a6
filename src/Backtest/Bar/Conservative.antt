-- ===== src/Backtest/Bar/Conservative.antt =====
-- How pessimistic `_exit_for_bar` is (trading_research/engine/backtester.py).
use trading_snapshot.Base.{
  ℕ, true, false, not, ◌&&◌, Option, none, some, ◌==◌, ◌≡◌, ◌⊎◌, refl, ap, sym, subst, ◌∙◌, inl,
  inr, Bool-cases,
}
use trading_snapshot.Base.Float.{Floats, min, max}
use trading_snapshot.Backtest.Bar.{
  Side, buy, sell, is_same_bar, CloseReason, sl_before_tp, sl_same_bar_trigger, sl_gap, sl_hit,
  tp_same_bar_trigger, tp_gap, tp_hit, Position, Exit, stop_reached, target_reached, at,
  exit_in_range, exit_for_bar,
}

module _ (fs : Floats) where
  open fs use {F, le, lt, finite, le_trans, le_refl}

  -- A price at the stop or on the losing side of it: a BUY loses below its stop, a SELL above.
  abbrev pub IsBeyond : Side → F → F → Type 0
  IsBeyond buy sl price = le price sl ≡ true
  IsBeyond sell sl price = le sl price ≡ true

  -- the extreme price of a range on the losing side
  abbrev pub worst : Side → F → F → F
  worst buy high low = low
  worst sell high low = high

  -- a stop exit: at the stop, or at an open beyond it
  pub data IsStopExit (side : Side) (sl : F) (o : F) : F × CloseReason → Type 0 where
    gap : IsBeyond side sl o → IsStopExit side sl o (o, sl_gap)
    both : IsStopExit side sl o (sl, sl_before_tp)
    hit : IsStopExit side sl o (sl, sl_hit)
    same_bar : IsStopExit side sl o (sl, sl_same_bar_trigger)

  stop_reached-IsBeyond :
      (side : Side) (high low sl : F)
      → stop_reached fs side high low (some sl) ≡ true
      → IsBeyond side sl (worst side high low)
  stop_reached-IsBeyond buy high low sl h = h
  stop_reached-IsBeyond sell high low sl h = h

  IsBeyond-stop_reached :
      (side : Side) (high low sl : F)
      → IsBeyond side sl (worst side high low)
      → stop_reached fs side high low (some sl) ≡ true
  IsBeyond-stop_reached buy high low sl h = h
  IsBeyond-stop_reached sell high low sl h = h

  worst_same : (side : Side) (o : F) → worst side o o ≡ o
  worst_same buy o = refl
  worst_same sell o = refl

  in_range-stop :
      (side : Side) (sl high low o : F) (tp : Option F) (r : CloseReason) (rt : CloseReason)
      → stop_reached fs side high low (some sl) ≡ true
      → IsStopExit side sl o (sl, r)
      → (e : F × CloseReason) × (exit_in_range fs side (some sl) tp high low r rt ≡ some e)
        × IsStopExit side sl o e
  unfolding exit_in_range
  in_range-stop side sl high low o tp r rt h k =
      elim (Bool-cases (target_reached fs side high low tp)) [
        | inl t ↦ ((sl, sl_before_tp), rw (h, t) refl, both)
        | inr t ↦ ((sl, r), rw (h, t) refl, k)
      ]

  -- The bar reaches the stop: at its open or in its range. The bar that opened the position counts
  -- with its whole range, from the open of the bar on.
  abbrev pub Reaches : Position fs → F → F → F → ℕ → F → Type 0
  Reaches p o high low i sl =
      ((is_same_bar p.fill_timing && p.open_bar == i ≡ true)
        × IsBeyond p.side sl (worst p.side (max fs o high) (min fs o low)))
      ⊎ ((is_same_bar p.fill_timing && p.open_bar == i ≡ false)
          × (IsBeyond p.side sl o ⊎ IsBeyond p.side sl (worst p.side high low)))

  -- the open has not reached the target: a BUY gains above it, a SELL below
  abbrev pub IsShort : Side → F → Option F → Type 0
  IsShort side o none = Unit
  IsShort buy o (some tp) = le tp o ≡ false
  IsShort sell o (some tp) = le o tp ≡ false

  IsShort-waits :
      (side : Side) (o : F) (tp : Option F)
      → IsShort side o tp
      → target_reached fs side o o tp ≡ false
  IsShort-waits buy o none h = refl
  IsShort-waits sell o none h = refl
  IsShort-waits buy o (some tp) h = h
  IsShort-waits sell o (some tp) h = h

  -- A bar that reaches the stop closes the position by it, at the stop or at an open beyond it,
  -- whatever target the bar reaches as well; only an open at or beyond the target comes first.
  pub exit_for_bar-stop_first :
      (p : Position fs) (o high low sl : F) (i : ℕ)
      → p.sl ≡ some sl
      → IsShort p.side o p.tp
      → Reaches p o high low i sl
      → (e : F × CloseReason) × (exit_for_bar fs p o high low i ≡ some e) × IsStopExit p.side sl o e
  unfolding exit_for_bar
  exit_for_bar-stop_first p o high low sl i e t (inl (same, h)) = rw same (
      rw e (
        in_range-stop p.side sl (max fs o high) (min fs o low) o p.tp sl_same_bar_trigger
          tp_same_bar_trigger (IsBeyond-stop_reached p.side (max fs o high) (min fs o low) sl h)
          same_bar))
  exit_for_bar-stop_first p o high low sl i e t (inr (later, h)) = rw later (
      rw e (elim (Bool-cases (stop_reached fs p.side o o (some sl))) [
        | inl beyond ↦ (
          (o, sl_gap),
          rw beyond refl,
          gap (
              subst (IsBeyond p.side sl) (worst_same p.side o)
                (stop_reached-IsBeyond p.side o o sl beyond)),
        )
        | inr before ↦
            rw (before, IsShort-waits p.side o p.tp t)
              (in_range-stop p.side sl high low o p.tp sl_hit tp_hit (in_range before h) hit)
      ]))
    where
      in_range :
          stop_reached fs p.side o o (some sl) ≡ false
          → IsBeyond p.side sl o ⊎ IsBeyond p.side sl (worst p.side high low)
          → stop_reached fs p.side high low (some sl) ≡ true
      in_range before (inr there) = IsBeyond-stop_reached p.side high low sl there
      in_range before (inl opened) =
          let bad =
            IsBeyond-stop_reached p.side o o sl
              (subst (IsBeyond p.side sl) (sym (worst_same p.side o)) opened) in
          absurd (cc)

  at-level :
      (o : Option F) (why : CloseReason) (x : F) (r : CloseReason)
      → at fs o why ≡ some (x, r)
      → o ≡ some x
  at-level none why x r k = absurd (let bad : ◌≡◌ {A = Exit fs} none (some (x, r)) = k in cc)
  at-level (some z) why x r k = cc

  -- the level that closes a position in the range of a bar
  in_range-level :
      (side : Side) (sl tp : Option F) (high low x : F) (r rs rt : CloseReason)
      → exit_in_range fs side sl tp high low rs rt ≡ some (x, r)
      → (stop_reached fs side high low sl ≡ true) × (sl ≡ some x)
        ⊎ (target_reached fs side high low tp ≡ true) × (tp ≡ some x)
  unfolding exit_in_range
  in_range-level side sl tp high low x r rs rt h =
      elim (Bool-cases (stop_reached fs side high low sl)) [
        | inl stopped ↦ inl (stopped, at-level sl _ x r (rw stopped at h))
        | inr kept ↦ elim (Bool-cases (target_reached fs side high low tp)) [
          | inl won ↦ inr (won, at-level tp rt x r (rw won at rw kept at h))
          | inr nothing ↦
              absurd (
                let bad : ◌≡◌ {A = Exit fs} none (some (x, r)) = (rw nothing at rw kept at h) in cc)
        ]
      ]

  -- no better for the position than the range of the bar: a sale (of a BUY) not above its high, a
  -- purchase not below its low
  abbrev pub IsAttainable : Side → F → F → F → Type 0
  IsAttainable buy high low x = le x high ≡ true
  IsAttainable sell high low x = le low x ≡ true

  abbrev pub IsFinite : Option F → Type 0
  IsFinite none = Unit
  IsFinite (some x) = finite x ≡ true

  le_of_not : (a b : F) → finite a ≡ true → finite b ≡ true → le b a ≡ false → le a b ≡ true
  le_of_not a b ha hb h = fs.le_of_lt a b (fs.lt_not_le a b ha hb ∙ ap not h)

  stop-IsAttainable :
      (side : Side) (o high low x : F) (sl : Option F)
      → finite o ≡ true
      → IsFinite sl
      → le o high ≡ true
      → le low o ≡ true
      → stop_reached fs side o o sl ≡ false
      → sl ≡ some x
      → IsAttainable side high low x
  stop-IsAttainable side o high low x none fo fx ho lo before e =
      absurd (let bad : ◌≡◌ {A = Option F} none (some x) = e in cc)
  stop-IsAttainable buy o high low x (some sl) fo fx ho lo before e =
      subst (λ y. le y high ≡ true) e' (le_trans sl o high (le_of_not sl o fx fo before) ho)
    where
      e' : sl ≡ x
      e' = cc
  stop-IsAttainable sell o high low x (some sl) fo fx ho lo before e =
      subst (λ y. le low y ≡ true) e' (le_trans low o sl lo (le_of_not o sl fo fx before))
    where
      e' : sl ≡ x
      e' = cc

  -- a target that a price has reached is not better than the price
  target-IsAttainable :
      (side : Side) (a b high low x : F) (tp : Option F)
      → le a high ≡ true
      → le low b ≡ true
      → target_reached fs side a b tp ≡ true
      → tp ≡ some x
      → IsAttainable side high low x
  target-IsAttainable buy a b high low x tp ha hb won e = le_trans x a high (rw e at won) ha
  target-IsAttainable sell a b high low x tp ha hb won e = le_trans low b x hb (rw e at won)

  open-IsAttainable :
      (side : Side) (o high low : F)
      → le o high ≡ true
      → le low o ≡ true
      → IsAttainable side high low o
  open-IsAttainable buy o high low ho lo = ho
  open-IsAttainable sell o high low ho lo = lo

  range-IsAttainable :
      (p : Position fs) (o high low x : F) (r : CloseReason)
      → finite o ≡ true
      → IsFinite p.sl
      → le o high ≡ true
      → le low o ≡ true
      → le high high ≡ true
      → le low low ≡ true
      → stop_reached fs p.side o o p.sl ≡ false
      → exit_in_range fs p.side p.sl p.tp high low sl_hit tp_hit ≡ some (x, r)
      → IsAttainable p.side high low x
  range-IsAttainable p o high low x r fo fx ho lo hh ll before h =
      elim (in_range-level p.side p.sl p.tp high low x r sl_hit tp_hit h) [
        | inl (_, e) ↦ stop-IsAttainable p.side o high low x p.sl fo fx ho lo before e
        | inr (won, e) ↦ target-IsAttainable p.side high low high low x p.tp hh ll won e
      ]

  -- On a bar after its fill whose open lies in its range, with finite prices and a finite stop, a
  -- position closes at a price that is not better for it than the range: a BUY sells not above
  -- the high, a SELL buys not below the low.
  pub exit_for_bar-IsAttainable :
      (p : Position fs) (o high low x : F) (r : CloseReason) (i : ℕ)
      → (is_same_bar p.fill_timing && p.open_bar == i) ≡ false
      → (finite o ≡ true) × (finite high ≡ true) × (finite low ≡ true)
      → IsFinite p.sl
      → le o high ≡ true
      → le low o ≡ true
      → exit_for_bar fs p o high low i ≡ some (x, r)
      → IsAttainable p.side high low x
  unfolding exit_for_bar
  exit_for_bar-IsAttainable p o high low x r i later f fx ho lo h0 =
      let h = rw later at h0 in
      elim (Bool-cases (stop_reached fs p.side o o p.sl)) [
        | inl beyond ↦
            let e : ◌≡◌ {A = Exit fs} (some (o, sl_gap)) (some (x, r)) = (rw beyond at h) in
            let e' : o ≡ x = cc in
            subst (IsAttainable p.side high low) e' (open-IsAttainable p.side o high low ho lo)
        | inr before ↦ elim (Bool-cases (target_reached fs p.side o o p.tp)) [
          | inl won ↦
              target-IsAttainable p.side o o high low x p.tp ho lo won
                (at-level p.tp tp_gap x r (rw won at rw before at h))
          | inr waiting ↦
              range-IsAttainable p o high low x r f.0 fx ho lo (le_refl high f.1) (le_refl low f.2)
                before (rw waiting at rw before at h)
        ]
      ]
