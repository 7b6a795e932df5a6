-- ===== src/Backtest/Run/Exposure.antt =====
-- How many positions and orders a backtest holds at once
-- (trading_research/engine/backtester.py).
use trading_snapshot.Base.{
  ℕ, suc, ◌+◌, ◌≤◌, ◌<◌, Bool, true, false, not, ◌&&◌, Option, none, some, List, [], ◌∷◌, length,
  length-append, filter, ltb, ◌≡◌, inl, inr, Bool-cases, subst, arith, is_some,
}
use trading_snapshot.Base.Float.{Floats}
use trading_snapshot.Backtest.Bar.{Bar, Position, next_bar_open, same_bar_trigger}
use trading_snapshot.Backtest.Fill.{Costs, Signal, make_position, can_open, friday_close_state}
use trading_snapshot.Backtest.Manage.{
  Config, Strategy, PendingOrder, Book, manage, keep, manage_all,
}
use trading_snapshot.Backtest.Run.{
  RunState, infer_bar_interval, new_period, add_position, fill_orders, is_due, fill_due, may_open,
  is_open_bar, triggered, enter_now, queued, queue_next, manage_open, step, timestamp_of, run_bars,
  start, drop, run_backtest,
}

filter-partition :
    {A : Type 0} (p : A → Bool) (xs : List A)
    → length (filter p xs) + length (filter (λ x. not (p x)) xs) ≡ length xs
filter-partition p [] = omega arith
filter-partition p (x ∷ xs) = ground (arith, filter-partition p xs)

module _ (fs : Floats) (c : Config fs) (costs : Costs fs) (s : Strategy fs)
    (df : List (Bar fs)) where
  open s use {State, bind_data, on_bar}

  abbrev pub Running : Type 0
  Running = RunState fs c costs s

  -- the positions that are open and the orders that wait
  abbrev pub exposure : Running → ℕ
  exposure r = length r.open_positions + length r.pending_orders

  add_position-le :
      (t : ℕ) (o : Option (Position fs)) (ps : List (Position fs))
      → length (add_position fs c costs s t o ps) ≤ length ps + 1
  add_position-le t none ps = omega arith
  add_position-le t (some p) ps =
      omega (arith, length-append ps ((record p { signal_time = t }) ∷ []))

  fill_orders-le :
      (i : ℕ) (b : Bar fs) (os : List (PendingOrder fs)) (ps : List (Position fs))
      → length (fill_orders fs c costs s i b os ps) ≤ length ps + length os
  unfolding fill_orders
  fill_orders-le i b [] ps = omega arith
  fill_orders-le i b (o ∷ os) ps =
      let made = make_position fs costs o.signal b.bar_open i b.timestamp next_bar_open in
      omega (
        arith,
        fill_orders-le i b os (add_position fs c costs s o.signal_time made ps),
        add_position-le o.signal_time made ps,
      )

  manage_all-le :
      (i : ℕ) (b : Bar fs) (friday : Bool) (ps : List (Position fs)) (k : Book fs) (st : State)
      → length (manage_all fs c costs s df i b friday ps k st).0 ≤ length ps
  unfolding manage_all
  manage_all-le i b friday [] k st = omega arith
  manage_all-le i b friday (p ∷ ps) k st =
      let (kept, k1, st1) = manage fs c costs s df i b friday p k st in
      keep-le kept (manage_all fs c costs s df i b friday ps k1 st1).0
        (manage_all-le i b friday ps k1 st1)
    where
      keep-le :
          (o : Option (Position fs)) (qs : List (Position fs))
          → length qs ≤ length ps
          → length (keep fs c costs s df o qs) ≤ suc (length ps)
      keep-le none qs h = omega arith
      keep-le (some p') qs h = omega arith

  fill_due-le :
      (i : ℕ) (b : Bar fs) (after : Bool) (r : Running)
      → exposure (fill_due fs c costs s i b after r) ≤ exposure r
  unfolding fill_due
  fill_due-le i b true r = omega (arith, filter-partition (is_due fs c costs s i) r.pending_orders)
  fill_due-le i b false r = omega (
    arith,
    filter-partition (is_due fs c costs s i) r.pending_orders,
    fill_orders-le i b (filter (is_due fs c costs s i) r.pending_orders) r.open_positions,
  )

  can_open-lt :
      (n k : ℕ) (d w : fs.F) (dl wl : Option fs.F) (m : ℕ)
      → can_open fs n k d w dl wl m ≡ true
      → n + k < m
  unfolding can_open
  can_open-lt n k d w dl wl m h = ground arith

  triggered-le :
      (i : ℕ) (b : Bar fs) (o : Option (Signal fs)) (r : Running)
      → exposure (triggered fs c costs s i b o r) ≤ exposure r + 1
  triggered-le i b none r = omega arith
  triggered-le i b (some sig) r = omega (
    arith,
    add_position-le b.timestamp
        (make_position fs costs sig sig.entry i b.timestamp same_bar_trigger) r.open_positions,
  )

  queued-le :
      (i : ℕ) (b : Bar fs) (o : Option (Signal fs)) (r : Running)
      → exposure (queued fs c costs s i b o r) ≤ exposure r + 1
  queued-le i b none r = omega arith
  queued-le i b (some sig) r = omega (
    arith,
    length-append r.pending_orders
        ((record { signal = sig; signal_time = b.timestamp; fill_bar = suc i }) ∷ []),
  )

  enter_now-le :
      (i : ℕ) (b : Bar fs) (friday : Bool) (r : Running)
      → exposure r ≤ c.max_positions
      → exposure (enter_now fs c costs s df i b friday r) ≤ c.max_positions
  unfolding enter_now
  enter_now-le i b friday r h =
      elim (Bool-cases (is_open_bar fs c costs s c.mode && not friday && may_open fs c costs s r)) [
        | inr shut ↦ rw shut h
        | inl opens ↦ rw opens (
            ground (
              arith,
              triggered-le i b (on_bar i df r.strategy).0
                  (record r { strategy = (on_bar i df r.strategy).1 }),
              can_open-lt (length r.open_positions) (length r.pending_orders) r.book.daily_r
                  r.book.weekly_r c.daily_sl_limit c.weekly_sl_limit c.max_positions,
            ))
      ]

  queue_next-le :
      (i : ℕ) (b : Bar fs) (friday has_next : Bool) (r : Running)
      → exposure r ≤ c.max_positions
      → exposure (queue_next fs c costs s df i b friday has_next r) ≤ c.max_positions
  unfolding queue_next
  queue_next-le i b friday has_next r h =
      elim (Bool-cases (
        not (is_open_bar fs c costs s c.mode)
        && not friday
        && has_next
        && may_open fs c costs s r)) [
          | inr shut ↦ rw shut h
          | inl opens ↦ rw opens (
              ground (
                arith,
                queued-le i b (on_bar i df r.strategy).0
                    (record r { strategy = (on_bar i df r.strategy).1 }),
                can_open-lt (length r.open_positions) (length r.pending_orders) r.book.daily_r
                    r.book.weekly_r c.daily_sl_limit c.weekly_sl_limit c.max_positions,
              ))
        ]

  step-exposure :
      (i : ℕ) (b : Bar fs) (next : Option ℕ) (r : Running)
      → exposure r ≤ c.max_positions
      → exposure (step fs c costs s df i b next r) ≤ c.max_positions
  unfolding step new_period manage_open
  step-exposure i b next r h =
      let closes =
        friday_close_state b.timestamp (infer_bar_interval fs c costs s df) c.friday_cutoff next in
      let friday = c.close_on_friday && closes.0 in
      let r1 = new_period fs c costs s b.timestamp r in
      let r2 = fill_due fs c costs s i b (c.close_on_friday && closes.1) r1 in
      let r3 = enter_now fs c costs s df i b friday r2 in
      queue_next-le i b friday (is_some next) (manage_open fs c costs s df i b friday r3) (
        omega (
          arith,
          manage_all-le i b friday r3.open_positions r3.book r3.strategy,
          enter_now-le i b friday r2
              (omega (arith, fill_due-le i b (c.close_on_friday && closes.1) r1)),
        ))

  run_bars-exposure :
      (i : ℕ) (bs : List (Bar fs)) (r : Running)
      → exposure r ≤ c.max_positions
      → exposure (run_bars fs c costs s df i bs r) ≤ c.max_positions
  unfolding run_bars
  run_bars-exposure i [] r h = h
  run_bars-exposure i (b ∷ bs) r h =
      run_bars-exposure (suc i) bs (step fs c costs s df i b (timestamp_of fs c costs s bs) r)
        (step-exposure i b (timestamp_of fs c costs s bs) r h)

  -- After any number of bars, the open positions and the waiting orders together are at most the
  -- configured maximum.
  pub run_backtest-exposure :
      (warmup : ℕ) (st : State) (r : Running)
      → run_backtest fs c costs s df warmup st ≡ some r
      → exposure r ≤ c.max_positions
  unfolding run_backtest
  run_backtest-exposure warmup st r h =
      let begin = start fs c costs s (bind_data df st) in
      let used = drop fs c costs s warmup df in
      elim (Bool-cases (ltb c.max_positions 1)) [
        | inl low ↦ absurd (let bad : ◌≡◌ {A = Option Running} none (some r) = (rw low at h) in cc)
        | inr fits ↦
            let done : some (run_bars fs c costs s df warmup used begin) ≡ some r =
              (rw fits at h) in
            let e : run_bars fs c costs s df warmup used begin ≡ r = cc in
            subst (λ x. exposure x ≤ c.max_positions) e
              (run_bars-exposure warmup used begin (omega arith))
      ]
