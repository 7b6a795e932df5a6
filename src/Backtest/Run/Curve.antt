-- ===== src/Backtest/Run/Curve.antt =====
-- The equity of a backtest, the sum of its day, and what a later bar can change
-- (trading_research/engine/backtester.py).
use trading_snapshot.Base.{
  ℕ, suc, ◌≤◌, ◌<◌, Bool, ◌&&◌, Option, none, some, List, [], ◌∷◌, All, ◌≡◌, sym, ◌∙◌, refl, inl,
  inr, Bool-cases, subst, arith, is_some, if◌then◌else◌, ◌==◌, ==_iff,
}
use trading_snapshot.Base.Float.{Floats}
use trading_snapshot.Backtest.Bar.{Bar, Position, Exit, exit_for_bar}
use trading_snapshot.Backtest.Fill.{Costs, date, friday_close_state}
use trading_snapshot.Backtest.Manage.{
  Config, Strategy, Trade, Book, book_trade, balance, apply_be, exit_with, settle, close_trade,
  manage, manage_all,
}
use trading_snapshot.Backtest.Run.{
  RunState, infer_bar_interval, new_period, fill_due, enter_now, queue_next, manage_open, step,
  timestamp_of, run_bars, start,
}

module _ (fs : Floats) where
  open fs use {F, zero_f, add}

  -- the running sum of the results, newest first as the trades
  abbrev pub curve : List (Trade fs) → List F
  curve [] = []
  curve (t ∷ ts) = add (balance fs (curve ts)) t.r ∷ curve ts

  -- the sum of the results of the trades that closed on a day
  abbrev pub day_sum : ℕ → List (Trade fs) → F
  day_sum day [] = zero_f
  day_sum day (t ∷ ts) =
      let rest = day_sum day ts in if date t.close_time == day then add rest t.r else rest

  -- The equity is the running sum of all trades, and the daily sum that of today's.
  pub record IsCurve (day : ℕ) (k : Book fs) : Type 0 where
    pub equity_is : k.equity ≡ curve k.trades
    pub daily_is : k.daily_r ≡ day_sum day k.trades
    pub past : All (λ t. date t.close_time ≤ day) k.trades

  book_trade-IsCurve :
      (day : ℕ) (t : Trade fs) (k : Book fs)
      → date t.close_time ≡ day
      → IsCurve day k
      → IsCurve day (book_trade fs t k)
  unfolding book_trade
  book_trade-IsCurve day t k e h = record {
    equity_is = rw h.equity_is refl;
    daily_is = rw ((==_iff (date t.close_time) day).1 e) (rw h.daily_is refl);
    past = (omega (arith, e), h.past);
  }

  day_sum_later :
      (day later : ℕ) (ts : List (Trade fs))
      → day < later
      → All (λ t. date t.close_time ≤ day) ts
      → day_sum later ts ≡ zero_f
  day_sum_later day later [] h k = refl
  day_sum_later day later (t ∷ ts) h k = ground (arith, day_sum_later day later ts h k.1)

  past_later :
      (day later : ℕ) (ts : List (Trade fs))
      → day ≤ later
      → All (λ t. date t.close_time ≤ day) ts
      → All (λ t. date t.close_time ≤ later) ts
  past_later day later [] h k = tt
  past_later day later (t ∷ ts) h k = (omega (arith, k.0), past_later day later ts h k.1)

  module _ (c : Config fs) (costs : Costs fs) (s : Strategy fs) (df : List (Bar fs)) where
    open s use {State, on_bar}

    settle-IsCurve :
        (i : ℕ) (b : Bar fs) (p : Position fs) (k : Book fs) (e : Exit fs)
        → IsCurve (date b.timestamp) k
        → IsCurve (date b.timestamp) (settle fs c costs s df i b p k e).1
    unfolding close_trade
    settle-IsCurve i b p k none h = h
    settle-IsCurve i b p k (some (raw_exit, reason)) h =
        book_trade-IsCurve (date b.timestamp) (close_trade fs costs p i b.timestamp raw_exit reason)
          k refl h

    manage_all-IsCurve :
        (i : ℕ) (b : Bar fs) (friday : Bool) (ps : List (Position fs)) (k : Book fs) (st : State)
        → IsCurve (date b.timestamp) k
        → IsCurve (date b.timestamp) (manage_all fs c costs s df i b friday ps k st).1
    unfolding manage_all manage
    manage_all-IsCurve i b friday [] k st h = h
    manage_all-IsCurve i b friday (p ∷ ps) k st h =
        let p' = apply_be fs c p in
        let (e, st1) =
          exit_with fs c costs s df i b friday p' st
            (exit_for_bar fs p' b.bar_open b.high b.low i) in
        manage_all-IsCurve i b friday ps (settle fs c costs s df i b p' k e).1 st1
          (settle-IsCurve i b p' k e h)

    abbrev pub Running : Type 0
    Running = RunState fs c costs s

    -- before the first bar nothing is booked
    abbrev pub IsKept : Option ℕ → Book fs → Type 0
    IsKept none k = (k.trades ≡ []) × (k.equity ≡ [])
    IsKept (some day) k = IsCurve day k

    abbrev pub NotAfter : Option ℕ → ℕ → Type 0
    NotAfter none day = Unit
    NotAfter (some before) day = before ≤ day

    -- the days of the bars do not go back
    abbrev pub InOrder : Option ℕ → List (Bar fs) → Type 0
    InOrder before [] = Unit
    InOrder before (b ∷ bs) =
        NotAfter before (date b.timestamp) × InOrder (some (date b.timestamp)) bs

    new_period-IsCurve :
        (t : ℕ) (o : Option ℕ) (r : Running)
        → r.current_day ≡ o
        → NotAfter o (date t)
        → IsKept o r.book
        → IsCurve (date t) (new_period fs c costs s t r).book
    unfolding new_period
    new_period-IsCurve t none r e n h =
        rw e (record { equity_is = rw (h.0, h.1) refl; daily_is = rw h.0 refl; past = rw h.0 tt })
    new_period-IsCurve t (some before) r e n h = rw e (elim (Bool-cases (date t == before)) [
      | inl same ↦ record {
        equity_is = h.equity_is;
        daily_is = rw same (rw ((==_iff (date t) before).0 same) h.daily_is);
        past = past_later before (date t) r.book.trades n h.past;
      }
      | inr other ↦ record {
        equity_is = h.equity_is;
        daily_is =
            rw other (sym (day_sum_later before (date t) r.book.trades (ground arith) h.past));
        past = past_later before (date t) r.book.trades n h.past;
      }
    ])

    pub enter_now-book :
        (i : ℕ) (b : Bar fs) (friday : Bool) (r : Running)
        → ((enter_now fs c costs s df i b friday r).book ≡ r.book)
          × ((enter_now fs c costs s df i b friday r).current_day ≡ r.current_day)
    unfolding enter_now
    enter_now-book i b friday r = ground arith

    pub queue_next-book :
        (i : ℕ) (b : Bar fs) (friday has_next : Bool) (r : Running)
        → ((queue_next fs c costs s df i b friday has_next r).book ≡ r.book)
          × ((queue_next fs c costs s df i b friday has_next r).current_day ≡ r.current_day)
    unfolding queue_next
    queue_next-book i b friday has_next r = ground arith

    step-IsKept :
        (i : ℕ) (b : Bar fs) (next : Option ℕ) (r : Running)
        → NotAfter r.current_day (date b.timestamp)
        → IsKept r.current_day r.book
        → ((step fs c costs s df i b next r).current_day ≡ some (date b.timestamp))
          × IsCurve (date b.timestamp) (step fs c costs s df i b next r).book
    unfolding step manage_open fill_due
    step-IsKept i b next r n h =
        let closes =
          friday_close_state b.timestamp (infer_bar_interval fs c costs s df) c.friday_cutoff
            next in
        let friday = c.close_on_friday && closes.0 in
        let r1 = new_period fs c costs s b.timestamp r in
        let r2 = fill_due fs c costs s i b (c.close_on_friday && closes.1) r1 in
        let r3 = enter_now fs c costs s df i b friday r2 in
        let r4 = manage_open fs c costs s df i b friday r3 in
        let day = date b.timestamp in
        let entered = enter_now-book i b friday r2 in
        let left = queue_next-book i b friday (is_some next) r4 in
        (
          left.1 ∙ entered.1,
          subst (IsCurve day) (sym left.0) (
              manage_all-IsCurve i b friday r3.open_positions r3.book r3.strategy (
                subst (IsCurve day) (sym entered.0)
                  (new_period-IsCurve b.timestamp r.current_day r refl n h))),
        )

    run_bars-IsKept :
        (i : ℕ) (bs : List (Bar fs)) (r : Running)
        → InOrder r.current_day bs
        → IsKept r.current_day r.book
        → IsKept
            (run_bars fs c costs s df i bs r).current_day
            (run_bars fs c costs s df i bs r).book
    unfolding run_bars
    run_bars-IsKept i [] r n h = h
    run_bars-IsKept i (b ∷ bs) r n h =
        let next = timestamp_of fs c costs s bs in
        let r' = step fs c costs s df i b next r in
        let stepped = step-IsKept i b next r n.0 h in
        run_bars-IsKept (suc i) bs r' (subst (λ o. InOrder o bs) (sym stepped.0) n.1)
          (subst (λ o. IsKept o r'.book) (sym stepped.0) stepped.1)

    -- On bars whose days do not go back, a backtest that saw a bar ends with an equity that is
    -- the running sum of the results of its trades, and with a daily sum that is the sum over
    -- exactly the trades that closed on the last day.
    pub run_bars-IsCurve :
        (i : ℕ) (bs : List (Bar fs)) (st : State) (day : ℕ)
        → InOrder none bs
        → (run_bars fs c costs s df i bs (start fs c costs s st)).current_day ≡ some day
        → IsCurve day (run_bars fs c costs s df i bs (start fs c costs s st)).book
    run_bars-IsCurve i bs st day n e =
        subst (λ o. IsKept o (run_bars fs c costs s df i bs (start fs c costs s st)).book) e
          (run_bars-IsKept i bs (start fs c costs s st) n (refl, refl))
