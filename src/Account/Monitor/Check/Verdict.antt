-- ===== src/Account/Monitor/Check/Verdict.antt =====
-- The whole of `check` and `recover_persisted_halt` (risk/account_monitor.py).
use trading_snapshot.Base.{
  Bool, true, false, Option, none, some, ◌≡◌, refl, ap, ◌∙◌, inl, inr, Bool-cases,
}
use trading_snapshot.Base.Float.{Floats}
use trading_snapshot.Account.Value.{Result, ok, err, number}
use trading_snapshot.Account.State.{AccountState, Db, read_state, record_equity}
use trading_snapshot.Account.Monitor.{
  Breach, hard_dd_breach, dd_breach, profit_target, profit_warning, of_breach, Switch, Rules, row,
  view_of, is_halted, Meets, is_usable, dd_of, profit_of, configured,
}
use trading_snapshot.Account.Monitor.Check.{
  Monitor, report, handle_breach, handled, apply_breach, measured, record_answer, observe_equity,
  check_answer, check, seen_row,
}
use trading_snapshot.Account.Monitor.Check.Reading.{
  read_state-none, read_state-state, record-running, was_halted-view,
}
use trading_snapshot.Account.Monitor.Check.Safety.{
  stops, IsSafe, alert-state, fail_closed-IsSafe, hold-IsSafe, handle-armed, handle-halted,
}

module _ (fs : Floats) (sw : Switch) where
  open fs use {F, lt, le}
  open sw use {K, triggered}

  handled-IsSafe :
      (b : Breach) (dd profit : F) (q : Bool × Monitor fs sw)
      → triggered q.1.switch ≡ true
      → is_halted fs q.1.state ≡ true
      → IsSafe fs sw (handled fs sw b dd profit q)
  unfolding report
  handled-IsSafe b dd profit (true, m) t h = ((λ _. t), h)
  handled-IsSafe b dd profit (false, m) t h = ((λ _. t), h)

  stopping-IsSafe :
      (b : Breach) (dd profit : F) (x : Meets fs) (m : Monitor fs sw)
      → IsSafe fs sw (handled fs sw b dd profit (handle_breach fs sw b x.on_halt x.now m))
  stopping-IsSafe b dd profit x m =
      handled-IsSafe b dd profit (handle_breach fs sw b x.on_halt x.now m)
        (handle-armed fs sw b x.on_halt x.now m) (handle-halted fs sw b x.on_halt x.now m)

  apply_breach-IsSafe :
      (o : Option Breach) (dd profit : F) (x : Meets fs) (m : Monitor fs sw)
      → is_halted fs m.state ≡ false
      → IsSafe fs sw (apply_breach fs sw o dd profit x m)
  unfolding apply_breach report
  apply_breach-IsSafe none dd profit x m h = ((λ k. cc), h)
  apply_breach-IsSafe (some hard_dd_breach) dd profit x m h =
      stopping-IsSafe hard_dd_breach dd profit x m
  apply_breach-IsSafe (some dd_breach) dd profit x m h = stopping-IsSafe dd_breach dd profit x m
  apply_breach-IsSafe (some profit_target) dd profit x m h =
      stopping-IsSafe profit_target dd profit x m
  apply_breach-IsSafe (some profit_warning) dd profit x m h = (
    (λ k. cc),
    ap (λ v. is_halted fs v) (alert-state fs sw (of_breach profit_warning) x.now m) ∙ h,
  )

  record_answer-IsSafe :
      (rules : Rules fs) (x : Meets fs) (e : F) (m : Monitor fs sw)
      (q : Result (AccountState fs) × Db fs)
      → ((s : AccountState fs) → q.0 ≡ ok s → s.halted ≡ false)
      → IsSafe fs sw (record_answer fs sw rules x e m q)
  unfolding record_answer measured
  record_answer-IsSafe rules x e m (err _, d) h = fail_closed-IsSafe fs sw (record m { db = d })
  record_answer-IsSafe rules x e m (ok s, d) h =
      apply_breach-IsSafe _ (dd_of fs s.peak_equity e) (profit_of fs s.starting_equity e) x
        (record m { state = row s; db = d }) (h s refl)

  -- A file of the older format does not appear between the two transactions of a check.
  abbrev pub IsSteady : Meets fs → Type 0
  IsSteady x = x.on_read.legacy ≡ ok none → x.on_record.legacy ≡ ok none

  read_answer-IsSafe :
      (rules : Rules fs) (x : Meets fs) (m : Monitor fs sw)
      (q : Result (Option (AccountState fs)) × Db fs)
      → IsSteady x
      → read_state fs x.on_read m.db ≡ q
      → IsSafe fs sw (check_answer fs sw rules x m q)
  unfolding check_answer observe_equity report
  read_answer-IsSafe rules x m (err _, d) steady h = fail_closed-IsSafe fs sw (record m { db = d })
  read_answer-IsSafe rules x m (ok o, d) steady h =
      elim (Bool-cases (is_halted fs (view_of fs o))) [
        | inl on ↦ rw on (hold-IsSafe fs sw x.now (seen_row fs sw m o d) on)
        | inr off ↦ rw off (equity_answer x.equity off)
      ]
    where
      no_file : o ≡ none → x.on_record.legacy ≡ ok none
      no_file empty = steady (read_state-none fs x.on_read m.db d (h ∙ ap (λ r. (ok r, d)) empty))

      equity_answer :
          (e : Option F)
          → is_halted fs (view_of fs o) ≡ false
          → IsSafe fs sw (observe_equity fs sw rules x e (seen_row fs sw m o d))
      equity_answer none off = ((λ k. cc), off)
      equity_answer (some e) off = elim (Bool-cases (is_usable fs e)) [
        | inr bad ↦ rw bad ((λ k. cc), off)
        | inl good ↦ rw good (
            record_answer-IsSafe rules x e (seen_row fs sw m o d)
              (record_equity fs x.on_record (number e) (some (configured fs rules x.balance e)) d)
              (λ s ran.
                record-running fs x.on_record (number e) (some (configured fs rules x.balance e)) d
                  o s (read_state-state fs x.on_read m.db d o h) (was_halted-view fs o off) no_file
                  ran))
      ]

  -- Whatever the broker and the database answer, for a check that no other process comes between:
  -- if it reports HALT or HALT_DEGRADED the kill switch is triggered, and it reports one of these
  -- exactly when the account's state, as it leaves it, is halted. This holds if no file of the
  -- older format appears between the check's two reads.
  pub check-safe :
      (rules : Rules fs) (x : Meets fs) (m : Monitor fs sw)
      → IsSteady x
      → let (r, m') = check fs sw rules x m in
        (stops r.action ≡ true → triggered m'.switch ≡ true) × (r.halted ≡ stops r.action)
  unfolding check
  check-safe rules x m steady =
      read_answer-IsSafe rules x m (read_state fs x.on_read m.db) steady refl
