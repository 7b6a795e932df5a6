-- ===== src/Account/Monitor/Check/Safety.antt =====
-- What a check of the account guarantees (risk/account_monitor.py): a report that stops trading
-- comes with a triggered kill switch, and a failed store is such a report.
use trading_snapshot.Base.{
  Bool, true, false, not, Option, String, ◌≡◌, refl, sym, ap, ◌∙◌, inl, inr, arith, Bool-cases,
}
use trading_snapshot.Base.Float.{Floats}
use trading_snapshot.Account.Value.{Result, ok, err}
use trading_snapshot.Account.State.{AccountState, Db, World, halt}
use trading_snapshot.Account.State.{halted_state, was_halted}
use trading_snapshot.Account.State.Calls.Once.{halt-outcome, halted_state-halted}
use trading_snapshot.Account.Monitor.{
  Breach, AlertKind, of_breach, halt_propagated, halt_recovery_degraded, breach_name,
  flatten_reason, account_breach, halted_by_sibling, store_unavailable, Flattened, raised,
  returned_none, flattened, Switch, halted_degraded, Action, halt_action, halt_degraded_action,
  proves_flat, row, is_halted, reason_of, Report,
}
use trading_snapshot.Account.Monitor.Check.{
  Monitor, alert, report, trip, fail_closed, propagate_halt, flattening, recovered, reassert_halt,
  hold_halt, after_breach, note_raised, handle_breach, handle_answer, flat_health,
}

abbrev pub stops : Action → Bool
stops halt_action = true
stops halt_degraded_action = true
stops _ = false

module _ (fs : Floats) (sw : Switch) where
  open fs use {F, zero_f, sub, of_ℤ, lt, le}
  open sw use {K, triggered, trigger, flatten_all, trigger-triggered, flatten-triggered}

  pub alert-switch :
      (k : AlertKind) (now : F) (m : Monitor fs sw) → (alert fs sw k now m).switch ≡ m.switch
  unfolding alert
  alert-switch k now m = ground arith

  pub fail_closed-armed : (m : Monitor fs sw) → triggered (fail_closed fs sw m).1.switch ≡ true
  unfolding fail_closed report
  fail_closed-armed m = elim (Bool-cases (triggered m.switch)) [
    | inl on ↦ rw on on
    | inr off ↦ rw off (trigger-triggered store_unavailable m.switch)
  ]

  pub propagate-armed :
      (now : F) (r : Option String) (m : Monitor fs sw)
      → triggered (propagate_halt fs sw now r m).switch ≡ true
  unfolding propagate_halt
  propagate-armed now r m = elim (Bool-cases (triggered m.switch)) [
    | inl on ↦ rw on on
    | inr off ↦ rw off (
        ap (λ k. triggered k)
          (alert-switch halt_propagated now (trip fs sw (halted_by_sibling r) m))
        ∙ trigger-triggered (halted_by_sibling r) m.switch)
  ]

  recovered-switch :
      (now : F) (f : Flattened) (m : Monitor fs sw)
      → (recovered fs sw now (f, m)).1.switch ≡ m.switch
  unfolding recovered report
  recovered-switch now f m = elim (Bool-cases (proves_flat f)) [
    | inl flat ↦ rw flat refl
    | inr not_flat ↦
        rw not_flat
          (alert-switch halt_recovery_degraded now (record m { halt_health = halted_degraded }))
  ]

  pub hold-armed : (now : F) (m : Monitor fs sw) → triggered (hold_halt fs sw now m).1.switch ≡ true
  unfolding hold_halt reassert_halt
  hold-armed now m =
      let p = propagate_halt fs sw now (reason_of fs m.state) m in
      let q = flattening fs sw "ACCOUNT_HALTED_RECOVERY" true p in
      ap (λ k. triggered k) (recovered-switch now q.0 q.1)
      ∙ flatten-triggered "ACCOUNT_HALTED_RECOVERY" true p.switch
      ∙ propagate-armed now (reason_of fs m.state) m

  note_raised-switch :
      (b : Breach) (f : Flattened) (m : Monitor fs sw) → (note_raised fs sw b f m).switch ≡ m.switch
  note_raised-switch b raised m = refl
  note_raised-switch b returned_none m = refl
  note_raised-switch b (flattened _) m = refl

  breach-armed :
      (b : Breach) (now : F) (m : Monitor fs sw)
      → triggered
          (after_breach fs sw b now
            (flattening fs sw (flatten_reason b) false (trip fs sw (account_breach b) m))).switch
        ≡ true
  breach-armed b now m =
      let q = flattening fs sw (flatten_reason b) false (trip fs sw (account_breach b) m) in
      ap (λ k. triggered k)
        (alert-switch (of_breach b) now
            (note_raised fs sw b q.0 (record q.1 { halt_health = flat_health fs sw q.0 }))
          ∙ note_raised-switch b q.0 (record q.1 { halt_health = flat_health fs sw q.0 }))
      ∙ flatten-triggered (flatten_reason b) false (trigger (account_breach b) m.switch)
      ∙ trigger-triggered (account_breach b) m.switch

  pub handle-armed :
      (b : Breach) (w : World fs) (now : F) (m : Monitor fs sw)
      → triggered (handle_breach fs sw b w now m).1.switch ≡ true
  unfolding handle_breach handle_answer
  handle-armed b w now m = answer (halt fs w (breach_name b) m.db)
    where
      answer :
          (q : Result (AccountState fs × Bool) × Db fs)
          → triggered (handle_answer fs sw b now m q).1.switch ≡ true
      answer (err _, d) = fail_closed-armed (record m { db = d })
      answer (ok (s, true), d) = breach-armed b now (record m { state = row s; db = d })
      answer (ok (s, false), d) =
          propagate-armed now s.halt_reason (record m { state = row s; db = d })

  -- Armed, and stopping exactly when the state that it leaves is halted.
  abbrev pub IsSafe : Report fs × Monitor fs sw → Type 0
  IsSafe (r, m) = (stops r.action ≡ true → triggered m.switch ≡ true) × (r.halted ≡ stops r.action)

  pub fail_closed-IsSafe : (m : Monitor fs sw) → IsSafe (fail_closed fs sw m)
  unfolding fail_closed report
  fail_closed-IsSafe m = elim (Bool-cases (triggered m.switch)) [
    | inl on ↦ rw on ((λ _. on), refl)
    | inr off ↦ rw off ((λ _. trigger-triggered store_unavailable m.switch), refl)
  ]

  pub alert-state :
      (k : AlertKind) (now : F) (m : Monitor fs sw) → (alert fs sw k now m).state ≡ m.state
  unfolding alert
  alert-state k now m = ground arith

  propagate-state :
      (now : F) (r : Option String) (m : Monitor fs sw)
      → (propagate_halt fs sw now r m).state ≡ m.state
  unfolding propagate_halt
  propagate-state now r m = elim (Bool-cases (triggered m.switch)) [
    | inl on ↦ rw on refl
    | inr off ↦ rw off (alert-state halt_propagated now (trip fs sw (halted_by_sibling r) m))
  ]

  pub recovered-halted :
      (now : F) (f : Flattened) (m : Monitor fs sw)
      → is_halted fs m.state ≡ true
      → ((recovered fs sw now (f, m)).0.halted ≡ true)
        × (stops (recovered fs sw now (f, m)).0.action ≡ true)
  unfolding recovered report
  recovered-halted now f m h = elim (Bool-cases (proves_flat f)) [
    | inl flat ↦ rw flat (h, refl)
    | inr not_flat ↦ rw not_flat (
      ap (λ v. is_halted fs v)
            (alert-state halt_recovery_degraded now (record m { halt_health = halted_degraded }))
          ∙ h,
      refl,
    )
  ]

  pub hold-halted :
      (now : F) (m : Monitor fs sw)
      → is_halted fs m.state ≡ true
      → ((hold_halt fs sw now m).0.halted ≡ true) × (stops (hold_halt fs sw now m).0.action ≡ true)
  unfolding hold_halt reassert_halt
  hold-halted now m h =
      let p = propagate_halt fs sw now (reason_of fs m.state) m in
      let q = flattening fs sw "ACCOUNT_HALTED_RECOVERY" true p in
      recovered-halted now q.0 q.1
        (ap (λ v. is_halted fs v) (propagate-state now (reason_of fs m.state) m) ∙ h)

  pub hold-IsSafe :
      (now : F) (m : Monitor fs sw) → is_halted fs m.state ≡ true → IsSafe (hold_halt fs sw now m)
  hold-IsSafe now m h = let (a, b) = hold-halted now m h in ((λ _. hold-armed now m), a ∙ sym b)

  after_breach-state :
      (b : Breach) (now : F) (f : Flattened) (m : Monitor fs sw)
      → (after_breach fs sw b now (f, m)).state ≡ m.state
  after_breach-state b now f m =
      alert-state (of_breach b) now
        (note_raised fs sw b f (record m { halt_health = flat_health fs sw f }))
      ∙ noted f
    where
      noted :
          (g : Flattened)
          → (note_raised fs sw b g (record m { halt_health = flat_health fs sw f })).state ≡ m.state
      noted raised = refl
      noted returned_none = refl
      noted (flattened _) = refl

  -- The row that `halt` returns is halted.
  halt-halted :
      (w : World fs) (r : String) (d d' : Db fs) (s : AccountState fs) (b : Bool)
      → halt fs w r d ≡ (ok (s, b), d')
      → s.halted ≡ true
  halt-halted w r d d' s b h = elim (halt-outcome fs w r d) [
    | inl (x, bad) ↦ absurd (let no_result : err x ≡ ok (s, b) = sym bad ∙ ap (λ q. q.0) h in cc)
    | inr (e, m, ran) ↦
        let same : ◌≡◌ {A = Result (AccountState fs × Bool)}
            (ok (halted_state fs r w.now e, not (was_halted fs e))) (ok (s, b)) =
          ap (λ q. q.0) (sym ran ∙ h) in
        let row_is : halted_state fs r w.now e ≡ s = cc in
        sym (ap (λ x. x.halted) row_is) ∙ halted_state-halted fs r w.now e
  ]

  pub handle-halted :
      (b : Breach) (w : World fs) (now : F) (m : Monitor fs sw)
      → is_halted fs (handle_breach fs sw b w now m).1.state ≡ true
  unfolding handle_breach handle_answer
  handle-halted b w now m = answer (halt fs w (breach_name b) m.db) refl
    where
      answer :
          (q : Result (AccountState fs × Bool) × Db fs)
          → halt fs w (breach_name b) m.db ≡ q
          → is_halted fs (handle_answer fs sw b now m q).1.state ≡ true
      answer (err _, d) h = (fail_closed-IsSafe (record m { db = d })).1
      answer (ok (s, true), d) h =
          let seen : Monitor fs sw = record m { state = row s; db = d } in
          let q = flattening fs sw (flatten_reason b) false (trip fs sw (account_breach b) seen) in
          ap (λ v. is_halted fs v) (after_breach-state b now q.0 q.1)
          ∙ halt-halted w (breach_name b) m.db d s true h
      answer (ok (s, false), d) h =
          ap (λ v. is_halted fs v)
            (propagate-state now s.halt_reason (record m { state = row s; db = d }))
          ∙ halt-halted w (breach_name b) m.db d s false h
