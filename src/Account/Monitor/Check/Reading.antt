-- ===== src/Account/Monitor/Check/Reading.antt =====
-- What the store's answers say of the row, for one monitor that checks it
-- (risk/account_monitor.py).
use trading_snapshot.Base.{false, Option, none, some, List, ◌≡◌, refl, sym, ap, ◌∙◌, inl, inr}
use trading_snapshot.Base.Float.{Floats}
use trading_snapshot.Account.Value.{unavailable, Result, ok, err, Value}
use trading_snapshot.Account.State.{
  observed, committed, read_or_migrate, AccountState, Audit, Db, World, read_state, record_equity,
}
use trading_snapshot.Account.State.Calls.Effect.{
  Result-cases, in_transaction-cases, read_or_migrate-cases,
}
use trading_snapshot.Account.State.Calls.{Migrates}
use trading_snapshot.Account.State.Calls.Observed.{record_equity-outcome}
use trading_snapshot.Account.State.{was_halted}
use trading_snapshot.Account.Monitor.{view_of, is_halted}

module _ (fs : Floats) where
  open fs use {F, lt, le}

  -- A successful read leaves the row that it returns.
  pub read_state-state :
      (w : World fs) (d d' : Db fs) (o : Option (AccountState fs))
      → read_state fs w d ≡ (ok o, d')
      → d'.state ≡ o
  unfolding read_state
  read_state-state w d d' o h = elim (in_transaction-cases fs (read_or_migrate fs w) d w) [
    | inl failed ↦ absurd (
        let bad : ◌≡◌ {A = Result (Option (AccountState fs))} (err unavailable) (ok o) =
          ap (λ q. q.0) (sym failed ∙ h) in
        cc)
    | inr ran ↦ elim (read_or_migrate-cases fs w d) [
      | inl (e, m, found) ↦
          let ends : ◌≡◌ {A = Result (Option (AccountState fs)) × Db fs}
              (ok e, record d { state = e }) (ok o, d') =
            sym (ran ∙ ap (λ q. committed fs d q) found) ∙ h in
          let same : ◌≡◌ {A = Result (Option (AccountState fs))} (ok e) (ok o) =
            ap (λ q. q.0) ends in
          let is_o : e ≡ o = cc in sym (ap (λ q. q.1.state) ends) ∙ is_o
      | inr (x, unread) ↦ absurd (
          let bad : ◌≡◌ {A = Result (Option (AccountState fs))} (err x) (ok o) =
            ap (λ q. q.0) (sym (ran ∙ ap (λ q. committed fs d q) unread) ∙ h) in
          cc)
    ]
  ]

  pub was_halted-view :
      (o : Option (AccountState fs)) → is_halted fs (view_of fs o) ≡ false → was_halted fs o ≡ false
  was_halted-view none h = refl
  was_halted-view (some s) h = h

  observed-halted :
      (st e now : F) (o : Option (AccountState fs))
      → (observed fs st e now o).halted ≡ was_halted fs o
  unfolding observed
  observed-halted st e now none = refl
  observed-halted st e now (some s) = refl

  -- What `record_equity` returns is halted only if the row before was.
  pub record-running :
      (w : World fs) (v : Value fs) (c : Option (Value fs)) (d : Db fs)
      (o : Option (AccountState fs)) (s : AccountState fs)
      → d.state ≡ o
      → was_halted fs o ≡ false
      → (o ≡ none → w.legacy ≡ ok none)
      → (record_equity fs w v c d).0 ≡ ok s
      → s.halted ≡ false
  record-running w v c d o s here h no_file ran =
      let (e, start, old, he, m, is_s, there) = record_equity-outcome fs w v c d s ran in
      ap (λ x. x.halted) is_s ∙ observed-halted start e w.now old ∙ before old m
    where
      before : (old : Option (AccountState fs)) → Migrates fs w d old → was_halted fs old ≡ false
      before old (inl same) = ap (λ x. was_halted fs x) (sym same ∙ here) ∙ h
      before old (inr (empty, read)) =
          let found : ◌≡◌ {A = Result (Option (AccountState fs))} (ok old) (ok none) =
            sym read ∙ no_file (sym here ∙ empty) in
          let is_none : old ≡ none = cc in ap (λ x. was_halted fs x) is_none

  legacy-none :
      (w : World fs) (st : Option (AccountState fs)) (audits : List (Audit fs))
      → (read_or_migrate fs w (record { state = st; reset_audit = audits })).0 ≡ ok none
      → w.legacy ≡ ok none
  unfolding read_or_migrate
  legacy-none w (some s) audits h = cc
  legacy-none w none audits h = elim (Result-cases w.legacy) [
    | inl (e, l) ↦ l ∙ (rw l at h)
    | inr (x, l) ↦ absurd (
        let bad : ◌≡◌ {A = Result (Option (AccountState fs))} (err x) (ok none) = (rw l at h) in cc)
  ]

  -- A read that finds nothing has found no file of the older format.
  pub read_state-none :
      (w : World fs) (d d' : Db fs) → read_state fs w d ≡ (ok none, d') → w.legacy ≡ ok none
  unfolding read_state
  read_state-none w d d' h = elim (in_transaction-cases fs (read_or_migrate fs w) d w) [
    | inl failed ↦ absurd (
        let bad : ◌≡◌ {A = Result (Option (AccountState fs))} (err unavailable) (ok none) =
          ap (λ q. q.0) (sym failed ∙ h) in
        cc)
    | inr ran ↦ elim (read_or_migrate-cases fs w d) [
      | inl (e, m, found) ↦
          let same : ◌≡◌ {A = Result (Option (AccountState fs))} (ok e) (ok none) =
            ap (λ q. q.0) (sym (ran ∙ ap (λ q. committed fs d q) found) ∙ h) in
          legacy-none w d.state d.reset_audit (ap (λ q. q.0) found ∙ same)
      | inr (x, unread) ↦ absurd (
          let bad : ◌≡◌ {A = Result (Option (AccountState fs))} (err x) (ok none) =
            ap (λ q. q.0) (sym (ran ∙ ap (λ q. committed fs d q) unread) ∙ h) in
          cc)
    ]
  ]
