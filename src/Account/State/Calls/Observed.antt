-- ===== src/Account/State/Calls/Observed.antt =====
-- What `record_equity` returns (risk/account_state_store.py).
use trading_snapshot.Base.{Option, some, ◌≡◌, refl, sym, ap, ◌∙◌, inl, inr}
use trading_snapshot.Base.Float.{Floats}
use trading_snapshot.Account.Value.{Result, ok, err, Value, positive_number}
use trading_snapshot.Account.State.{
  AccountState, Db, World, record_equity, observed, then_write, Action, in_transaction, observe,
  stored, or_equity, optional_equity,
}
use trading_snapshot.Account.State.Calls.{Migrates}
use trading_snapshot.Account.State.Calls.Effect.{transaction-outcome}

module _ (fs : Floats) where
  open fs use {F, lt, le, finite, le_refl, lt_not_le, le_of_lt}

  then_write-ok :
      {A B : Type 0} (r : Result A) (k : A → Action fs B) (d : Db fs) (b : B)
      → (then_write fs r k d).0 ≡ ok b
      → (a : A) × (r ≡ ok a) × (then_write fs r k d ≡ k a d)
  then_write-ok (ok a) k d b h = (a, refl, refl)
  then_write-ok (err x) k d b h = cc

  -- A call that returns has validated the equity, and stored the observation over the row that
  -- it found.
  pub record_equity-outcome :
      (w : World fs) (v : Value fs) (c : Option (Value fs)) (d : Db fs) (s : AccountState fs)
      → (record_equity fs w v c d).0 ≡ ok s
      → (e : F) × (start : F) × (old : Option (AccountState fs)) × (positive_number fs "equity" v
          ≡ ok e)
        × Migrates fs w d old
        × (s ≡ observed fs start e w.now old)
        × ((record_equity fs w v c d).1.state ≡ some s)
  unfolding record_equity
  record_equity-outcome w v c d s h =
      let (e, he, at_e) =
        then_write-ok (positive_number fs "equity" v)
          (λ e.
            then_write fs (optional_equity fs "configured_starting_equity" c)
              (λ a. in_transaction fs w (observe fs w (or_equity fs a e) e)))
          d s h in
      let h1 = ap (λ q. q.0) (sym at_e) ∙ h in
      let (a, ha, at_a) =
        then_write-ok (optional_equity fs "configured_starting_equity" c)
          (λ a. in_transaction fs w (observe fs w (or_equity fs a e) e)) d s h1 in
      let h2 = ap (λ q. q.0) (sym at_a) ∙ h1 in
      elim (transaction-outcome fs w (λ old. stored fs (observed fs (or_equity fs a e) e w.now old))
        d) [
          | inl (x, raised) ↦ absurd (
              let bad : ◌≡◌ {A = Result (AccountState fs)} (err x) (ok s) =
                ap (λ q. q.0) (sym raised) ∙ h2 in
              cc)
          | inr (old, m, ran) ↦
              let same : ◌≡◌ {A = Result (AccountState fs)}
                  (ok (observed fs (or_equity fs a e) e w.now old)) (ok s) =
                ap (λ q. q.0) (sym ran) ∙ h2 in
              let is_s : observed fs (or_equity fs a e) e w.now old ≡ s = cc in
              (
                e,
                or_equity fs a e,
                old,
                he,
                m,
                sym is_s,
                ap (λ q. q.1.state) (at_e ∙ at_a ∙ ran) ∙ ap (λ x. some x) is_s,
              )
        ]
