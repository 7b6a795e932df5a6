-- ===== src/Account/State/Calls/Effect.antt =====
-- Every call of the account store leaves the database as it was, or makes one of its writes
-- (risk/account_state_store.py).
use trading_snapshot.Base.{
  ℕ, zero, suc, Bool, true, false, Option, none, some, List, String, str_eq, any, ◌≡◌, refl, sym,
  ap, ◌∙◌, subst, ◌⊎◌, inl, inr, arith, Bool-cases,
}
use trading_snapshot.Base.Float.{Floats}
use trading_snapshot.Intent.BrokerId.{Text}
use trading_snapshot.Account.Value.{
  Error, unavailable, Result, ok, err, Value, number, is_positive, positive_number, reset_text,
}
use trading_snapshot.Account.State.{
  AccountState, Audit, Db, World, Action, committed, transaction, in_transaction, migrated,
  then_write, read_or_migrate, Connection, read_state, record_equity, halt, reset_if_new,
  list_reset_audit, observed, has_id, stored, repeated, set_halt, reset_once, optional_equity,
  or_equity,
}
use trading_snapshot.Account.State.Calls.{
  Call, reads, lists, records, halts, resets, after, is_reset, Migrates, Write, adopts, observes,
  trips, restarts, Effect,
}

pub Result-cases :
    {A : Type 0} (r : Result A) → ((a : A) × (r ≡ ok a)) ⊎ ((x : Error) × (r ≡ err x))
Result-cases (ok a) = inl (a, refl)
Result-cases (err x) = inr (x, refl)

module _ (fs : Floats) where
  open fs use {F}

  module _ {A : Type 0} (op : Action fs A) (d : Db fs) where
    -- The operation runs once, or not at all.
    transaction-cases :
        (left k : ℕ) (env : ℕ → Connection)
        → (transaction fs left k env op d ≡ (err unavailable, d))
          ⊎ (transaction fs left k env op d ≡ committed fs d (op d))
    unfolding transaction
    transaction-cases zero k env = inl refl
    transaction-cases (suc left) k env = ground (arith, transaction-cases left (suc k) env)

    pub in_transaction-cases :
        (w : World fs)
        → (in_transaction fs w op d ≡ (err unavailable, d))
          ⊎ (in_transaction fs w op d ≡ committed fs d (op d))
    unfolding in_transaction
    in_transaction-cases w = transaction-cases w.attempts 0 w.connection

  module _ (w : World fs) where
    migrate-of :
        (st : Option (AccountState fs)) (audits : List (Audit fs))
        → let d : Db fs = record { state = st; reset_audit = audits } in
          ((e : Option (AccountState fs)) × Migrates fs w d e
            × (read_or_migrate fs w d ≡ (ok e, record d { state = e })))
          ⊎ ((x : Error) × (read_or_migrate fs w d ≡ (err x, d)))
    unfolding read_or_migrate
    migrate-of (some s) audits = inl (some s, inl refl, refl)
    migrate-of none audits = elim (Result-cases w.legacy) [
      | inl (e, l) ↦ inl (e, inr (refl, l), rw l)
      | inr (x, l) ↦ inr (x, rw l)
    ]

    pub read_or_migrate-cases :
        (d : Db fs)
        → ((e : Option (AccountState fs)) × Migrates fs w d e
            × (read_or_migrate fs w d ≡ (ok e, record d { state = e })))
          ⊎ ((x : Error) × (read_or_migrate fs w d ≡ (err x, d)))
    read_or_migrate-cases d = migrate-of d.state d.reset_audit

    -- The body runs once from the migrated row, or the database stays and the call raises.
    pub transaction-outcome :
        {A : Type 0} (k : Option (AccountState fs) → Action fs A) (d : Db fs)
        → ((x : Error) × (in_transaction fs w (migrated fs w k) d ≡ (err x, d)))
          ⊎ ((e : Option (AccountState fs)) × Migrates fs w d e
              × (in_transaction fs w (migrated fs w k) d
                  ≡ committed fs d (k e (record d { state = e }))))
    transaction-outcome k d = elim (in_transaction-cases (migrated fs w k) d w) [
      | inl failed ↦ inl (unavailable, failed)
      | inr ran ↦ elim (read_or_migrate-cases d) [
        | inr (x, unread) ↦ inl (x, ran ∙ ap (λ r. committed fs d (then_write fs r.0 k r.1)) unread)
        | inl (e, m, found) ↦
            inr (e, m, ran ∙ ap (λ r. committed fs d (then_write fs r.0 k r.1)) found)
      ]
    ]

    -- A body that only writes as the store does has its effect in a transaction too.
    transaction-Effect :
        {A : Type 0} (b : Bool) (k : Option (AccountState fs) → Action fs A) (d : Db fs)
        → ((e : Option (AccountState fs))
            → ((committed fs d (k e (record d { state = e }))).1 ≡ d)
              ⊎ Write fs w e d b (committed fs d (k e (record d { state = e }))).1)
        → Effect fs w b d (in_transaction fs w (migrated fs w k) d).1
    transaction-Effect b k d writes = elim (transaction-outcome k d) [
      | inl (x, raised) ↦ inl (ap (λ r. r.1) raised)
      | inr (e, m, ran) ↦ elim (writes e) [
        | inl same ↦ inl (ap (λ r. r.1) ran ∙ same)
        | inr write ↦ inr (e, m, subst (Write fs w e d b) (sym (ap (λ r. r.1) ran)) write)
      ]
    ]

    read_state-Effect : (d : Db fs) → Effect fs w false d (read_state fs w d).1
    unfolding read_state
    read_state-Effect d = elim (in_transaction-cases (read_or_migrate fs w) d w) [
      | inl failed ↦ inl (ap (λ r. r.1) failed)
      | inr ran ↦ elim (read_or_migrate-cases d) [
        | inr (x, unread) ↦ inl (ap (λ r. r.1) ran ∙ ap (λ r. (committed fs d r).1) unread)
        | inl (e, m, found) ↦
            let ends = ap (λ r. r.1) ran ∙ ap (λ r. (committed fs d r).1) found in
            inr (e, m, subst (Write fs w e d false) (sym ends) adopts)
      ]
    ]

    list-Effect : (d : Db fs) → Effect fs w false d (list_reset_audit fs w d).1
    unfolding list_reset_audit
    list-Effect d = elim (in_transaction-cases (λ d'. (ok d'.reset_audit, d')) d w) [
      | inl failed ↦ inl (ap (λ r. r.1) failed)
      | inr ran ↦ inl (ap (λ r. r.1) ran)
    ]

    or_equity-positive :
        (c : Option F) (e : F)
        → ((x : F) → c ≡ some x → is_positive fs x ≡ true)
        → is_positive fs e ≡ true
        → is_positive fs (or_equity fs c e) ≡ true
    or_equity-positive none e h k = k
    or_equity-positive (some x) e h k = h x refl

    pub checked-positive :
        (name : String) (v : Value fs) (x : F)
        → positive_number fs name v ≡ ok x
        → is_positive fs x ≡ true
    unfolding positive_number
    checked-positive name (number x) y h = ground arith
    checked-positive name _ y h = cc

    optional-positive :
        (name : String) (v : Option (Value fs)) (c : Option F)
        → optional_equity fs name v ≡ ok c
        → (x : F) → c ≡ some x
        → is_positive fs x ≡ true
    optional-positive name none c h x k = cc
    optional-positive name (some v) c h x k = elim (Result-cases (positive_number fs name v)) [
      | inl (y, checked) ↦
          let found : ok (some y) ≡ ok c = (rw checked at h) in
          checked-positive name v x (checked ∙ cc)
      | inr (bad, refused) ↦ absurd (let no : err bad ≡ ok c = (rw refused at h) in cc)
    ]

    -- A body behind a check has an effect if it has one whenever the check passes.
    then_write-Effect :
        {A B : Type 0} (b : Bool) (r : Result A) (k : A → Action fs B) (d : Db fs)
        → ((a : A) → r ≡ ok a → Effect fs w b d (k a d).1)
        → Effect fs w b d (then_write fs r k d).1
    then_write-Effect b (ok a) k d h = h a refl
    then_write-Effect b (err x) k d h = inl refl

    record_equity-Effect :
        (v : Value fs) (c : Option (Value fs)) (d : Db fs)
        → Effect fs w false d (record_equity fs w v c d).1
    unfolding record_equity
    record_equity-Effect v c d =
        then_write-Effect false (positive_number fs "equity" v) _ d (λ e he.
          then_write-Effect false (optional_equity fs "configured_starting_equity" c) _ d (λ s hs.
            let pe = checked-positive "equity" v e he in
            let ps =
              or_equity-positive s e (optional-positive "configured_starting_equity" c s hs) pe in
            transaction-Effect false (λ x. stored fs (observed fs (or_equity fs s e) e w.now x)) d
              (λ x. inr (observes (or_equity fs s e) e ps pe))))

    halt-Effect : (reason : String) (d : Db fs) → Effect fs w false d (halt fs w reason d).1
    unfolding halt
    halt-Effect reason d = elim (Bool-cases (str_eq reason "")) [
      | inl empty ↦ rw empty (inl refl)
      | inr given ↦
          rw given (transaction-Effect false (set_halt fs w reason) d (λ x. inr (trips reason)))
    ]

    reset_once-Write :
        (id reason : Text) (starting equity : F) (d : Db fs)
        → is_positive fs starting ≡ true
        → is_positive fs equity ≡ true
        → (e : Option (AccountState fs))
        → ((committed fs d (reset_once fs w id reason starting equity e (record d { state = e }))).1
            ≡ d)
          ⊎ Write fs w e d true
              (committed fs d
                (reset_once fs w id reason starting equity e (record d { state = e }))).1
    reset_once-Write id reason starting equity d ps pe e =
        elim (Bool-cases (any (has_id fs id) d.reset_audit)) [
          | inr fresh ↦ rw fresh (inr (restarts id reason starting equity refl ps pe fresh))
          | inl known ↦ rw known (again e)
        ]
      where
        again :
            (e : Option (AccountState fs))
            → ((committed fs d (repeated fs w e (record d { state = e }))).1 ≡ d)
              ⊎ Write fs w e d true (committed fs d (repeated fs w e (record d { state = e }))).1
        again none = inl refl
        again (some s) = inr adopts

    reset-Effect :
        (id reason : Text) (v : Value fs) (c b : Option (Value fs)) (d : Db fs)
        → Effect fs w true d (reset_if_new fs w id reason v c b d).1
    unfolding reset_if_new
    reset-Effect id reason v c b d = then_write-Effect true (reset_text false 128 id) _ d (λ i hi.
        then_write-Effect true (reset_text true 512 reason) _ d (λ r hr.
          then_write-Effect true (positive_number fs "current_equity" v) _ d (λ e he.
            then_write-Effect true (optional_equity fs "configured_starting_equity" c) _ d (λ s hs.
              then_write-Effect true (optional_equity fs "broker_balance" b) _ d (λ a ha.
                let pe = checked-positive "current_equity" v e he in
                let pa = or_equity-positive a e (optional-positive "broker_balance" b a ha) pe in
                let ps =
                  or_equity-positive s (or_equity fs a e)
                    (optional-positive "configured_starting_equity" c s hs) pa in
                transaction-Effect true (reset_once fs w i r (or_equity fs s (or_equity fs a e)) e)
                  d (reset_once-Write i r (or_equity fs s (or_equity fs a e)) e d ps pe))))))

    pub after-Effect : (c : Call fs) (d : Db fs) → Effect fs w (is_reset fs c) d (after fs w c d)
    unfolding after
    after-Effect reads d = read_state-Effect d
    after-Effect lists d = list-Effect d
    after-Effect (records v c) d = record_equity-Effect v c d
    after-Effect (halts r) d = halt-Effect r d
    after-Effect (resets i r e c b) d = reset-Effect i r e c b d
