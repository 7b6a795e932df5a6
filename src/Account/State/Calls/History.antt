-- ===== src/Account/State/Calls/History.antt =====
-- What the sequences of calls keep (risk/account_state_store.py): the equities of the row are
-- positive, a halt holds and a peak never falls until a reset, and a reset is applied once.
use trading_snapshot.Base.{
  ◌≤◌, Bool, true, false, Option, none, some, List, [], ◌∷◌, String, All, ◌≡◌, refl, sym, ap, ◌∙◌,
  subst, inl, inr, arith, Bool-cases,
}
use trading_snapshot.Base.Float.{Floats}
use trading_snapshot.Account.Value.{ok, is_positive}
use trading_snapshot.Account.State.{
  AccountState, Db, World, observed, halted_state, reset_state, coalesce, raised_peak,
}
use trading_snapshot.Account.State.Calls.{
  Call, after, after_all, is_reset, Migrates, Write, adopts, observes, trips, restarts,
}
use trading_snapshot.Account.State.Calls.Effect.{after-Effect}

module _ (fs : Floats) where
  open fs use {F, zero_f, lt, le, finite, le_refl, le_trans, le_of_lt, lt_not_le}

  abbrev pub OptPositive : Option F → Type 0
  OptPositive none = Unit
  OptPositive (some x) = is_positive fs x ≡ true

  -- The CHECK constraints of the table, and that no value is NaN or infinite.
  abbrev pub IsSound : Option (AccountState fs) → Type 0
  IsSound none = Unit
  IsSound (some s) =
      OptPositive s.starting_equity × OptPositive s.peak_equity × OptPositive s.last_equity

  abbrev pub IsSoundLegacy : World fs → Type 0
  IsSoundLegacy w = (e : Option (AccountState fs)) → w.legacy ≡ ok e → IsSound e

  coalesce-positive :
      (o : Option F) (x : F)
      → OptPositive o
      → is_positive fs x ≡ true
      → OptPositive (coalesce fs o x)
  coalesce-positive none x h k = k
  coalesce-positive (some y) x h k = h

  raised_peak-positive :
      (o : Option F) (x : F)
      → OptPositive o
      → is_positive fs x ≡ true
      → OptPositive (raised_peak fs o x)
  raised_peak-positive none x h k = k
  raised_peak-positive (some p) x h k = elim (Bool-cases (lt p x)) [
    | inl up ↦ rw up k
    | inr keep ↦ rw keep h
  ]

  observed-IsSound :
      (st e now : F) (s : Option (AccountState fs))
      → IsSound s
      → is_positive fs st ≡ true
      → is_positive fs e ≡ true
      → IsSound (some (observed fs st e now s))
  unfolding observed
  observed-IsSound st e now none h p q = (p, q, q)
  observed-IsSound st e now (some s) h p q =
      (coalesce-positive s.starting_equity st h.0 p, raised_peak-positive s.peak_equity e h.1 q, q)

  halted-IsSound :
      (r : String) (now : F) (s : Option (AccountState fs))
      → IsSound s
      → IsSound (some (halted_state fs r now s))
  unfolding halted_state
  halted-IsSound r now none h = (tt, tt, tt)
  halted-IsSound r now (some s) h = h

  migrated-IsSound :
      (w : World fs) (d : Db fs) (e : Option (AccountState fs))
      → IsSoundLegacy w
      → IsSound d.state
      → Migrates fs w d e
      → IsSound e
  migrated-IsSound w d e l h (inl here) = subst IsSound here h
  migrated-IsSound w d e l h (inr (_, read)) = l e read

  Write-IsSound :
      (w : World fs) (d : Db fs) (b : Bool) (e : Option (AccountState fs)) (d' : Db fs)
      → IsSound e
      → Write fs w e d b d'
      → IsSound d'.state
  unfolding reset_state
  Write-IsSound w d b e _ h adopts = h
  Write-IsSound w d b e _ h (observes st eq p q) = observed-IsSound st eq w.now e h p q
  Write-IsSound w d b e _ h (trips r) = halted-IsSound r w.now e h
  Write-IsSound w d b e _ h (restarts i r st eq _ p q _) = (p, q, q)

  abbrev pub Served : Type 0
  Served = World fs × Call fs

  pub after_all-IsSound :
      (cs : List Served) (d : Db fs)
      → All (λ c. IsSoundLegacy c.0) cs
      → IsSound d.state
      → IsSound (after_all fs cs d).state
  unfolding after_all
  after_all-IsSound [] d l h = h
  after_all-IsSound ((w, c) ∷ cs) d (l, ls) h =
      after_all-IsSound cs (after fs w c d) ls (elim (after-Effect fs w c d) [
        | inl same ↦ subst (λ x. IsSound x.state) (sym same) h
        | inr (e, m, write) ↦
            Write-IsSound w d (is_reset fs c) e (after fs w c d) (migrated-IsSound w d e l h m)
              write
      ])

  -- From one row to a later one of the same period, without a reset between them.
  pub record Later (s s' : AccountState fs) : Type 0 where
    pub versions : s.version ≤ s'.version
    pub halted : s.halted ≡ true → s'.halted ≡ true
    pub reason : s.halted ≡ true → s'.halt_reason ≡ s.halt_reason
    pub breach_at : s.halted ≡ true → s'.last_breach_at ≡ s.last_breach_at
    pub starting : (x : F) → s.starting_equity ≡ some x → s'.starting_equity ≡ some x
    pub peak :
        (x : F) → s.peak_equity ≡ some x → (y : F) × (s'.peak_equity ≡ some y) × (le x y ≡ true)

  pub positive-finite : (x : F) → is_positive fs x ≡ true → finite x ≡ true
  positive-finite x h = ground arith

  peak-kept :
      (o : Option F) (x : F) → OptPositive o → o ≡ some x → (y : F) × (o ≡ some y) × (le x y ≡ true)
  peak-kept none x h k = cc
  peak-kept (some y) x h k =
      let e : y ≡ x = cc in
      (x, k, le_refl x (positive-finite x (subst (λ z. is_positive fs z ≡ true) e h)))

  peak-raised :
      (o : Option F) (v x : F)
      → OptPositive o
      → o ≡ some x
      → (y : F) × (raised_peak fs o v ≡ some y) × (le x y ≡ true)
  peak-raised none v x h k = cc
  peak-raised (some p) v x h k = elim (Bool-cases (lt p v)) [
    | inl up ↦ let e : p ≡ x = cc in (v, rw up refl, le_of_lt x v (subst (λ z. lt z v ≡ true) e up))
    | inr keep ↦ let (y, found, above) = peak-kept (some p) x h k in (y, rw keep found, above)
  ]

  coalesce-kept : (o : Option F) (v x : F) → o ≡ some x → coalesce fs o v ≡ some x
  coalesce-kept none v x h = cc
  coalesce-kept (some y) v x h = h

  pub Later-refl : (s : AccountState fs) → IsSound (some s) → Later s s
  Later-refl s h = record {
    versions = omega arith;
    halted = λ k. k;
    reason = λ k. refl;
    breach_at = λ k. refl;
    starting = λ x k. k;
    peak = λ x k. peak-kept s.peak_equity x h.1 k;
  }

  Later-trans : (s t u : AccountState fs) → Later s t → Later t u → Later s u
  Later-trans s t u a b = record {
    versions = (let p = a.versions in let q = b.versions in omega arith);
    halted = λ k. b.halted (a.halted k);
    reason = λ k. b.reason (a.halted k) ∙ a.reason k;
    breach_at = λ k. b.breach_at (a.halted k) ∙ a.breach_at k;
    starting = λ x k. b.starting x (a.starting x k);
    peak = λ x k.
        let (y, found, above) = a.peak x k in
        let (z, next, higher) = b.peak y found in (z, next, le_trans x y z above higher);
  }

  observed-Later :
      (st e now : F) (s : AccountState fs)
      → IsSound (some s)
      → Later s (observed fs st e now (some s))
  unfolding observed
  observed-Later st e now s h = record {
    versions = omega arith;
    halted = λ k. k;
    reason = λ k. refl;
    breach_at = λ k. refl;
    starting = λ x k. coalesce-kept s.starting_equity st x k;
    peak = λ x k. peak-raised s.peak_equity e x h.1 k;
  }

  halted-Later :
      (r : String) (now : F) (s : AccountState fs)
      → IsSound (some s)
      → Later s (halted_state fs r now (some s))
  unfolding halted_state
  halted-Later r now s h = record {
    versions = omega arith;
    halted = λ k. refl;
    reason = λ k. rw k refl;
    breach_at = λ k. rw k refl;
    starting = λ x k. k;
    peak = λ x k. peak-kept s.peak_equity x h.1 k;
  }

  -- The row of a later database.
  abbrev pub LaterIn : AccountState fs → Db fs → Type 0
  LaterIn s d = (s' : AccountState fs) × (d.state ≡ some s') × IsSound (some s') × Later s s'

  pub migrated-some :
      (w : World fs) (d : Db fs) (e : Option (AccountState fs)) (s : AccountState fs)
      → d.state ≡ some s
      → Migrates fs w d e
      → e ≡ some s
  migrated-some w d e s h (inl here) = sym here ∙ h
  migrated-some w d e s h (inr (empty, _)) = absurd (let no : none ≡ some s = sym empty ∙ h in cc)

  Write-Later :
      (w : World fs) (d : Db fs) (s : AccountState fs) (d' : Db fs)
      → IsSound (some s)
      → Write fs w (some s) d false d'
      → LaterIn s d'
  Write-Later w d s _ h adopts = (s, refl, h, Later-refl s h)
  Write-Later w d s _ h (observes st e p q) = (
    observed fs st e w.now (some s),
    refl,
    observed-IsSound st e w.now (some s) h p q,
    observed-Later st e w.now s h,
  )
  Write-Later w d s _ h (trips r) = (
    halted_state fs r w.now (some s),
    refl,
    halted-IsSound r w.now (some s) h,
    halted-Later r w.now s h,
  )
  Write-Later w d s _ h (restarts i r st e never p q _) = cc

  pub after-LaterIn :
      (w : World fs) (c : Call fs) (d : Db fs) (s : AccountState fs)
      → is_reset fs c ≡ false
      → d.state ≡ some s
      → IsSound (some s)
      → LaterIn s (after fs w c d)
  after-LaterIn w c d s plain here h = elim (after-Effect fs w c d) [
    | inl same ↦ (s, ap (λ x. x.state) same ∙ here, h, Later-refl s h)
    | inr (e, m, write) ↦ Write-Later w d s (after fs w c d) h (
        subst (λ b. Write fs w (some s) d b (after fs w c d)) plain
          (subst (λ x. Write fs w x d (is_reset fs c) (after fs w c d))
            (migrated-some w d e s here m) write))
  ]

  -- From a sound row, until a reset, whatever the processes call: a halt is never taken back, and
  -- keeps the first reason and time of the breach; the starting equity stays once it is set; the
  -- version never falls, and neither does the peak.
  pub after_all-Later :
      (cs : List Served) (d : Db fs) (s : AccountState fs)
      → All (λ c. is_reset fs c.1 ≡ false) cs
      → d.state ≡ some s
      → IsSound (some s)
      → (s' : AccountState fs) × ((after_all fs cs d).state ≡ some s') × Later s s'
  unfolding after_all
  after_all-Later [] d s p here h = (s, here, Later-refl s h)
  after_all-Later ((w, c) ∷ cs) d s (p, ps) here h =
      let (t, there, sound, first) = after-LaterIn w c d s p here h in
      let (u, found, rest) = after_all-Later cs (after fs w c d) t ps there sound in
      (u, found, Later-trans s t u first rest)
