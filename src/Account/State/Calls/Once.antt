-- ===== src/Account/State/Calls/Once.antt =====
-- How often a halt is new to its caller (risk/account_state_store.py).
use trading_snapshot.Base.{
  ℕ, suc, ◌≤◌, Bool, true, false, not, Option, none, some, List, [], ◌∷◌, String, str_eq,
  if◌then◌else◌, All, ◌≡◌, refl, sym, ap, ◌∙◌, subst, ◌⊎◌, inl, inr, arith, Bool-cases,
}
use trading_snapshot.Base.Float.{Floats}
use trading_snapshot.Account.Value.{Error, halt_reason_required, Result, ok, err}
use trading_snapshot.Account.State.{
  AccountState, Db, World, halt, halted_state, was_halted, set_halt,
}
use trading_snapshot.Account.State.Calls.{
  Call, reads, lists, records, halts, resets, after, after_all, is_reset, Migrates,
}
use trading_snapshot.Account.State.Calls.Effect.{transaction-outcome}
use trading_snapshot.Account.State.Calls.History.{
  IsSound, after_all-IsSound, IsSoundLegacy, Served, after-LaterIn, migrated-some,
}

module _ (fs : Floats) where
  open fs use {F}

  -- `newly_halted` of a call that returned.
  abbrev pub says_new : {A : Type 0} → Result (A × Bool) → Bool
  says_new (ok (_, b)) = b
  says_new (err _) = false

  unfoldable pub newly_halted : World fs → Call fs → Db fs → Bool
  unfolding halt
  newly_halted w (halts r) d = says_new (halt fs w r d).0
  newly_halted w _ d = false

  -- How many of the calls are told that they made the halt, and flatten the account.
  unfoldable pub trip_count : List (Served fs) → Db fs → ℕ
  unfolding newly_halted after
  trip_count [] d = 0
  trip_count ((w, c) ∷ cs) d =
      let rest = trip_count cs (after fs w c d) in if newly_halted w c d then suc rest else rest

  pub halt-outcome :
      (w : World fs) (r : String) (d : Db fs)
      → ((x : Error) × ((halt fs w r d).0 ≡ err x))
        ⊎ ((e : Option (AccountState fs)) × Migrates fs w d e
            × (halt fs w r d ≡ (
              ok (halted_state fs r w.now e, not (was_halted fs e)),
              record d { state = some (halted_state fs r w.now e) },
            )))
  unfolding halt
  halt-outcome w r d = elim (Bool-cases (str_eq r "")) [
    | inl empty ↦ inl (halt_reason_required, rw empty refl)
    | inr given ↦ elim (transaction-outcome fs w (set_halt fs w r) d) [
      | inl (x, raised) ↦ inl (x, rw given (ap (λ q. q.0) raised))
      | inr (e, m, ran) ↦ inr (e, m, rw given ran)
    ]
  ]

  -- A row that is halted already is new to nobody.
  halted-newly :
      (w : World fs) (c : Call fs) (d : Db fs) (s : AccountState fs)
      → d.state ≡ some s
      → s.halted ≡ true
      → newly_halted w c d ≡ false
  unfolding newly_halted
  halted-newly w reads d s here h = refl
  halted-newly w lists d s here h = refl
  halted-newly w (records _ _) d s here h = refl
  halted-newly w (resets _ _ _ _ _) d s here h = refl
  halted-newly w (halts r) d s here h = elim (halt-outcome w r d) [
    | inl (x, old) ↦ ap (λ q. says_new q) old
    | inr (e, m, ran) ↦
        ap (λ q. says_new q.0) ran
        ∙ ap (λ x. not (was_halted fs x)) (migrated-some fs w d e s here m)
        ∙ ap not h
  ]

  pub halted_state-halted :
      (r : String) (now : F) (e : Option (AccountState fs))
      → (halted_state fs r now e).halted ≡ true
  unfolding halted_state
  halted_state-halted r now none = refl
  halted_state-halted r now (some s) = refl

  newly-halted :
      (w : World fs) (c : Call fs) (d : Db fs)
      → newly_halted w c d ≡ true
      → (s : AccountState fs) × ((after fs w c d).state ≡ some s) × (s.halted ≡ true)
  unfolding newly_halted after
  newly-halted w reads d h = cc
  newly-halted w lists d h = cc
  newly-halted w (records _ _) d h = cc
  newly-halted w (resets _ _ _ _ _) d h = cc
  newly-halted w (halts r) d h = elim (halt-outcome w r d) [
    | inl (x, old) ↦ absurd (let wrong : true ≡ false = sym h ∙ ap (λ q. says_new q) old in cc)
    | inr (e, m, ran) ↦
        (halted_state fs r w.now e, ap (λ q. q.1.state) ran, halted_state-halted r w.now e)
  ]

  trip_count-halted :
      (cs : List (Served fs)) (d : Db fs) (s : AccountState fs)
      → All (λ c. is_reset fs c.1 ≡ false) cs
      → d.state ≡ some s
      → s.halted ≡ true
      → IsSound fs (some s)
      → trip_count cs d ≡ 0
  unfolding trip_count
  trip_count-halted [] d s p here h v = refl
  trip_count-halted ((w, c) ∷ cs) d s (p, ps) here h v =
      let (t, there, sound, later) = after-LaterIn fs w c d s p here v in
      rw (halted-newly w c d s here h)
        (trip_count-halted cs (after fs w c d) t ps there (later.halted h) sound)

  -- From a sound row, or none, with sound files of the older format, and until a reset: of all the
  -- halts that the processes ask for, at most one is reported as new.
  pub trip_count-le :
      (cs : List (Served fs)) (d : Db fs)
      → All (λ c. is_reset fs c.1 ≡ false) cs
      → All (λ c. IsSoundLegacy fs c.0) cs
      → IsSound fs d.state
      → trip_count cs d ≤ 1
  unfolding trip_count after_all
  trip_count-le [] d p l v = omega arith
  trip_count-le ((w, c) ∷ cs) d (p, ps) (l, ls) v =
      let sound : IsSound fs (after fs w c d).state =
        after_all-IsSound fs ((w, c) ∷ []) d (l, tt) v in
      elim (Bool-cases (newly_halted w c d)) [
        | inr old ↦ rw old (trip_count-le cs (after fs w c d) ps ls sound)
        | inl new ↦
            let (s, there, h) = newly-halted w c d new in
            let none_left =
              trip_count-halted cs (after fs w c d) s ps there h (subst (IsSound fs) there sound) in
            rw new (omega arith)
      ]
