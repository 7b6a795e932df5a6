-- ===== src/Account/State/Calls/Resets.antt =====
-- `reset_if_new` applies a reset identifier once, for good (risk/account_state_store.py).
use trading_snapshot.Base.{
  Bool, true, false, ◌||◌, Option, none, some, List, [], ◌∷◌, ◌++◌, any, ◌≡◌, refl, sym, ap, ◌∙◌,
  subst, inl, inr, arith, Bool-cases,
}
use trading_snapshot.Base.Float.{Floats}
use trading_snapshot.Intent.BrokerId.{Text, text_eq}
use trading_snapshot.Account.Value.{Error, Result, ok, err, Value, positive_number, reset_text}
use trading_snapshot.Account.State.{
  AccountState, Db, World, committed, reset_if_new, Action, reset_once, repeated, or_equity,
  optional_equity, has_id, in_transaction, migrated, then_write,
}
use trading_snapshot.Account.State.Calls.{
  Call, after, after_all, is_reset, Write, adopts, observes, trips, restarts,
}
use trading_snapshot.Account.State.Calls.Effect.{after-Effect, transaction-outcome}
use trading_snapshot.Account.State.Calls.Once.{says_new}
use trading_snapshot.Account.State.Calls.History.{Served, migrated-some}

module _ (fs : Floats) where
  open fs use {F}

  any-append :
      {A : Type 0} (p : A → Bool) (xs ys : List A) → any p (xs ++ ys) ≡ (any p xs || any p ys)
  any-append p [] ys = refl
  any-append p (x ∷ xs) ys = ground (arith, any-append p xs ys)

  any-left :
      {A : Type 0} (p : A → Bool) (xs ys : List A) → any p xs ≡ true → any p (xs ++ ys) ≡ true
  any-left p xs ys h = ground (arith, any-append p xs ys)

  text_eq_refl : (t : Text) → text_eq t t ≡ true
  text_eq_refl [] = refl
  text_eq_refl (c ∷ t) = ground (arith, text_eq_refl t)

  -- The identifier is in the audit, and the account has a row.
  abbrev Known : Text → Db fs → Type 0
  Known i d =
      (any (has_id fs i) d.reset_audit ≡ true) × ((s : AccountState fs) × (d.state ≡ some s))

  Write-Known :
      (w : World fs) (i : Text) (d : Db fs) (s : AccountState fs) (b : Bool) (d' : Db fs)
      → any (has_id fs i) d.reset_audit ≡ true
      → Write fs w (some s) d b d'
      → Known i d'
  Write-Known w i d s b _ h adopts = (h, (s, refl))
  Write-Known w i d s b _ h (observes st e p q) = (h, (_, refl))
  Write-Known w i d s b _ h (trips r) = (h, (_, refl))
  Write-Known w i d s b _ h (restarts j r st e started p q new) =
      (any-left (has_id fs i) d.reset_audit _ h, (_, refl))

  after-Known :
      (w : World fs) (c : Call fs) (i : Text) (d : Db fs) → Known i d → Known i (after fs w c d)
  after-Known w c i d (h, (s, here)) = elim (after-Effect fs w c d) [
    | inl same ↦ subst (Known i) (sym same) (h, (s, here))
    | inr (e, m, write) ↦ Write-Known w i d s (is_reset fs c) (after fs w c d) h (
        subst (λ x. Write fs w x d (is_reset fs c) (after fs w c d))
          (migrated-some fs w d e s here m) write)
  ]

  after_all-Known :
      (cs : List (Served fs)) (i : Text) (d : Db fs) → Known i d → Known i (after_all fs cs d)
  unfolding after_all
  after_all-Known [] i d k = k
  after_all-Known ((w, c) ∷ cs) i d k =
      after_all-Known cs i (after fs w c d) (after-Known w c i d k)

  then_write-elim :
      {A B : Type 0} (P : Result B × Db fs → Type 0) (r : Result A) (k : A → Action fs B)
      (d : Db fs)
      → ((x : Error) → P (err x, d))
      → ((a : A) → r ≡ ok a → P (k a d))
      → P (then_write fs r k d)
  then_write-elim P (ok a) k d h f = f a refl
  then_write-elim P (err x) k d h f = h x

  -- What holds of a failure, and of the transaction on any checked arguments, holds of the call.
  reset-elim :
      (P : Result (AccountState fs × Bool) × Db fs → Type 0) (w : World fs) (id reason : Text)
      (v : Value fs) (c b : Option (Value fs)) (d : Db fs)
      → ((x : Error) → P (err x, d))
      → ((i r : Text) (starting e : F)
          → reset_text false 128 id ≡ ok i
          → P (in_transaction fs w (migrated fs w (reset_once fs w i r starting e)) d))
      → P (reset_if_new fs w id reason v c b d)
  unfolding reset_if_new
  reset-elim P w id reason v c b d h f = then_write-elim P (reset_text false 128 id) _ d h (λ i hi.
      then_write-elim P (reset_text true 512 reason) _ d h (λ r hr.
        then_write-elim P (positive_number fs "current_equity" v) _ d h (λ e he.
          then_write-elim P (optional_equity fs "configured_starting_equity" c) _ d h (λ s hs.
            then_write-elim P (optional_equity fs "broker_balance" b) _ d h
              (λ a ha. f i r (or_equity fs s (or_equity fs a e)) e hi)))))

  abbrev Applied : Text → Result (AccountState fs × Bool) × Db fs → Type 0
  Applied id q =
      says_new fs q.0 ≡ true → (i : Text) × (reset_text false 128 id ≡ ok i) × Known i q.1

  once-Applied :
      (w : World fs) (id i r : Text) (starting e : F) (d : Db fs) (s : Option (AccountState fs))
      → reset_text false 128 id ≡ ok i
      → Applied id (committed fs d (reset_once fs w i r starting e s (record d { state = s })))
  once-Applied w id i r starting e d s hi = elim (Bool-cases (any (has_id fs i) d.reset_audit)) [
    | inr fresh ↦ rw fresh (λ _. (
      i,
      hi,
      (
        any-append (has_id fs i) d.reset_audit _
            ∙ ap (λ x. any (has_id fs i) d.reset_audit || (x || false)) (text_eq_refl i)
            ∙ or_true (any (has_id fs i) d.reset_audit),
        (_, refl),
      ),
    ))
    | inl known ↦ rw known (again s)
  ]
    where
      or_true : (x : Bool) → (x || (true || false)) ≡ true
      or_true x = ground arith

      again :
          (s : Option (AccountState fs))
          → Applied id (committed fs d (repeated fs w s (record d { state = s })))
      again none h = cc
      again (some s) h = cc

  reset-Applied :
      (w : World fs) (id reason : Text) (v : Value fs) (c b : Option (Value fs)) (d : Db fs)
      → Applied id (reset_if_new fs w id reason v c b d)
  reset-Applied w id reason v c b d =
      reset-elim (Applied id) w id reason v c b d (λ x h. cc)
        (λ i r starting e hi. elim (transaction-outcome fs w (reset_once fs w i r starting e) d) [
          | inl (x, raised) ↦ subst (Applied id) (sym raised) (λ h. cc)
          | inr (s, m, ran) ↦ subst (Applied id) (sym ran) (once-Applied w id i r starting e d s hi)
        ])

  abbrev Ignored : Db fs → Result (AccountState fs × Bool) × Db fs → Type 0
  Ignored d q = (says_new fs q.0 ≡ false) × (q.1 ≡ d)

  -- A second reset with a recorded identifier.
  Known-Ignored :
      (w : World fs) (id reason i : Text) (v : Value fs) (c b : Option (Value fs)) (d : Db fs)
      → reset_text false 128 id ≡ ok i
      → Known i d
      → Ignored d (reset_if_new fs w id reason v c b d)
  Known-Ignored w id reason i v c b d hi (h, (s, here)) =
      reset-elim (Ignored d) w id reason v c b d (λ x. (refl, refl))
        (λ j r starting e hj. elim (transaction-outcome fs w (reset_once fs w j r starting e) d) [
          | inl (x, raised) ↦ subst (Ignored d) (sym raised) (refl, refl)
          | inr (t, m, ran) ↦
              let same : i ≡ j = (let e = sym hi ∙ hj in cc) in
              subst (Ignored d) (sym ran) (
                subst
                  (λ x.
                    Ignored d
                      (committed fs d (reset_once fs w j r starting e x (record d { state = x }))))
                  (sym (migrated-some fs w d t s here m))
                  (rw (subst (λ x. any (has_id fs x) d.reset_audit ≡ true) same h)
                    (refl, ap (λ x. record d { state = x }) (sym here))))
        ])

  -- Once a reset with an identifier was applied, then whatever the processes call next, a reset
  -- with that identifier changes nothing and does not report a reset.
  pub reset_if_new-once :
      (w w' : World fs) (id reason reason' : Text) (v v' : Value fs) (c b c' b' : Option (Value fs))
      (d : Db fs) (cs : List (Served fs))
      → says_new fs (reset_if_new fs w id reason v c b d).0 ≡ true
      → let d' = after_all fs cs (reset_if_new fs w id reason v c b d).1 in
        (says_new fs (reset_if_new fs w' id reason' v' c' b' d').0 ≡ false)
        × ((reset_if_new fs w' id reason' v' c' b' d').1 ≡ d')
  reset_if_new-once w w' id reason reason' v v' c b c' b' d cs h =
      let (i, hi, known) = reset-Applied w id reason v c b d h in
      Known-Ignored w' id reason' i v' c' b'
        (after_all fs cs (reset_if_new fs w id reason v c b d).1) hi
        (after_all-Known cs i (reset_if_new fs w id reason v c b d).1 known)
