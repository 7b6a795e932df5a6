-- ===== src/Order/Execute/History.antt =====
-- The calls of all the bots of an account that share one journal (core/order_executor.py), one
-- after another.
use trading_snapshot.Base.{
  Bool, true, none, some, List, [], ◌∷◌, String, str_eq, ◌≡◌, ◌≢◌, refl, sym, subst, inl, inr,
  arith, Bool-cases, All, find?,
}
use trading_snapshot.Base.Float.{Floats}
use trading_snapshot.Intent.Row.{OrderIntent, SignalKey, key_of, same_signal}
use trading_snapshot.Intent.Table.{Table, select_id, select_signal}
use trading_snapshot.Intent.Keys.{str_eq_refl}
use trading_snapshot.Order.Plan.{Signal}
use trading_snapshot.Order.Execute.{Submission, State, Meets, execute_signal}
use trading_snapshot.Order.Execute.Quiet.{Held, Grows}
use trading_snapshot.Order.Execute.Once.{IsCareful, execute_signal-IsCareful}

module _ (fs : Floats) where
  open fs use {F}

  abbrev pub Asked : Type 0
  Asked = Meets fs × Signal fs

  unfoldable pub executed : List Asked → State fs → State fs
  unfolding execute_signal
  executed [] s = s
  executed ((x, g) ∷ cs) s = executed cs (execute_signal fs x g s).1

  -- No key is submitted twice.
  abbrev pub IsDistinct : List Submission → Type 0
  IsDistinct [] = Unit
  IsDistinct (o ∷ os) = All (λ p. p.key ≢ o.key) os × IsDistinct os

  -- Every order that was sent has an intent in the journal, under its key.
  abbrev AllHeld : Table F → List Submission → Type 0
  AllHeld t os = All (λ o. (id : String) × Held fs o.key id t) os

  found-some :
      {A : Type 0} (p q : A → Bool) (xs : List A) (a : A)
      → find? p xs ≡ some a
      → q a ≡ true
      → find? q xs ≢ none
  found-some p q [] a h k e = cc
  found-some p q (x ∷ xs) a h k e = elim (Bool-cases (p x)) [
    | inl hit ↦
        (let one : some x ≡ some a = (rw hit at h) in
          let here : q x ≡ true = subst (λ z. q z ≡ true) (let s : a ≡ x = cc in s) k in
          ground (arith, here, e))
    | inr miss ↦ elim (Bool-cases (q x)) [
      | inl hit ↦ (let bad : some x ≡ none = (rw hit at e) in cc)
      | inr none_here ↦ found-some p q xs a (rw miss at h) k (rw none_here at e)
    ]
  ]

  same_signal-key : (r : OrderIntent F) → same_signal r (key_of r) ≡ true
  unfolding same_signal
  same_signal-key r =
      rw (str_eq_refl r.account_id, str_eq_refl r.strategy_id, str_eq_refl r.signal_id) refl

  Held-some :
      (key : SignalKey) (id : String) (t : Table F) → Held fs key id t → select_signal key t ≢ none
  unfolding select_signal select_id
  Held-some key id t (r, found, named) =
      found-some (λ x. str_eq x.intent_id id) (λ x. same_signal x key) t r found
        (subst (λ k. same_signal r k ≡ true) named (same_signal-key r))

  grown : (t t' : Table F) (os : List Submission) → Grows fs t t' → AllHeld t os → AllHeld t' os
  grown t t' [] g h = tt
  grown t t' (o ∷ os) g ((id, held), hs) = ((id, g o.key id held), grown t t' os g hs)

  other-keys :
      (key : SignalKey) (t : Table F) (os : List Submission)
      → select_signal key t ≡ none
      → AllHeld t os
      → All (λ p. p.key ≢ key) os
  other-keys key t [] fresh h = tt
  other-keys key t (o ∷ os) fresh ((id, held), hs) = (
    (λ e. Held-some o.key id t held (subst (λ k. select_signal k t ≡ none) (sym e) fresh)),
    other-keys key t os fresh hs,
  )

  abbrev IsOrderly : State fs → Type 0
  IsOrderly s = IsDistinct s.submitted × AllHeld s.journal s.submitted

  careful-IsOrderly :
      (x : Meets fs) (s s' : State fs) → IsCareful fs x s s' → IsOrderly s → IsOrderly s'
  careful-IsOrderly x s s' (inl same, g) (d, h) = (
    subst IsDistinct (sym same) d,
    subst (AllHeld s'.journal) (sym same) (grown s.journal s'.journal s.submitted g h),
  )
  careful-IsOrderly x s s' (inr (o, one, mine, fresh, held), g) (d, h) = (
    subst IsDistinct (sym one) (
      subst (λ k. All (λ p. p.key ≢ k) s.submitted) (sym mine)
          (other-keys x.key s.journal s.submitted fresh h),
      d,
    ),
    subst (AllHeld s'.journal) (sym one) (
      (x.intent_id, subst (λ k. Held fs k x.intent_id s'.journal) (sym mine) held),
      grown s.journal s'.journal s.submitted g h,
    ),
  )

  -- However many calls are made, by however many bots, one after another, and whatever the
  -- database and the broker answer, the broker is sent at most one order for each signal of a
  -- strategy on an account. This holds from any state where the orders sent so far have distinct
  -- keys and their intents are in the journal.
  pub executed-IsDistinct :
      (cs : List Asked) (s : State fs)
      → IsDistinct s.submitted
      → All (λ o. (id : String) × Held fs o.key id s.journal) s.submitted
      → IsDistinct (executed cs s).submitted
  unfolding executed
  executed-IsDistinct [] s d h = d
  executed-IsDistinct ((x, g) ∷ cs) s d h =
      let (d', h') =
        careful-IsOrderly x s (execute_signal fs x g s).1 (execute_signal-IsCareful fs x g s)
          (d, h) in
      executed-IsDistinct cs (execute_signal fs x g s).1 d' h'
