-- ===== src/Intent/Claims.antt =====
-- Exclusiveness of `claim_signal` and the unique row of `get_or_create`
-- (core/order_intent_store.py).
pub mod Exclusive
use trading_snapshot.Base.{
  ℕ, ◌+◌, ◌≤◌, String, Bool, true, false, ◌&&◌, ◌||◌, Option, none, some, List, [], ◌∷◌, ◌++◌,
  str_eq, str_eq_iff, ◌≡◌, refl, sym, ◌∙◌, ap, subst, arith, Bool-cases, inl, inr, Option-cases,
  any, filter, find?, All, length, length-append, if◌then◌else◌,
}
use trading_snapshot.Intent.Status.{created, is_active}
use trading_snapshot.Intent.Row.{OrderIntent, SignalKey, new_intent, same_signal, key_of, conflicts}
use trading_snapshot.Intent.Table.{
  Table, Action, Result, ok, err, Error, integrity, pure, raise, ◌>>=◌, ◌>>◌, rolled_back,
  transaction, select_id, select_signal, select_active, active_for, earliest, insert_row,
  insert_or_ignore,
}
use trading_snapshot.Intent.Store.{
  refetch, get_or_create_body, get_or_create, claimed_row, claim_body, claim_signal,
}
use trading_snapshot.Intent.Keys.{
  conflicts_ids, str_eq_refl, str_eq_comm, HasNoConflict, HasNoConflict-any,
}
use trading_snapshot.Intent.Select.{find?-some, find?-append, find?-append_none, active_none}

module _ {R : Type 0} where
  -- The row that a claim writes.
  row : String → SignalKey → String → String → ℕ → OrderIntent R
  row id key symbol side now = new_intent id key symbol side now

  select_id-fresh :
      (r : OrderIntent R) (t : Table R) → HasNoConflict r t → select_id r.intent_id t ≡ none
  unfolding select_id
  select_id-fresh r [] h = refl
  select_id-fresh r (x ∷ t) h =
      rw (str_eq_comm x.intent_id r.intent_id ∙ conflicts_ids r x h.0) (select_id-fresh r t h.1)

  pub select_id-snoc :
      (r : OrderIntent R) (t : Table R)
      → any (conflicts r) t ≡ false
      → select_id r.intent_id (t ++ r ∷ []) ≡ some r
  unfolding select_id
  select_id-snoc r t h =
      find?-append_none (λ x. str_eq x.intent_id r.intent_id) t (r ∷ [])
        (unfold select_id in select_id-fresh r t (HasNoConflict-any r t h))
      ∙ rw (str_eq_refl r.intent_id) refl

  insert_row_hit :
      (r : OrderIntent R) (t : Table R)
      → any (conflicts r) t ≡ true
      → insert_row r t ≡ (err integrity, t)
  unfolding insert_row
  insert_row_hit r t h = rw h refl

  insert_row_free :
      (r : OrderIntent R) (t : Table R)
      → any (conflicts r) t ≡ false
      → insert_row r t ≡ (ok tt, t ++ r ∷ [])
  unfolding insert_row
  insert_row_free r t h = rw h refl

  claimed_row_found :
      (id : String) (t : Table R) (r : OrderIntent R)
      → select_id id t ≡ some r
      → claimed_row id t ≡ (ok (r, true), t)
  claimed_row_found id t r h = ground arith

  -- How `claim_signal` ends after its INSERT.
  abbrev ending :
      String → Table R → Result (Unit {0}) × Table R → Result (OrderIntent R × Bool) × Table R
  ending id t u = rolled_back t (((λ _. u) >> claimed_row id) t)

  module _ (id : String) (key : SignalKey) (symbol side : String) (now : ℕ) (t : Table R)
      (fresh : select_signal key t ≡ none)
      (idle : select_active key.account_id key.strategy_id t ≡ none) where
    claim_inserts :
        claim_signal id key symbol side now t
        ≡ ending id t (insert_row (new_intent id key symbol side now) t)
    unfolding claim_signal transaction claim_body
    claim_inserts = rw (fresh, claim_body) (rw idle refl)

    -- The uuid or its client reference is taken: the claim raises and writes nothing.
    pub claim_hit :
        any (conflicts (new_intent {R = R} id key symbol side now)) t ≡ true
        → claim_signal id key symbol side now t ≡ (err integrity, t)
    claim_hit h =
        claim_inserts ∙ ap (ending id t) (insert_row_hit (new_intent id key symbol side now) t h)

    pub claim_free :
        any (conflicts (new_intent {R = R} id key symbol side now)) t ≡ false
        → claim_signal id key symbol side now t ≡ (
          ok (new_intent id key symbol side now, true),
          t ++ new_intent id key symbol side now ∷ [],
        )
    claim_free h =
        let r : OrderIntent R = new_intent id key symbol side now in
        let named : r.intent_id ≡ id = unfold new_intent in refl in
        let read : select_id id (t ++ r ∷ []) ≡ some r =
          subst (λ i. select_id i (t ++ r ∷ []) ≡ some r) named (select_id-snoc r t h) in
        claim_inserts
        ∙ ap (ending id t) (insert_row_free r t h)
        ∙ ap (rolled_back t) (claimed_row_found id (t ++ r ∷ []) r read)

module _ {R : Type 0} where
  lost :
      (x r : OrderIntent R) (t t' : Table R)
      → ◌≡◌ {A = Result (OrderIntent R × Bool) × Table R} (ok (x, false), t) (ok (r, true), t')
      → ⊥
  lost x r t t' e = ground arith

  raised :
      (r : OrderIntent R) (t t' : Table R)
      → ◌≡◌ {A = Result (OrderIntent R × Bool) × Table R} (err integrity, t) (ok (r, true), t')
      → ⊥
  raised r t t' e = ground arith

  written :
      (x r : OrderIntent R) (t t' : Table R)
      → ◌≡◌ {A = Result (OrderIntent R × Bool) × Table R} (ok (x, true), t) (ok (r, true), t')
      → (r ≡ x) × (t' ≡ t)
  written x r t t' e = (cc, cc)

module _ {R : Type 0} (id : String) (key : SignalKey) (symbol side : String) (now : ℕ)
    (t : Table R) where
  -- A row of the same signal wins.
  pub claim_found :
      (r : OrderIntent R)
      → select_signal key t ≡ some r
      → claim_signal id key symbol side now t ≡ (ok (r, false), t)
  unfolding claim_signal transaction claim_body
  claim_found r h = rw (h, claim_body) refl

  -- So does an unresolved row of the strategy.
  pub claim_busy :
      (r : OrderIntent R)
      → select_signal key t ≡ none
      → select_active key.account_id key.strategy_id t ≡ some r
      → claim_signal id key symbol side now t ≡ (ok (r, false), t)
  unfolding claim_signal transaction claim_body
  claim_busy r fresh h = rw (fresh, claim_body) (rw h refl)

  -- `Won r t'`: what a claim that returned `(r, True)` found and wrote.
  pub record Won (r : OrderIntent R) (t' : Table R) : Type 0 where
    pub fresh : select_signal key t ≡ none
    pub idle : select_active key.account_id key.strategy_id t ≡ none
    pub free : any (conflicts (new_intent {R = R} id key symbol side now)) t ≡ false
    pub row : r ≡ new_intent id key symbol side now
    pub table : t' ≡ t ++ new_intent id key symbol side now ∷ []

  pub claim-Won :
      (r : OrderIntent R) (t' : Table R)
      → claim_signal id key symbol side now t ≡ (ok (r, true), t')
      → Won r t'
  claim-Won r t' h = elim (Option-cases (select_signal key t)) [
    | inr (x, found) ↦ (let e = sym (claim_found x found) ∙ h in absurd (lost x r t t' e))
    | inl fresh ↦ elim (Option-cases (select_active key.account_id key.strategy_id t)) [
      | inr (x, found) ↦ (let e = sym (claim_busy x fresh found) ∙ h in absurd (lost x r t t' e))
      | inl idle ↦
          elim (Bool-cases (any (conflicts (new_intent {R = R} id key symbol side now)) t)) [
            | inl hit ↦
                (let e = sym (claim_hit id key symbol side now t fresh idle hit) ∙ h in
                  absurd (raised r t t' e))
            | inr free ↦
                (let e = sym (claim_free id key symbol side now t fresh idle free) ∙ h in
                  let (row, table) =
                    written (new_intent id key symbol side now) r
                      (t ++ new_intent id key symbol side now ∷ []) t' e in
                  record { fresh = fresh; idle = idle; free = free; row = row; table = table })
          ]
    ]
  ]
