-- ===== src/Intent/Calls/Ops.antt =====
-- The effect of each operation of the journal on the table (core/order_intent_store.py).
use trading_snapshot.Base.{
  ℕ, String, ◌||◌, Option, List, [], ◌∷◌, any, ◌≡◌, refl, arith, Bool-cases, inl, inr, Option-cases,
}
use trading_snapshot.Intent.Status.{Status, same_status, may_move, parse_status}
use trading_snapshot.Intent.Status.Paths.{allowed}
use trading_snapshot.Intent.Row.{OrderIntent, SignalKey, Value, conflicts, new_intent}
use trading_snapshot.Intent.Table.{
  Table, Result, ok, err, rolled_back, ◌>>◌, transaction, select_id, select_signal, select_active,
  insert_row, insert_or_ignore, update_row,
}
use trading_snapshot.Intent.Store.{
  assign_all, moved, refetch, claimed_row, move, transition, set_request, get_or_create_body,
  get_or_create, claim_body, claim_signal,
}
use trading_snapshot.Intent.Keys.{HasNoConflict-any}
use trading_snapshot.Intent.Calls.Effect.{
  assign_all-keeps, moved-keeps, Effect, same, add, update_row-Effect, allowed_refl,
}

module _ {R : Type 0} where
  rolled_back-Effect :
      {A : Type 0} (t : Table R) (r : Result A × Table R)
      → Effect t r.1
      → Effect t (rolled_back t r).1
  rolled_back-Effect t (ok a, t') h = h
  rolled_back-Effect t (err e, t') h = same

  -- Reading the written row back leaves the table alone.
  refetch-table : (id : String) (t : Table R) → (refetch id t).1 ≡ t
  refetch-table id t = ground arith

  update_refetch-Effect :
      (id : String) (t : Table R) (new : OrderIntent R)
      → Effect t (update_row id new t).1
      → Effect t ((update_row id new >> refetch id) t).1
  update_refetch-Effect id t new h = read (update_row id new t) h
    where
      read :
          (u : Result (Unit {0}) × Table R) → Effect t u.1 → Effect t (((λ _. u) >> refetch id) t).1
      read (ok _, t') h = rw (refetch-table id t') h
      read (err e, t') h = h

  move-Effect :
      (id : String) (s : Status) (vs : List (Value R)) (now : ℕ) (t : Table R)
      → Effect t (move id s vs now t).1
  unfolding move
  move-Effect id s vs now t = elim (Option-cases (select_id id t)) [
    | inl absent ↦ rw (absent, move) same
    | inr (r, found) ↦
        rw (found, move)
          (elim (Bool-cases (same_status r.status s || may_move r.status s)) [
            | inl listed ↦
                let (kept, status) = moved-keeps r s vs now in
                rw listed (
                  update_refetch-Effect id t (moved r s vs now) (
                    update_row-Effect id t r (moved r s vs now) found kept
                      (unfold allowed in rw status listed)))
            | inr refused ↦ rw refused same
          ])
  ]

  pub transition-Effect :
      (id status : String) (vs : List (Value R)) (now : ℕ) (t : Table R)
      → Effect t (transition id status vs now t).1
  unfolding transition transaction
  transition-Effect id status vs now t = elim (Option-cases (parse_status status)) [
    | inl absent ↦ rw (absent, transition) same
    | inr (s, known) ↦
        rw (known, transition)
          (rolled_back-Effect t (move id s vs now t) (move-Effect id s vs now t))
  ]

  pub set_request-Effect :
      (id : String) (volume sl tp : R) (request : Option String) (now : ℕ) (t : Table R)
      → Effect t (set_request id volume sl tp request now t).1
  unfolding set_request
  set_request-Effect id volume sl tp request now t = elim (Option-cases (select_id id t)) [
    | inl absent ↦ rw (absent, set_request) same
    | inr (r, found) ↦
        let vs : List (Value R) =
          Value.requested_volume volume
          ∷ Value.requested_sl sl
          ∷ Value.requested_tp tp
          ∷ Value.request request
          ∷ [] in
        let (kept, status) = assign_all-keeps (record r { updated_at = now }) vs in
        rw (found, set_request)
          (update_refetch-Effect id t (assign_all (record r { updated_at = now }) vs) (
            update_row-Effect id t r (assign_all (record r { updated_at = now }) vs) found
              (record {
                intent_id = kept.intent_id;
                key = kept.key;
                client_reference = kept.client_reference;
                created_at = kept.created_at;
                accepted_at = kept.accepted_at;
                filled_at = kept.filled_at;
              })
              (rw status (allowed_refl r.status))))
  ]

  insert_or_ignore-Effect : (r : OrderIntent R) (t : Table R) → Effect t (insert_or_ignore r t).1
  unfolding insert_or_ignore
  insert_or_ignore-Effect r t = elim (Bool-cases (any (conflicts r) t)) [
    | inl hit ↦ rw hit same
    | inr free ↦ rw free (add r (HasNoConflict-any r t free))
  ]

  insert_row-Effect : (r : OrderIntent R) (t : Table R) → Effect t (insert_row r t).1
  unfolding insert_row
  insert_row-Effect r t = elim (Bool-cases (any (conflicts r) t)) [
    | inl hit ↦ rw hit same
    | inr free ↦ rw free (add r (HasNoConflict-any r t free))
  ]

  -- After the INSERT both bodies only read.
  get_or_create_body-table :
      (id : String) (key : SignalKey) (symbol side : String) (now : ℕ) (t : Table R)
      → (get_or_create_body id key symbol side now t).1
        ≡ (insert_or_ignore (new_intent id key symbol side now) t).1
  unfolding get_or_create_body insert_or_ignore
  get_or_create_body-table id key symbol side now t = ground arith

  pub get_or_create-Effect :
      (id : String) (key : SignalKey) (symbol side : String) (now : ℕ) (t : Table R)
      → Effect t (get_or_create id key symbol side now t).1
  unfolding get_or_create transaction
  get_or_create-Effect id key symbol side now t =
      rolled_back-Effect t (get_or_create_body id key symbol side now t) (
        rw get_or_create_body-table (insert_or_ignore-Effect (new_intent id key symbol side now) t))

  claimed_row-table : (id : String) (t : Table R) → (claimed_row id t).1 ≡ t
  claimed_row-table id t = ground arith

  claim_insert-table :
      (id : String) (r : OrderIntent R) (t : Table R)
      → ((insert_row r >> claimed_row id) t).1 ≡ (insert_row r t).1
  claim_insert-table id r t = read (insert_row r t)
    where
      read : (u : Result (Unit {0}) × Table R) → (((λ _. u) >> claimed_row id) t).1 ≡ u.1
      read (ok _, t') = claimed_row-table id t'
      read (err e, t') = refl

  claim_body-Effect :
      (id : String) (key : SignalKey) (symbol side : String) (now : ℕ) (t : Table R)
      → Effect t (claim_body id key symbol side now t).1
  unfolding claim_body
  claim_body-Effect id key symbol side now t = elim (Option-cases (select_signal key t)) [
    | inr (r, found) ↦ rw (found, claim_body) same
    | inl fresh ↦
        rw (fresh, claim_body)
          (elim (Option-cases (select_active key.account_id key.strategy_id t)) [
            | inr (r, found) ↦ rw found same
            | inl idle ↦
                rw idle
                  (rw claim_insert-table (insert_row-Effect (new_intent id key symbol side now) t))
          ])
  ]

  pub claim_signal-Effect :
      (id : String) (key : SignalKey) (symbol side : String) (now : ℕ) (t : Table R)
      → Effect t (claim_signal id key symbol side now t).1
  unfolding claim_signal transaction
  claim_signal-Effect id key symbol side now t =
      rolled_back-Effect t (claim_body id key symbol side now t)
        (claim_body-Effect id key symbol side now t)
