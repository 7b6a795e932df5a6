-- ===== src/Intent/Calls/History.antt =====
-- Invariants of every history of calls of the journal (core/order_intent_store.py).
use trading_snapshot.Base.{
  ℕ, String, true, some, List, [], ◌∷◌, str_eq, str_eq_iff, ◌≡◌, sym, ◌∙◌, ap, subst, Bool-cases,
  inl, inr, ◌≤◌,
}
use trading_snapshot.Intent.Status.Paths.{Moves, here, next, Moves-trans, phase, phase-le-Moves}
use trading_snapshot.Intent.Row.{OrderIntent, key_of}
use trading_snapshot.Intent.Table.{Table, Action, select_id, replace}
use trading_snapshot.Intent.Select.{
  find?-some, find?-append, select_id-replace_self, select_id-replace_ne,
}
use trading_snapshot.Intent.Run.{Connection, run, run-table}
use trading_snapshot.Intent.Store.{get_or_create, claim_signal, transition, set_request}
use trading_snapshot.Intent.Calls.{Call, Served, after, after_all}
use trading_snapshot.Intent.Calls.Effect.{
  SameIdentity, SameIdentity-trans, SameIdentity-refl, Effect, same, add, change,
}
use trading_snapshot.Intent.Calls.Ops.{
  get_or_create-Effect, claim_signal-Effect, transition-Effect, set_request-Effect,
}

module _ {R : Type 0} where
  run-Effect :
      {A : Type 0} (attempts : ℕ) (env : ℕ → Connection) (m : Action R A) (t : Table R)
      → Effect t (m t).1
      → Effect t (run attempts env m t).1
  run-Effect attempts env m t e = elim (run-table attempts env m t) [
    | inl once ↦ rw once e
    | inr never ↦ rw never same
  ]

  after-Effect :
      (attempts : ℕ) (env : ℕ → Connection) (c : Call R) (t : Table R)
      → Effect t (after attempts env c t)
  unfolding after
  after-Effect n env (Call.get_or_create id key symbol side now) t =
      run-Effect n env (get_or_create id key symbol side now) t
        (get_or_create-Effect id key symbol side now t)
  after-Effect n env (Call.claim_signal id key symbol side now) t =
      run-Effect n env (claim_signal id key symbol side now) t
        (claim_signal-Effect id key symbol side now t)
  after-Effect n env (Call.transition id status values now) t =
      run-Effect n env (transition id status values now) t
        (transition-Effect id status values now t)
  after-Effect n env (Call.set_request id volume sl tp request now) t =
      run-Effect n env (set_request id volume sl tp request now) t
        (set_request-Effect id volume sl tp request now t)

  -- `Continues r r'`: the later row of the same intent.
  pub record Continues (r r' : OrderIntent R) : Type 0 where
    pub identity : SameIdentity r' r
    pub moves : Moves r.status r'.status

  abbrev pub Later : String → OrderIntent R → Table R → Type 0
  Later id r t = (r' : OrderIntent R) × (select_id id t ≡ some r') × Continues r r'

  Continues-refl : (r : OrderIntent R) → Continues r r
  Continues-refl r = record { identity = SameIdentity-refl r; moves = here }

  Continues-trans : (a b c : OrderIntent R) → Continues a b → Continues b c → Continues a c
  Continues-trans a b c p q = record {
    identity = SameIdentity-trans c b a q.identity p.identity;
    moves = Moves-trans p.moves q.moves;
  }

  Effect-Later :
      (id : String) (r : OrderIntent R) {t t' : Table R}
      → Effect t t'
      → select_id id t ≡ some r
      → Later id r t'
  Effect-Later id r same found = (r, found, Continues-refl r)
  Effect-Later id r {t} (add new free) found = (
    r,
    unfold select_id in
        find?-append (λ x. str_eq x.intent_id id) t (new ∷ []) r (unfold select_id in found),
    Continues-refl r,
  )
  Effect-Later id r {t} (change j old new present kept listed free) found =
      let named : str_eq new.intent_id j ≡ true =
        rw (kept.intent_id)
          (find?-some (λ x. str_eq x.intent_id j) t old (unfold select_id in present)) in
      elim (Bool-cases (str_eq j id)) [
        | inl hit ↦
            let e : j ≡ id = (str_eq_iff j id).0 hit in
            let one : some old ≡ some r = sym present ∙ ap (λ i. select_id i t) e ∙ found in
            let moved : Continues old new = record { identity = kept; moves = next here listed } in
            (
              new,
              subst (λ i. select_id i (replace j new t) ≡ some new) e
                  (select_id-replace_self j new t named present),
              subst (λ x. Continues x new) (let f : old ≡ r = cc in f) moved,
            )
        | inr miss ↦ (r, select_id-replace_ne j id new t named miss ∙ found, Continues-refl r)
      ]

  -- Whatever is called, an intent that is in the journal stays there, under the same key and
  -- client reference, and its status moves only along `_TRANSITIONS`.
  pub after_all-Later :
      (attempts : ℕ) (cs : List (Served R)) (t : Table R) (id : String) (r : OrderIntent R)
      → select_id id t ≡ some r
      → Later id r (after_all attempts cs t)
  unfolding after_all
  after_all-Later n [] t id r found = (r, found, Continues-refl r)
  after_all-Later n (c ∷ cs) t id r found =
      let (r', found', step) = Effect-Later id r (after-Effect n c.env c.call t) found in
      let (r'', found'', rest) = after_all-Later n cs (after n c.env c.call t) id r' found' in
      (r'', found'', Continues-trans r r' r'' step rest)

  -- After any history of calls, with any failures of the database, an intent that is in the
  -- journal is still there under its key and client reference, and in no earlier phase of its
  -- life: what was submitted is never again CREATED or CANCELLED, and what was accepted, or is
  -- uncertain, is never again SUBMITTING or REJECTED.
  pub after_all-phase :
      (attempts : ℕ) (cs : List (Served R)) (t : Table R) (id : String) (r : OrderIntent R)
      → select_id id t ≡ some r
      → (r' : OrderIntent R) × (select_id id (after_all attempts cs t) ≡ some r')
        × (key_of r' ≡ key_of r)
        × (r'.client_reference ≡ r.client_reference)
        × (phase r.status ≤ phase r'.status)
  after_all-phase n cs t id r found =
      let (r', found', step) = after_all-Later n cs t id r found in
      (r', found', step.identity.key, step.identity.client_reference, phase-le-Moves step.moves)
