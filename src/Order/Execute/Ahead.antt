-- ===== src/Order/Execute/Ahead.antt =====
-- The journal is written before the order is sent (core/order_executor.py).
use trading_snapshot.Base.{
  ℕ, some, [], String, if◌then◌else◌, ◌≡◌, refl, sym, ap, ◌∙◌, subst, ◌⊎◌, inl, inr,
}
use trading_snapshot.Base.Float.{Floats}
use trading_snapshot.Intent.Status.{Status, submitting, parse_status}
use trading_snapshot.Intent.Row.{OrderIntent}
use trading_snapshot.Intent.Table.{Error, Result, ok, err, operation_failed, Table, select_id}
use trading_snapshot.Intent.Store
use trading_snapshot.Intent.Run.{run-cases}
use trading_snapshot.Intent.Keys.{str_eq_refl}
use trading_snapshot.Intent.Transition.{transition_ok}
use trading_snapshot.Order.Plan.{Order}
use trading_snapshot.Order.Execute.{State, Meets, store, and_then, decide, send, submit}
use trading_snapshot.Order.Execute.Once.{surface-ok}

parses : parse_status "SUBMITTING" ≡ some submitting
unfolding parse_status
parses = refl

module _ (fs : Floats) where
  open fs use {F}

  -- The row of the intent says that it is being submitted.
  abbrev pub IsAnnounced : String → OrderIntent F → Table F → Type 0
  IsAnnounced id j t = (select_id id t ≡ some j) × (j.status ≡ submitting)

  moved-IsAnnounced :
      (id : String) (now : ℕ) (t t' : Table F) (j : OrderIntent F)
      → Store.transition id "SUBMITTING" [] now t ≡ (ok j, t')
      → IsAnnounced id j t'
  moved-IsAnnounced id now t t' j h =
      let moved = transition_ok id "SUBMITTING" [] now t j t' h in
      (
        moved.stored id ∙ ap (λ b. if b then some j else select_id id t) (str_eq_refl id),
        moved.status ∙ target_is moved.target moved.known,
      )
    where
      target_is : (s : Status) → parse_status "SUBMITTING" ≡ some s → s ≡ submitting
      target_is s k = let e = sym k ∙ parses in cc

  decide-IsAnnounced :
      (x : Meets fs) (i : ℕ) (id : String) (s s' : State fs) (j : OrderIntent F)
      → decide fs x i id "SUBMITTING" [] s ≡ (ok j, s')
      → IsAnnounced id j s'.journal
  unfolding store
  decide-IsAnnounced x i id s s' j h =
      let m = Store.transition {R = F} id "SUBMITTING" [] (x.clock i) in
      elim (run-cases x.attempts (x.connection i) m s.journal) [
        | inr failed ↦ absurd (
            let bad : ◌≡◌ {A = Result (OrderIntent F)} (err operation_failed) (ok j) =
              sym (ap (λ q. q.0) failed) ∙ ap (λ q. q.0) h in
            cc)
        | inl ran ↦
            let got : (m s.journal).0 ≡ ok j =
              surface-ok fs (m s.journal).0 j (sym (ap (λ q. q.0) ran) ∙ ap (λ q. q.0) h) in
            subst (λ t. IsAnnounced id j t) (sym (ap (λ q. q.1) ran) ∙ ap (λ q. q.1.journal) h)
              (moved-IsAnnounced id (x.clock i) s.journal (m s.journal).1 j
                (ap (λ r. (r, (m s.journal).1)) got))
      ]

  -- The call either raises with nothing sent, or it sends from a journal that says so.
  abbrev pub IsWrittenAhead :
      Meets fs → OrderIntent F → State fs → Result (OrderIntent F) × State fs → Type 0
  IsWrittenAhead x i s q =
      ((e : Error) × (q.0 ≡ err e) × (q.1.submitted ≡ s.submitted))
      ⊎ ((j : OrderIntent F) × (s' : State fs) × (q ≡ send fs x j s')
          × (s'.submitted ≡ s.submitted)
          × IsAnnounced i.intent_id j s'.journal)

  announced :
      (x : Meets fs) (i : OrderIntent F) (s s' : State fs) (q : Result (OrderIntent F) × State fs)
      → decide fs x 3 i.intent_id "SUBMITTING" [] s' ≡ q
      → q.1.submitted ≡ s.submitted
      → IsWrittenAhead x i s (and_then fs q (λ j. send fs x j))
  announced x i s s' (err e, t) h same = inl (e, refl, same)
  announced x i s s' (ok j, t) h same =
      inr (j, t, refl, same, decide-IsAnnounced x 3 i.intent_id s' t j h)

  requested :
      (x : Meets fs) (i : OrderIntent F) (s : State fs) (q : Result (OrderIntent F) × State fs)
      → q.1.submitted ≡ s.submitted
      → IsWrittenAhead x i s (
          and_then fs q
            (λ _ s'. and_then fs (decide fs x 3 i.intent_id "SUBMITTING" [] s') (λ j. send fs x j)))
  unfolding store
  requested x i s (err e, t) same = inl (e, refl, same)
  requested x i s (ok r, t) same =
      announced x i s t (decide fs x 3 i.intent_id "SUBMITTING" [] t) refl same

  -- Before the broker is called, the journal has the intent as SUBMITTING, under the identifier
  -- that the order is sent for; if the journal cannot be written, the call raises and nothing is
  -- sent.
  pub submit-IsWrittenAhead :
      (x : Meets fs) (i : OrderIntent F) (o : Order fs) (s : State fs)
      → IsWrittenAhead x i s (submit fs x i o s)
  unfolding submit store
  submit-IsWrittenAhead x i o s =
      requested x i s
        (store fs x 2 (Store.set_request i.intent_id o.volume o.sl o.tp x.request (x.clock 2)) s)
        refl
