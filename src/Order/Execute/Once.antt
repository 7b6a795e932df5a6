-- ===== src/Order/Execute/Once.antt =====
-- A signal is submitted at most once, whatever fails and whoever calls (core/order_executor.py).
use trading_snapshot.Base.{
  ℕ, Bool, true, false, none, some, [], ◌∷◌, ◌++◌, String, if◌then◌else◌, ◌≡◌, refl, sym, ap, ◌∙◌,
  subst, ◌⊎◌, inl, inr,
}
use trading_snapshot.Base.Float.{Floats}
use trading_snapshot.Intent.Row.{OrderIntent, SignalKey, key_of, new_intent}
use trading_snapshot.Intent.Table.{
  operation_failed, integrity, no_row, intent_not_found, unknown_status, not_allowed, Result, ok,
  err, Table, select_id, select_signal,
}
use trading_snapshot.Intent.Store
use trading_snapshot.Intent.Run.{run-cases, surface}
use trading_snapshot.Intent.Calls.{Call, after, after_all}
use trading_snapshot.Intent.Claims.{claim-Won, select_id-snoc}
use trading_snapshot.Order.Plan.{Signal, Order, Plan, cancels, rejects, submits, plan_order}
use trading_snapshot.Order.Execute.{
  Submission, State, Meets, Exec, store, and_then, decide, because, reconcile_one, send, submit,
  follow, pursue, caught, returned, claimed_answer, execute_signal,
}
use trading_snapshot.Order.Execute.Quiet.{
  Held, Grows, Grows-trans, call-Grows, IsQuiet, decide-IsQuiet, reconcile_one-IsQuiet,
  settle_reply-IsQuiet,
}

module _ (fs : Floats) where
  open fs use {F}

  -- At most one order is sent, for the key of the call; the journal keeps what it holds.
  abbrev SendsOnce : SignalKey → State fs → State fs → Type 0
  SendsOnce key s s' =
      ((s'.submitted ≡ s.submitted)
        ⊎ ((o : Submission) × (s'.submitted ≡ o ∷ s.submitted) × (o.key ≡ key)))
      × Grows fs s.journal s'.journal

  quiet-SendsOnce :
      (key : SignalKey) (s s' : State fs)
      → (s'.submitted ≡ s.submitted) × Grows fs s.journal s'.journal
      → SendsOnce key s s'
  quiet-SendsOnce key s s' (same, grows) = (inl same, grows)

  -- Quiet steps before a step that sends once.
  quiet-then :
      {A B : Type 0} (key : SignalKey) (s : State fs) (q : Result A × State fs) (k : A → Exec fs B)
      → IsQuiet fs s q
      → ((a : A) → SendsOnce key q.1 (k a q.1).1)
      → SendsOnce key s (and_then fs q k).1
  quiet-then key s (err e, t) k (same, grows) h = (inl same, grows)
  quiet-then key s (ok a, t) k (same, grows) h =
      let (sent, more) = h a in
      (
        elim sent [
          | inl none_sent ↦ inl (none_sent ∙ same)
          | inr (o, one, mine) ↦ inr (o, one ∙ ap (λ x. o ∷ x) same, mine)
        ],
        Grows-trans fs s.journal t.journal (k a t).1.journal grows more,
      )

  send-SendsOnce :
      (x : Meets fs) (i : OrderIntent F) (s : State fs) → SendsOnce x.key s (send fs x i s).1
  unfolding send
  send-SendsOnce x i s =
      let o : Submission = record {
        intent_id = i.intent_id;
        key = x.key;
        client_reference = i.client_reference;
      } in
      let (same, grows) =
        settle_reply-IsQuiet fs x i x.reply (record s { submitted = o ∷ s.submitted }) in
      (inr (o, same, refl), grows)

  request-IsQuiet :
      (x : Meets fs) (id : String) (o : Order fs) (s : State fs)
      → IsQuiet fs s
          (store fs x 2 (Store.set_request id o.volume o.sl o.tp x.request (x.clock 2)) s)
  unfolding store after_all after
  request-IsQuiet x id o s = (
    refl,
    call-Grows fs x.attempts
        (record {
          call = Call.set_request id o.volume o.sl o.tp x.request (x.clock 2);
          env = x.connection 2;
        })
        s.journal,
  )

  submit-SendsOnce :
      (x : Meets fs) (i : OrderIntent F) (o : Order fs) (s : State fs)
      → SendsOnce x.key s (submit fs x i o s).1
  unfolding submit
  submit-SendsOnce x i o s =
      let asked =
        store fs x 2 (Store.set_request i.intent_id o.volume o.sl o.tp x.request (x.clock 2)) s in
      quiet-then x.key s asked
        (λ _ s'. and_then fs (decide fs x 3 i.intent_id "SUBMITTING" [] s') (λ j. send fs x j))
        (request-IsQuiet x i.intent_id o s)
        (λ _.
          quiet-then x.key asked.1 (decide fs x 3 i.intent_id "SUBMITTING" [] asked.1)
            (λ j. send fs x j) (decide-IsQuiet fs x 3 i.intent_id "SUBMITTING" [] asked.1)
            (λ j. send-SendsOnce x j (decide fs x 3 i.intent_id "SUBMITTING" [] asked.1).1))

  follow-SendsOnce :
      (x : Meets fs) (i : OrderIntent F) (p : Plan fs) (s : State fs)
      → SendsOnce x.key s (follow fs x i p s).1
  unfolding follow
  follow-SendsOnce x i (cancels why) s =
      quiet-SendsOnce x.key s _ (decide-IsQuiet fs x 1 i.intent_id "CANCELLED" (because fs why) s)
  follow-SendsOnce x i (rejects why) s =
      quiet-SendsOnce x.key s _ (decide-IsQuiet fs x 1 i.intent_id "REJECTED" (because fs why) s)
  follow-SendsOnce x i (submits o) s = submit-SendsOnce x i o s

  pursue-SendsOnce :
      (x : Meets fs) (g : Signal fs) (i : OrderIntent F) (s : State fs)
      → SendsOnce x.key s (pursue fs x g i s).1
  unfolding pursue
  pursue-SendsOnce x g i s = chosen x.has_position
    where
      chosen :
          (b : Bool)
          → SendsOnce x.key s
              ((if b
                  then decide fs x 1 i.intent_id "CANCELLED" (because fs "position already open")
                  else follow fs x i (plan_order fs x.config x.risk g x.quote))
                s).1
      chosen true =
          quiet-SendsOnce x.key s _
            (decide-IsQuiet fs x 1 i.intent_id "CANCELLED" (because fs "position already open") s)
      chosen false = follow-SendsOnce x i (plan_order fs x.config x.risk g x.quote) s

  -- What a claim that won found and wrote.
  abbrev IsFirst : Meets fs → Table F → Table F → Type 0
  IsFirst x t t' = (select_signal x.key t ≡ none) × Held fs x.key x.intent_id t'

  claim-IsQuiet :
      (x : Meets fs) (g : Signal fs) (s : State fs)
      → IsQuiet fs s
          (store fs x 0 (Store.claim_signal x.intent_id x.key x.symbol g.side (x.clock 0)) s)
  unfolding store after_all after
  claim-IsQuiet x g s = (
    refl,
    call-Grows fs x.attempts
        (record {
          call = Call.claim_signal x.intent_id x.key x.symbol g.side (x.clock 0);
          env = x.connection 0;
        })
        s.journal,
  )

  pub surface-ok : {A : Type 0} (r : Result A) (a : A) → surface r ≡ ok a → r ≡ ok a
  surface-ok (ok b) a h = h
  surface-ok (err integrity) a h = cc
  surface-ok (err no_row) a h = cc
  surface-ok (err intent_not_found) a h = cc
  surface-ok (err unknown_status) a h = cc
  surface-ok (err (not_allowed f t)) a h = cc
  surface-ok (err operation_failed) a h = cc

  key_of-new :
      (id : String) (key : SignalKey) (symbol side : String) (now : ℕ)
      → key_of (new_intent {R = F} id key symbol side now) ≡ key
  unfolding new_intent
  key_of-new id key symbol side now = refl

  id-new :
      (id : String) (key : SignalKey) (symbol side : String) (now : ℕ)
      → (new_intent {R = F} id key symbol side now).intent_id ≡ id
  unfolding new_intent
  id-new id key symbol side now = refl

  claim-IsFirst :
      (x : Meets fs) (g : Signal fs) (s s' : State fs) (i : OrderIntent F)
      → store fs x 0 (Store.claim_signal x.intent_id x.key x.symbol g.side (x.clock 0)) s
        ≡ (ok (i, true), s')
      → IsFirst x s.journal s'.journal
  unfolding store
  claim-IsFirst x g s s' i h =
      let m = Store.claim_signal {R = F} x.intent_id x.key x.symbol g.side (x.clock 0) in
      elim (run-cases x.attempts (x.connection 0) m s.journal) [
        | inr failed ↦ absurd (
            let bad : ◌≡◌ {A = Result (OrderIntent F × Bool)} (err operation_failed)
                (ok (i, true)) =
              sym (ap (λ q. q.0) failed) ∙ ap (λ q. q.0) h in
            cc)
        | inl ran ↦
            let got : (m s.journal).0 ≡ ok (i, true) =
              surface-ok (m s.journal).0 (i, true) (sym (ap (λ q. q.0) ran) ∙ ap (λ q. q.0) h) in
            let won =
              claim-Won x.intent_id x.key x.symbol g.side (x.clock 0) s.journal i (m s.journal).1
                (ap (λ r. (r, (m s.journal).1)) got) in
            let new = new_intent {R = F} x.intent_id x.key x.symbol g.side (x.clock 0) in
            let ends : s'.journal ≡ s.journal ++ new ∷ [] =
              sym (ap (λ q. q.1.journal) h) ∙ ap (λ q. q.1) ran ∙ won.table in
            let named = id-new x.intent_id x.key x.symbol g.side (x.clock 0) in
            (
              won.fresh,
              (
                new,
                ap (λ t. select_id x.intent_id t) ends
                    ∙ subst (λ z. select_id z (s.journal ++ new ∷ []) ≡ some new) named
                        (select_id-snoc new s.journal won.free),
                key_of-new x.intent_id x.key x.symbol g.side (x.clock 0),
              ),
            )
      ]

  -- What one call of `execute_signal` does: it sends nothing, or one order for its key, which had
  -- no intent before and has one after.
  abbrev pub IsCareful : Meets fs → State fs → State fs → Type 0
  IsCareful x s s' =
      ((s'.submitted ≡ s.submitted)
        ⊎ ((o : Submission) × (s'.submitted ≡ o ∷ s.submitted)
            × (o.key ≡ x.key)
            × (select_signal x.key s.journal ≡ none)
            × Held fs x.key x.intent_id s'.journal))
      × Grows fs s.journal s'.journal

  caught-state : {A : Type 0} (q : Result A × State fs) → (caught fs q).1 ≡ q.1
  caught-state (ok a, s) = refl
  caught-state (err e, s) = refl

  returned-state : {A : Type 0} (q : Result A × State fs) → (returned fs q).1 ≡ q.1
  returned-state (ok a, s) = refl
  returned-state (err e, s) = refl

  quiet-IsCareful :
      (x : Meets fs) (s t u : State fs)
      → (t.submitted ≡ s.submitted) × Grows fs s.journal t.journal
      → (u.submitted ≡ t.submitted) × Grows fs t.journal u.journal
      → IsCareful x s u
  quiet-IsCareful x s t u (a, f) (b, g) =
      (inl (b ∙ a), Grows-trans fs s.journal t.journal u.journal f g)

  first-IsCareful :
      (x : Meets fs) (s t u : State fs)
      → (t.submitted ≡ s.submitted) × Grows fs s.journal t.journal
      → IsFirst x s.journal t.journal
      → SendsOnce x.key t u
      → IsCareful x s u
  first-IsCareful x s t u (a, f) (fresh, held) (sent, g) = (
    elim sent [
      | inl none_sent ↦ inl (none_sent ∙ a)
      | inr (o, one, mine) ↦ inr (o, one ∙ ap (λ l. o ∷ l) a, mine, fresh, g x.key x.intent_id held)
    ],
    Grows-trans fs s.journal t.journal u.journal f g,
  )

  claimed-IsCareful :
      (x : Meets fs) (g : Signal fs) (s : State fs) (q : Result (OrderIntent F × Bool) × State fs)
      → store fs x 0 (Store.claim_signal x.intent_id x.key x.symbol g.side (x.clock 0)) s ≡ q
      → (q.1.submitted ≡ s.submitted) × Grows fs s.journal q.1.journal
      → IsCareful x s (claimed_answer fs x g q).1
  unfolding claimed_answer
  claimed-IsCareful x g s (err e, t) h (a, f) = (inl a, f)
  claimed-IsCareful x g s (ok (i, false), t) h quiet =
      subst (IsCareful x s) (sym (caught-state (reconcile_one fs x i t)))
        (quiet-IsCareful x s t (reconcile_one fs x i t).1 quiet (reconcile_one-IsQuiet fs x i t))
  claimed-IsCareful x g s (ok (i, true), t) h quiet =
      subst (IsCareful x s) (sym (returned-state (pursue fs x g i t))) (
        first-IsCareful x s t (pursue fs x g i t).1 quiet (claim-IsFirst x g s t i h)
          (pursue-SendsOnce x g i t))

  pub execute_signal-IsCareful :
      (x : Meets fs) (g : Signal fs) (s : State fs) → IsCareful x s (execute_signal fs x g s).1
  unfolding execute_signal
  execute_signal-IsCareful x g s =
      claimed-IsCareful x g s
        (store fs x 0 (Store.claim_signal x.intent_id x.key x.symbol g.side (x.clock 0)) s) refl
        (claim-IsQuiet x g s)
