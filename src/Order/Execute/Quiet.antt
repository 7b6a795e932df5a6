-- ===== src/Order/Execute/Quiet.antt =====
-- Which steps of the executor send nothing, and that every step leaves each intent of the journal
-- in place (core/order_executor.py).
use trading_snapshot.Base.{
  ℕ, Option, some, List, [], ◌∷◌, String, ◌≡◌, refl, ◌∙◌, inl, inr, Bool-cases,
}
use trading_snapshot.Base.Int.{ℤ}
use trading_snapshot.Base.Float.{Floats}
use trading_snapshot.Intent.Status.{is_active, same_status, created, reconciling}
use trading_snapshot.Intent.Row.{OrderIntent, SignalKey, Value, key_of}
use trading_snapshot.Intent.Table.{Result, ok, err, Table, select_id}
use trading_snapshot.Intent.Calls.{Call, Served, after, after_all}
use trading_snapshot.Intent.Calls.History.{after_all-Later}
use trading_snapshot.Order.Execute.{
  State, Meets, Exec, store, and_then, decide, because, Found, find_raised, in_history, at_position,
  nowhere, resolve, reconcile_one, Lookup, lookup_raised, invisible, visible, mark_filled, look_up,
  Reply, send_raised, no_answer, answered, settle_reply, is_accepted,
}

module _ (fs : Floats) where
  open fs use {F}

  -- The journal has a row of this id, under this key.
  abbrev pub Held : SignalKey → String → Table F → Type 0
  Held key id t = (r : OrderIntent F) × (select_id id t ≡ some r) × (key_of r ≡ key)

  abbrev pub Grows : Table F → Table F → Type 0
  Grows t t' = (key : SignalKey) (id : String) → Held key id t → Held key id t'

  pub Grows-trans : (t u v : Table F) → Grows t u → Grows u v → Grows t v
  Grows-trans t u v f g key id h = g key id (f key id h)

  -- One served call of the journal.
  pub call-Grows :
      (attempts : ℕ) (c : Served F) (t : Table F) → Grows t (after_all attempts (c ∷ []) t)
  call-Grows n c t key id (r, found, named) =
      let (r', found', later) = after_all-Later n (c ∷ []) t id r found in
      (r', found', later.identity.key ∙ named)

  -- No order is sent, and the journal keeps what it holds.
  abbrev pub IsQuiet : {A : Type 0} → State fs → Result A × State fs → Type 0
  IsQuiet s q = (q.1.submitted ≡ s.submitted) × Grows s.journal q.1.journal

  pub decide-IsQuiet :
      (x : Meets fs) (i : ℕ) (id status : String) (values : List (Value F)) (s : State fs)
      → IsQuiet s (decide fs x i id status values s)
  unfolding store after_all after
  decide-IsQuiet x i id status values s = (
    refl,
    call-Grows x.attempts
        (record { call = Call.transition id status values (x.clock i); env = x.connection i })
        s.journal,
  )

  pub and_then-IsQuiet :
      {A B : Type 0} (s : State fs) (q : Result A × State fs) (k : A → Exec fs B)
      → IsQuiet s q
      → ((a : A) → IsQuiet q.1 (k a q.1))
      → IsQuiet s (and_then fs q k)
  and_then-IsQuiet s (ok a, t) k (same, grows) h =
      let (same', grows') = h a in
      (same' ∙ same, Grows-trans s.journal t.journal (k a t).1.journal grows grows')
  and_then-IsQuiet s (err e, t) k quiet h = quiet

  resolve-IsQuiet :
      (x : Meets fs) (i : OrderIntent F) (f : Found fs) (s : State fs)
      → IsQuiet s (resolve fs x i f s)
  unfolding resolve
  resolve-IsQuiet x i (find_raised why) s =
      decide-IsQuiet x 6 i.intent_id "UNKNOWN" (because fs why) s
  resolve-IsQuiet x i (in_history v order position) s = decide-IsQuiet x 6 i.intent_id _ _ s
  resolve-IsQuiet x i (at_position ticket v) s = decide-IsQuiet x 6 i.intent_id _ _ s
  resolve-IsQuiet x i nowhere s = elim (Bool-cases (same_status i.status reconciling)) [
    | inl waiting ↦ rw waiting (refl, λ key id h. h)
    | inr other ↦
        rw other
          (decide-IsQuiet x 6 i.intent_id "RECONCILING" (because fs "awaiting broker visibility") s)
  ]

  pub reconcile_one-IsQuiet :
      (x : Meets fs) (i : OrderIntent F) (s : State fs) → IsQuiet s (reconcile_one fs x i s)
  unfolding reconcile_one
  reconcile_one-IsQuiet x i s = elim (Bool-cases (is_active i.status)) [
    | inr settled ↦ rw settled (refl, λ key id h. h)
    | inl active ↦ rw active (elim (Bool-cases (same_status i.status created)) [
      | inl fresh ↦ rw fresh (refl, λ key id h. h)
      | inr sent ↦ rw sent (resolve-IsQuiet x i x.found s)
    ])
  ]

  look_up-IsQuiet :
      (x : Meets fs) (code : Option ℤ) (data_of : Option String) (i : OrderIntent F) (l : Lookup fs)
      (s : State fs)
      → IsQuiet s (look_up fs x code data_of i l s)
  unfolding look_up mark_filled
  look_up-IsQuiet x code data_of i (lookup_raised why) s =
      decide-IsQuiet x 5 i.intent_id "UNKNOWN" (because fs why) s
  look_up-IsQuiet x code data_of i invisible s = decide-IsQuiet x 5 i.intent_id "RECONCILING" _ s
  look_up-IsQuiet x code data_of i (visible ticket v) s = decide-IsQuiet x 5 i.intent_id _ _ s

  pub settle_reply-IsQuiet :
      (x : Meets fs) (i : OrderIntent F) (r : Reply fs) (s : State fs)
      → IsQuiet s (settle_reply fs x i r s)
  unfolding settle_reply
  settle_reply-IsQuiet x i (send_raised why) s =
      decide-IsQuiet x 4 i.intent_id "UNKNOWN" (because fs why) s
  settle_reply-IsQuiet x i no_answer s = decide-IsQuiet x 4 i.intent_id "UNKNOWN" _ s
  settle_reply-IsQuiet x i (answered code order data_of) s =
      elim (Bool-cases (is_accepted fs code)) [
        | inr refused ↦ rw refused (decide-IsQuiet x 4 i.intent_id "REJECTED" _ s)
        | inl good ↦ rw good (
            and_then-IsQuiet s (decide fs x 4 i.intent_id "ACCEPTED" _ s)
              (λ a. look_up fs x code data_of a x.lookup)
              (decide-IsQuiet x 4 i.intent_id "ACCEPTED" _ s)
              (λ a.
                look_up-IsQuiet x code data_of a x.lookup
                  (decide fs x 4 i.intent_id "ACCEPTED" _ s).1))
      ]
