-- ===== src/Broker/Close/Refines.antt =====
-- What a close does, whatever the terminal answers: an abstract protocol of sends, waits and
-- lookups, and the proof that `_send_close_with_retry` (core/broker.py) follows it.
use trading_snapshot.Base.{
  ℕ, zero, suc, ◌≤◌, Bool, true, false, Option, none, some, List, [], ◌∷◌, ◌≡◌, refl, ap, inl, inr,
  Bool-cases, arith,
}
use trading_snapshot.Base.Float.{Floats}
use trading_snapshot.Broker.Close.{
  Side, Outcome, nothing, already_closed, answered, outcome_of, Position, Tick, Request,
  get_position_by_ticket, Attempt, Effect, looked, sent, slept, Run, rounded, price_of, refreshed,
  is_final, submit, look_up, retry_close, send_close_with_retry,
}

module _ (fs : Floats) (round : fs.F → ℕ → fs.F) (done_code : ℕ) where
  open fs use {F}

  abbrev Order : Type 0
  Order = Request fs

  abbrev pub settles : Option ℕ → Bool
  settles = is_final fs round done_code

  -- the order, but for its price and with a volume
  pub record IsFor (order : Order) (v : F) (r : Order) : Type 0 where
    pub same : r ≡ record order { volume = v; price = r.price }

  -- A run with at most so many sends, the first of a volume. A second send has a wait and a
  -- lookup before it that found the position, and closes the volume found.
  pub data Closes (order : Order) : ℕ → F → List (Effect fs) → Outcome → Type 0 where
    concluded :
        {n : ℕ} {v : F} (r : Order) (c : ℕ)
        → IsFor order v r
        → settles (some c) ≡ true
        → Closes order (suc n) v (sent r (some c) ∷ []) (answered c)
    exhausted :
        {v : F} (r : Order) (a : Option ℕ)
        → IsFor order v r
        → settles a ≡ false
        → Closes order 1 v (sent r a ∷ []) (outcome_of a)
    blocked :
        {n : ℕ} {v : F} (r : Order) (a : Option ℕ)
        → IsFor order v r
        → settles a ≡ false
        → Closes order (suc (suc n)) v (sent r a ∷ slept ∷ looked none ∷ []) nothing
    applied :
        {n : ℕ} {v : F} (r : Order) (a : Option ℕ)
        → IsFor order v r
        → settles a ≡ false
        → Closes order (suc (suc n)) v (sent r a ∷ slept ∷ looked (some []) ∷ []) already_closed
    again :
        {n : ℕ} {v : F} {es : List (Effect fs)} {o : Outcome} (r : Order) (a : Option ℕ)
        (p : Position fs) (ps : List (Position fs))
        → IsFor order v r
        → settles a ≡ false
        → Closes order (suc n) p.volume es o
        → Closes order (suc (suc n)) v (sent r a ∷ slept ∷ looked (some (p ∷ ps)) ∷ es) o

  refreshed-IsFor :
      (order r : Order) (w : F) (side : Side) (digits : Option ℕ) (t : Option (Tick fs)) (v : F)
      → IsFor order v r
      → IsFor order w (record (refreshed fs round done_code side digits t r) { volume = w })
  refreshed-IsFor order r w side digits none v h = record {
    same = ap {A = Order} (λ q. record q { volume = w; price = r.price }) h.same;
  }
  refreshed-IsFor order r w side digits (some t) v h = record {
    same =
        ap {A = Order}
          (λ q. record q {
            volume = w;
            price = rounded fs round done_code digits (price_of fs side t);
          })
          h.same;
  }

  abbrev Attempts : Type 0
  Attempts = ℕ → Attempt fs

  abbrev submitted : ℕ → Attempts → Side → ℕ → Attempt fs → Order → Run fs
  submitted left answers side attempt a r =
      submit fs round done_code left side a r
        (retry_close fs round done_code left answers side attempt a.result)

  concluded-Closes :
      (order : Order) (n : ℕ) (v : F) (r : Order) (a : Option ℕ)
      → IsFor order v r
      → settles a ≡ true
      → Closes order (suc n) v (sent r a ∷ []) (outcome_of a)
  concluded-Closes order n v r none h bad = absurd (cc)
  concluded-Closes order n v r (some c) h final = concluded r c h final

  looked-Closes :
      (order : Order) (left : ℕ) (v : F) (r : Order) (a : Option ℕ)
      (l : Option (List (Position fs))) (next : Position fs → Run fs)
      → IsFor order v r
      → settles a ≡ false
      → ((p : Position fs) → Closes order (suc left) p.volume (next p).1 (next p).0)
      → Closes order
          (suc (suc left))
          v
          (sent r a ∷ slept ∷ (look_up fs l (get_position_by_ticket fs l) next).1)
          (look_up fs l (get_position_by_ticket fs l) next).0
  looked-Closes order left v r a none next h unsettled k = blocked r a h unsettled
  looked-Closes order left v r a (some []) next h unsettled k = applied r a h unsettled
  looked-Closes order left v r a (some (p ∷ ps)) next h unsettled k =
      again r a p ps h unsettled (k p)

  submitted-Closes :
      (left : ℕ) (answers : Attempts) (side : Side) (attempt : ℕ) (a : Attempt fs) (order r : Order)
      (v : F)
      → IsFor order v r
      → Closes order
          (suc left)
          v
          (submitted left answers side attempt a r).1
          (submitted left answers side attempt a r).0
  unfolding retry_close
  submitted-Closes zero answers side attempt a order r v h = elim (Bool-cases (settles a.result)) [
    | inl final ↦ rw final (concluded-Closes order 0 v r a.result h final)
    | inr unsettled ↦ rw unsettled (exhausted r a.result h unsettled)
  ]
  submitted-Closes (suc left) answers side attempt a order r v h =
      elim (Bool-cases (settles a.result)) [
        | inl final ↦ rw final (concluded-Closes order (suc left) v r a.result h final)
        | inr unsettled ↦ rw unsettled (
            looked-Closes order left v r a.result (answers attempt).positions
              (λ p.
                submitted left answers side (suc attempt) (answers attempt)
                  (record (refreshed fs round done_code side a.market.digits a.market.tick r) {
                    volume = p.volume;
                  }))
              h unsettled
              (λ p.
                submitted-Closes left answers side (suc attempt) (answers attempt) order _ p.volume
                  (refreshed-IsFor order r p.volume side a.market.digits a.market.tick v h)))
      ]

  -- Whatever the terminal answers, a close follows the protocol, with at most as many sends as the
  -- policy has attempts, which are not zero. Each send is of the request but for its volume and price;
  -- after a final answer there is nothing more; before a send again the loop waits and looks the
  -- position up, sends the volume found, and ends where there is no position or no answer.
  pub send_close_with_retry-Closes :
      (attempts : ℕ) (answers : Attempts) (side : Side) (r : Order)
      → 1 ≤ attempts
      → Closes r attempts r.volume
          (send_close_with_retry fs round done_code attempts answers side r).1
          (send_close_with_retry fs round done_code attempts answers side r).0
  unfolding send_close_with_retry
  send_close_with_retry-Closes zero answers side r h = absurd (omega (arith, h))
  send_close_with_retry-Closes (suc left) answers side r h =
      submitted-Closes left answers side 2 (answers 1) r r r.volume (record { same = refl })
