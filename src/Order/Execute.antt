-- ===== src/Order/Execute.antt =====
-- `execute_signal` and `_reconcile_one` (core/order_executor.py) over the intent journal. What
-- the database, the broker, the risk manager and the clock answer is given with each call. The
-- strategy's callbacks, the logs and the trade log of `_mark_filled` are left out.

pub mod Quiet
pub mod Once
pub mod History
pub mod Ahead
use trading_snapshot.Base.{
  ℕ, Bool, true, false, not, ◌&&◌, ◌||◌, Option, none, some, List, [], ◌∷◌, String, if◌then◌else◌,
  ◌==◌,
}
use trading_snapshot.Base.Int.{ℤ, pos, pos_part, neg_part}
use trading_snapshot.Base.Float.{Floats}
use trading_snapshot.Intent.Status.{
  Status, created, submitting, accepted, partially_filled, filled, rejected, cancelled, closed,
  unknown, reconciling, is_active, same_status,
}
use trading_snapshot.Intent.BrokerId.{BrokerValue}
use trading_snapshot.Intent.Row.{OrderIntent, SignalKey, Value}
use trading_snapshot.Intent.Table.{Error, Result, ok, err, Table, Action}
use trading_snapshot.Intent.Store
use trading_snapshot.Intent.Run.{Connection, run}
use trading_snapshot.Order.Plan.{
  Signal, ExecutionConfig, Quote, Order, Plan, cancels, rejects, submits, RiskAnswers, plan_order,
}

-- A call of `send_market_order`, by the intent that it is made for.
pub record Submission : Type 0 where
  pub intent_id : String
  pub key : SignalKey
  pub client_reference : String

module _ (fs : Floats) where
  open fs use {F, zero_f, lt, le}

  pub record State : Type 0 where
    pub journal : Table F
    pub submitted : List Submission

  abbrev pub Exec : Type 0 → Type 0
  Exec A = State → Result A × State

  -- The answer of `send_market_order`: an exception, None, or a result with its return code.
  pub data Reply : Type 0 where
    send_raised : String → Reply
    no_answer : Reply
    answered : Option ℤ → Option BrokerValue → Option String → Reply

  -- The position of an accepted order.
  pub data Lookup : Type 0 where
    lookup_raised : String → Lookup
    invisible : Lookup
    visible : BrokerValue → F → Lookup

  -- What a reconciliation finds at the broker.
  pub data Found : Type 0 where
    find_raised : String → Found
    in_history : Option F → Option BrokerValue → Option BrokerValue → Found
    at_position : Option BrokerValue → F → Found
    nowhere : Found

  pub record Meets : Type 0 where
    pub attempts : ℕ
    -- the database at each attempt, and the clock, of each call of the journal
    pub connection : ℕ → ℕ → Connection
    pub clock : ℕ → ℕ
    -- `uuid4().hex`
    pub intent_id : String
    pub key : SignalKey
    pub symbol : String
    pub config : ExecutionConfig fs
    pub has_position : Bool
    pub quote : Option (Quote fs)
    pub risk : RiskAnswers fs
    pub request : Option String
    pub reply : Reply
    pub lookup : Lookup
    pub found : Found

  unfoldable pub store : {A : Type 0} → Meets → ℕ → Action F A → Exec A
  store x i m s =
      let (r, t) = run x.attempts (x.connection i) m s.journal in (r, record s { journal = t })

  abbrev pub and_then : {A B : Type 0} → Result A × State → (A → Exec B) → Result B × State
  and_then (ok a, s) k = k a s
  and_then (err e, s) k = (err e, s)

  -- `self.intent_store.transition(...)`
  abbrev pub decide : Meets → ℕ → String → String → List (Value F) → Exec (OrderIntent F)
  decide x i id status values = store x i (Store.transition id status values (x.clock i))

  abbrev pub because : String → List (Value F)
  because why = Value.last_error (some why) ∷ []

  -- Python's truth of a float.
  abbrev pub truthy : F → Bool
  truthy v = not (le v zero_f && le zero_f v)

  abbrev pub or_volume : Option F → F → F
  or_volume none v = v
  or_volume (some r) v = if truthy r then r else v

  abbrev pub fill_status : F → F → String
  fill_status volume requested =
      if truthy volume && lt volume requested then "PARTIALLY_FILLED" else "FILLED"

  abbrev pub or_requested : Option F → Option F → Option F
  or_requested (some v) requested = if truthy v then some v else requested
  or_requested none requested = requested

  abbrev pub history_status : Option F → Option F → String
  history_status none requested = "FILLED"
  history_status (some v) requested = fill_status v (or_volume requested v)

  -- The end of `_reconcile_one`, on what the broker knows of the client reference.
  unfoldable pub resolve : Meets → OrderIntent F → Found → Exec (OrderIntent F)
  resolve x i (find_raised why) s = decide x 6 i.intent_id "UNKNOWN" (because why) s
  resolve x i (in_history v order position) s =
      decide x 6 i.intent_id (history_status (or_requested v i.requested_volume) i.requested_volume)
        (Value.broker_order_id order
          ∷ Value.broker_position_id position
          ∷ Value.filled_volume (or_requested v i.requested_volume)
          ∷ because "resolved from broker history")
        s
  resolve x i (at_position ticket v) s =
      decide x 6 i.intent_id (fill_status v (or_volume i.requested_volume v))
        (Value.broker_position_id ticket ∷ Value.filled_volume (some v) ∷ []) s
  resolve x i nowhere s =
      if same_status i.status reconciling
      then (ok i, s)
      else decide x 6 i.intent_id "RECONCILING" (because "awaiting broker visibility") s

  unfoldable pub reconcile_one : Meets → OrderIntent F → Exec (OrderIntent F)
  unfolding resolve
  reconcile_one x i s =
      if not (is_active i.status)
      then (ok i, s)
      else if same_status i.status created
      then (ok i, s)
      else resolve x i x.found s

  abbrev pub same_code : ℕ → Option ℤ → Bool
  same_code n none = false
  same_code n (some c) = pos_part c == n && neg_part c == 0

  -- TRADE_RETCODE_DONE, _DONE_PARTIAL and _PLACED
  abbrev pub is_accepted : Option ℤ → Bool
  is_accepted c = same_code 10009 c || same_code 10010 c || same_code 10008 c

  -- `_mark_filled`; the intent has its requested volume from `set_request`.
  abbrev pub mark_status : F → Option F → String
  mark_status v none = "FILLED"
  mark_status v (some requested) = fill_status v requested

  unfoldable pub mark_filled :
      Meets → OrderIntent F → Option ℤ → Option String → BrokerValue → F → Exec (OrderIntent F)
  mark_filled x i code data_of ticket v =
      decide x 5 i.intent_id (mark_status v i.requested_volume) (
        Value.retcode code
        ∷ Value.broker_position_id (some ticket)
        ∷ Value.filled_volume (some v)
        ∷ Value.broker_result data_of
        ∷ [])

  unfoldable pub look_up :
      Meets → Option ℤ → Option String → OrderIntent F → Lookup → Exec (OrderIntent F)
  unfolding mark_filled
  look_up x code data_of i (lookup_raised why) = decide x 5 i.intent_id "UNKNOWN" (because why)
  look_up x code data_of i invisible =
      decide x 5 i.intent_id "RECONCILING" (because "accepted; position not yet visible")
  look_up x code data_of i (visible ticket v) = mark_filled x i code data_of ticket v

  -- After `send_market_order`.
  unfoldable pub settle_reply : Meets → OrderIntent F → Reply → Exec (OrderIntent F)
  unfolding store look_up
  settle_reply x i (send_raised why) s = decide x 4 i.intent_id "UNKNOWN" (because why) s
  settle_reply x i no_answer s =
      decide x 4 i.intent_id "UNKNOWN" (because "order_send returned None") s
  settle_reply x i (answered code order data_of) s =
      let values =
        Value.retcode code ∷ Value.broker_order_id order ∷ Value.broker_result data_of ∷ [] in
      if is_accepted code
      then and_then (decide x 4 i.intent_id "ACCEPTED" values s)
          (λ a. look_up x code data_of a x.lookup)
      else decide x 4 i.intent_id "REJECTED" (Value.last_error (some "broker retcode") ∷ values) s

  unfoldable pub send : Meets → OrderIntent F → Exec (OrderIntent F)
  unfolding settle_reply
  send x i s = settle_reply x i x.reply (record s {
    submitted =
        (record { intent_id = i.intent_id; key = x.key; client_reference = i.client_reference })
        ∷ s.submitted;
  })

  unfoldable pub submit : Meets → OrderIntent F → Order fs → Exec (OrderIntent F)
  unfolding store send
  submit x i o s =
      and_then
        (store x 2 (Store.set_request i.intent_id o.volume o.sl o.tp x.request (x.clock 2)) s)
        (λ _ s'. and_then (decide x 3 i.intent_id "SUBMITTING" [] s') (λ j. send x j))

  unfoldable pub follow : Meets → OrderIntent F → Plan fs → Exec (OrderIntent F)
  unfolding submit
  follow x i (cancels why) = decide x 1 i.intent_id "CANCELLED" (because why)
  follow x i (rejects why) = decide x 1 i.intent_id "REJECTED" (because why)
  follow x i (submits o) = submit x i o

  -- A claimed intent.
  unfoldable pub pursue : Meets → Signal fs → OrderIntent F → Exec (OrderIntent F)
  unfolding follow plan_order
  pursue x signal i =
      if x.has_position
      then decide x 1 i.intent_id "CANCELLED" (because "position already open")
      else follow x i (plan_order fs x.config x.risk signal x.quote)

  -- The journal's errors before the claim is settled are logged, and the call returns None.
  abbrev pub caught : {A : Type 0} → Result A × State → Result (Option A) × State
  caught (ok a, s) = (ok (some a), s)
  caught (err _, s) = (ok none, s)

  abbrev pub returned : {A : Type 0} → Result A × State → Result (Option A) × State
  returned (ok a, s) = (ok (some a), s)
  returned (err e, s) = (err e, s)

  unfoldable pub claimed_answer :
      Meets
      → Signal fs
      → Result (OrderIntent F × Bool) × State
      → Result (Option (OrderIntent F)) × State
  unfolding reconcile_one pursue
  claimed_answer x signal (err _, s) = (ok none, s)
  claimed_answer x signal (ok (i, false), s) = caught (reconcile_one x i s)
  claimed_answer x signal (ok (i, true), s) = returned (pursue x signal i s)

  unfoldable pub execute_signal : Meets → Signal fs → Exec (Option (OrderIntent F))
  unfolding store claimed_answer
  execute_signal x signal s =
      claimed_answer x signal
        (store x 0 (Store.claim_signal x.intent_id x.key x.symbol signal.side (x.clock 0)) s)
