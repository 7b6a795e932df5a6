-- ===== src/Tests/Intents.antt =====
-- The order journal (core/order_intent_store.py) on a small history.
use trading_snapshot.Base.{ℕ, ◌≤◌, String, true, false, some, List, [], ◌∷◌, ◌≡◌, refl}
use trading_snapshot.Base.Int.{pos}
use trading_snapshot.Intent.Status.{filled, submitting, may_move, parse_status}
use trading_snapshot.Intent.Status.Paths.{phase}
use trading_snapshot.Intent.BrokerId.{number}
use trading_snapshot.Intent.Row.{OrderIntent, SignalKey, Value, new_intent, key_of}
use trading_snapshot.Intent.Table.{
  Table, ok, select_id, select_signal, select_active, transaction, insert_row, update_row, replace,
}
use trading_snapshot.Intent.Store.{claim_body, claim_signal, transition, move, moved, assign_all}
use trading_snapshot.Intent.Run.{Connection, ready}
use trading_snapshot.Intent.Claims.Exclusive.{IsRowOf, claim_signal_excludes}
use trading_snapshot.Intent.Calls.{Call, Served, after_all}
use trading_snapshot.Intent.Calls.History.{after_all-phase}

abbrev key : SignalKey
key = record { account_id = "FTMO::1"; strategy_id = "xau"; signal_id = "s1" }

abbrev id : String
id = "0123456789abcdef0123456789abcdef"

abbrev first : OrderIntent ℕ
first = new_intent id key "XAUUSD" "BUY" 100

abbrev journal : Table ℕ
journal = first ∷ []

claim-first : claim_signal id key "XAUUSD" "BUY" 100 [] ≡ (ok (first, true), journal)
unfolding claim_signal transaction claim_body insert_row select_signal select_active select_id
    new_intent
claim-first = refl

claim_signal_excludes_example :
    (x : OrderIntent ℕ) × (claim_signal "ffff"
        (record { account_id = "FTMO::1"; strategy_id = "xau"; signal_id = "s2" })
        "XAUUSD"
        "SELL"
        130
        journal
      ≡ (ok (x, false), journal))
    × IsRowOf "FTMO::1" "xau" x journal
claim_signal_excludes_example =
    claim_signal_excludes id key "XAUUSD" "BUY" 100 [] first journal claim-first "ffff" "XAUUSD"
      "SELL" 130 "s2"

found : select_id id journal ≡ some first
unfolding select_id new_intent
found = refl

-- The life of an order through a locked database: submitted, accepted, filled.
abbrev free : ℕ → Connection
free _ = ready

abbrev life : List (Served ℕ)
life =
    record { call = Call.transition id "SUBMITTING" [] 101; env = free }
    ∷ record {
      call =
          Call.transition id "ACCEPTED" (Value.broker_order_id (some (number (pos 77))) ∷ []) 102;
      env = free;
    }
    ∷ record { call = Call.transition id "CREATED" [] 103; env = free }
    ∷ record { call = Call.claim_signal "ffff" key "XAUUSD" "BUY" 104; env = free }
    ∷ []

after_all-phase_example :
    (r' : OrderIntent ℕ) × (select_id id (after_all 4 life journal) ≡ some r')
    × (key_of r' ≡ key_of first)
    × (r'.client_reference ≡ first.client_reference)
    × (phase first.status ≤ phase r'.status)
after_all-phase_example = after_all-phase 4 life journal id first found

abbrev done : OrderIntent ℕ
done = record first { status = filled; accepted_at = some 7; filled_at = some 9 }

abbrev submitted : OrderIntent ℕ
submitted = record first { status = submitting; updated_at = 101; submitted_at = some 101 }

submit : transition id "SUBMITTING" [] 101 journal ≡ (ok submitted, submitted ∷ [])
unfolding transition transaction move update_row moved assign_all select_id replace parse_status
    may_move new_intent
submit = refl
