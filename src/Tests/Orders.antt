-- ===== src/Tests/Orders.antt =====
-- Two bots that get the same signal (core/order_executor.py).
use trading_snapshot.Base.{true, false, none, some, List, [], ◌∷◌, ◌≡◌, refl, length}
use trading_snapshot.Base.Int.{ℤ, pos, ◌-ℤ◌, ◌*ℤ◌}
use trading_snapshot.Base.Float
use trading_snapshot.Base.Float.{whole}
use trading_snapshot.Intent.Row
use trading_snapshot.Intent.Row.{SignalKey}
use trading_snapshot.Intent.Status
use trading_snapshot.Intent.Store
use trading_snapshot.Intent.Table
use trading_snapshot.Intent.Run
use trading_snapshot.Intent.Run.{ready}
use trading_snapshot.Order.Plan
use trading_snapshot.Order.Plan.{
  Signal, ExecutionConfig, Quote, Order, RiskAnswers, submits, plan_order,
}
use trading_snapshot.Order.Plan.Bounds.{Chosen, IsChecked, plan_order-IsChecked}
use trading_snapshot.Order.Execute
use trading_snapshot.Order.Execute.{State, Meets, Submission}
use trading_snapshot.Order.Execute.Ahead.{IsWrittenAhead, submit-IsWrittenAhead}
use trading_snapshot.Order.Execute.History.{Asked, executed, IsDistinct, executed-IsDistinct}

abbrev key : SignalKey
key = record { account_id = "FTMO::1"; strategy_id = "xau"; signal_id = "s1" }

abbrev config : ExecutionConfig whole
config = record {
  no_tp_model = true;
  custom_stop_model = false;
  max_slippage_as_stop_fraction = pos 1;
}

abbrev quote : Quote whole
quote = record { bid = pos 100; ask = pos 101 }

-- One lot, and margin enough.
abbrev risk : RiskAnswers whole
risk = record {
  calculate_position_size = λ entry sl. some (pos 1);
  size_reason = "invalid position size";
  validate_margin_for_order = λ lot entry sl. none;
}

abbrev signal : Signal whole
signal = record {
  side = "BUY";
  expected_entry = pos 100;
  stop_distance = pos 10;
  tp_distance = none;
  stop_price = none;
}

abbrev sent : Order whole
sent = record { volume = pos 1; sl = pos 91; tp = pos 0 }

planned : plan_order whole config risk signal (some quote) ≡ submits sent
unfolding plan_order Plan.plan_stop Plan.choose_stop Plan.size_order Float.abs ◌-ℤ◌ ◌*ℤ◌
planned = refl

plan_order-IsChecked_example :
    (q : Quote whole) × (market : ℤ) × (some quote ≡ some q)
    × Chosen whole config risk signal q.ask q.bid market
    × IsChecked whole config risk signal market sent
plan_order-IsChecked_example =
    plan_order-IsChecked whole config risk signal (some quote) sent planned

abbrev first : Meets whole
first = record {
  attempts = 2;
  connection = λ _ _. ready;
  clock = λ i. 100;
  intent_id = "0123456789abcdef0123";
  key = key;
  symbol = "XAUUSD";
  config = config;
  has_position = false;
  quote = some quote;
  risk = risk;
  request = none;
  reply = Execute.send_raised "timeout";
  lookup = Execute.invisible;
  found = Execute.nowhere;
}

abbrev second : Meets whole
second = record first { intent_id = "fedcba98765432100000" }

abbrev start : State whole
start = record { journal = []; submitted = [] }

abbrev asked : List (Asked whole)
asked = (first, signal) ∷ (second, signal) ∷ []

executed-IsDistinct_example : IsDistinct whole (executed whole asked start).submitted
executed-IsDistinct_example = executed-IsDistinct whole asked start tt tt

-- The first bot submits, and the answer is lost; the second only asks the broker.
one_order : length (executed whole asked start).submitted ≡ 1
unfolding executed Execute.execute_signal Execute.store Execute.claimed_answer Execute.reconcile_one
    Execute.resolve Execute.pursue Execute.follow Execute.submit Execute.send Execute.settle_reply
    plan_order Plan.plan_stop Plan.choose_stop Plan.size_order Float.abs ◌-ℤ◌ ◌*ℤ◌ Run.run
    Run.run_from Store.claim_signal Store.claim_body Store.set_request Store.transition Store.move
    Store.moved Store.assign_all Store.assign Table.transaction Table.select_signal Table.select_id
    Table.select_active Table.earliest Table.active_for Table.insert_row Table.update_row
    Table.replace Row.new_intent Row.client_reference_of Row.take_chars Row.same_signal
    Row.conflicts Status.parse_status Status.may_move Status.is_active
one_order = refl

abbrev intent : Row.OrderIntent ℤ
intent = Row.new_intent "0123456789abcdef0123" key "XAUUSD" "BUY" 100

abbrev claimed : State whole
claimed = record { journal = intent ∷ []; submitted = [] }

submit-IsWrittenAhead_example :
    IsWrittenAhead whole first intent claimed (Execute.submit whole first intent sent claimed)
submit-IsWrittenAhead_example = submit-IsWrittenAhead whole first intent sent claimed
