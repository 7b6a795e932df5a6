-- ===== src/Tests/Brokers.antt =====
-- The broker adapter on whole numbers (core/broker.py, core/retry_policy.py).
use trading_snapshot.Base.{
  ℕ, zero, suc, Bool, true, false, Option, none, some, List, [], ◌∷◌, ◌≡◌, refl, arith,
}
use trading_snapshot.Base.Int.{ℤ, pos, ◌+ℤ◌, ◌*ℤ◌}
use trading_snapshot.Base.Float.{whole, min}
use trading_snapshot.Broker.Connection.{connected, circuit_open, RetryPolicy, post_init, Connection}
use trading_snapshot.Broker.Connection.Circuit.{Step, ensures, after_all}
use trading_snapshot.Broker.Close.{
  sell, answered, Request, Attempt, Position, Market, send_close_with_retry,
  close_position_by_ticket,
}
use trading_snapshot.Broker.Close.Gone.{Seen, may_change, ends, closes, refuses, waits, sees}
use trading_snapshot.Broker.Close.Refines.{Closes, send_close_with_retry-Closes}

abbrev policy : RetryPolicy whole
policy = record {
  reconnect_attempts = 2;
  reconnect_initial_backoff_sec = pos 1;
  reconnect_backoff_multiplier = pos 2;
  reconnect_max_backoff_sec = pos 15;
  reconnect_circuit_cooldown_sec = pos 60;
  operation_attempts = 3;
  operation_backoff_sec = pos 1;
  history_attempts = 2;
  history_backoff_sec = pos 1;
  position_visibility_poll_sec = pos 1;
  intent_history_lookback_sec = pos 600;
}

abbrev pow : ℤ → ℕ → ℤ
pow x zero = pos 1
pow x (suc n) = pow x n *ℤ x

accepted_policy : post_init whole policy ≡ none
unfolding post_init
accepted_policy = refl

abbrev online : Connection whole
online = record {
  state = connected;
  reconnect_failures = 0;
  next_reconnect_at = pos 0;
  reconnect_required = false;
  events = [];
}

abbrev at : ℕ → Bool → Step whole pow policy
at now initializes = ensures (record { now = pos now; healthy = false; initializes = initializes })

-- two failed initializations open the circuit
abbrev outage : List (Step whole pow policy)
outage = at 10 false ∷ at 11 false ∷ []

opens : (after_all whole pow policy outage online).state ≡ circuit_open
unfolding after_all ◌+ℤ◌ ◌*ℤ◌ min
opens = refl

abbrev round : ℤ → ℕ → ℤ
round x digits = x

abbrev order : Request whole
order = record {
  symbol = "EURUSD";
  volume = pos 5;
  side = sell;
  position = 7;
  price = pos 100;
  deviation = 20;
  magic = 11;
  type_filling = 1;
}

-- a requote, then a remainder of 2 that the second order closes
abbrev answers : ℕ → Attempt whole
answers attempt = record {
  positions =
      some
        (record { ticket = 7; symbol = "EURUSD"; is_long = true; volume = pos 2; magic = 11 } ∷ []);
  result = elim attempt [ zero ↦ none | suc n ↦ elim n [ zero ↦ some 10004 | suc m ↦ some 10009 ] ];
  market = record { tick = some (record { bid = pos 99; ask = pos 101 }); digits = some 5 };
}

closed_second : (send_close_with_retry whole round 10009 3 answers sell order).0 ≡ answered 10009
unfolding send_close_with_retry
closed_second = refl

send_close_with_retry-Closes_example :
    Closes whole round 10009 order 3
      (pos 5)
      (send_close_with_retry whole round 10009 3 answers sell order).1
      (send_close_with_retry whole round 10009 3 answers sell order).0
send_close_with_retry-Closes_example =
    send_close_with_retry-Closes whole round 10009 3 answers sell order (omega arith)

-- one close of position 7, from the query for it: an order of 5, then one of the 2 that are left
abbrev opened : Option (List (Position whole))
opened =
    some (record { ticket = 7; symbol = "EURUSD"; is_long = true; volume = pos 5; magic = 11 } ∷ [])

abbrev quotes : Market whole
quotes = record { tick = some (record { bid = pos 100; ask = pos 102 }); digits = some 5 }

closes_in_two :
    Seen whole round 10009 7
      (some (pos 5))
      (close_position_by_ticket whole round 10009 3 20 1 quotes answers opened).1
      none
unfolding close_position_by_ticket
closes_in_two = sees _ _ (
    refuses _ 10004 refl (may_change _ (some (pos 2)))
      (waits (may_change _ (some (pos 2))) (sees _ _ (closes _ (pos 2) refl refl ends))))
