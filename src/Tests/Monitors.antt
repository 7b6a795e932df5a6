-- ===== src/Tests/Monitors.antt =====
-- The account monitor (risk/account_monitor.py) with the kill switch over a broker that closes
-- whatever it is asked to.
use trading_snapshot.Base.{ℕ, String, true, false, none, some, List, [], ◌∷◌, ◌≡◌, refl}
use trading_snapshot.Base.Int.{pos, ◌-ℤ◌, ◌*ℤ◌}
use trading_snapshot.Base.Float.{whole}
use trading_snapshot.Account.Broker.{Broker, positions, gone}
use trading_snapshot.Account.Value.{positive_number}
use trading_snapshot.Account.State
use trading_snapshot.Account.State.{AccountState, Db, World, broken}
use trading_snapshot.Account.Monitor.{
  Cause, account_breach, halted_by_sibling, store_unavailable, reset_blocked, breach_name, Switch,
  running, blank, Rules, Meets,
}
use trading_snapshot.Account.Monitor.Wiring.{wired}
use trading_snapshot.Account.Monitor.Check
use trading_snapshot.Account.Monitor.Check.{Monitor, check, propagate_halt, flattening, hold_halt}
use trading_snapshot.Account.Monitor.Check.Safety.{stops}
use trading_snapshot.Account.Monitor.Check.Verdict.{check-safe}
use trading_snapshot.Account.Monitor.Startup.{Startup, Starting, perform_startup_reset}
use trading_snapshot.Account.Monitor.Startup.Flat.{IsCautious, perform_startup_reset-IsCautious}
use trading_snapshot.Tests.States.{at, seen_db}

abbrev obliging : Broker
obliging = record {
  State = List ℕ;
  list_all_positions = λ s. (positions s, s);
  close_position_by_ticket = λ t s. (gone, []);
  done = pos 10009;
}

abbrev text_of : Cause → String
text_of (account_breach b) = breach_name b
text_of (halted_by_sibling _) = "ACCOUNT_HALTED_BY_SIBLING"
text_of store_unavailable = "ACCOUNT_STATE_STORE_UNAVAILABLE"
text_of reset_blocked = "ACCOUNT_RESET_BLOCKED"

abbrev kill : Switch
kill = wired obliging text_of

abbrev rules : Rules whole
rules = record {
  max_dd_percent = some (pos 1000);
  hard_dd_percent = some (pos 5000);
  profit_target_percent = none;
  profit_warning_percent = none;
  starting_equity = none;
}

abbrev watching : Monitor whole kill
watching = record {
  state = blank false none;
  halt_health = running;
  last_alert_at = λ _. none;
  logs = [];
  switch = (
    record {
      has_alerts = true;
      triggered = false;
      reason = none;
      desync_failures = 0;
      broker_failures = 0;
      max_desync_failures = 3;
      max_broker_failures = 3;
      sent = [];
    },
    7 ∷ [],
  );
  db = seen_db;
}

abbrev meets : Meets whole
meets = record {
  equity = some (pos 90);
  balance = some (pos 100);
  on_read = at (pos 10);
  on_record = at (pos 10);
  on_halt = at (pos 10);
  now = pos 1000;
}

-- A drawdown of 30 points from the peak of 120, which whole numbers read as 3000.
breached : (check whole kill rules meets watching).0.breach ≡ some "DD_BREACH"
unfolding check Check.check_answer Check.observe_equity Check.record_answer Check.measured
    Check.apply_breach Check.handle_breach Check.handle_answer Check.report State.read_state
    State.record_equity State.halt State.in_transaction State.transaction State.read_or_migrate
    State.observed State.halted_state ◌-ℤ◌ ◌*ℤ◌ positive_number
breached = refl

check-safe_example :
    (stops (check whole kill rules meets watching).0.action ≡ true
      → kill.triggered (check whole kill rules meets watching).1.switch ≡ true)
    × ((check whole kill rules meets watching).0.halted
        ≡ stops (check whole kill rules meets watching).0.action)
check-safe_example = check-safe whole kill rules meets watching (λ h. h)

abbrev cut_off : Meets whole
cut_off = record meets { on_read = record (at (pos 10)) { connection = λ _. broken } }

-- An operator asks for a reset while position 7 is open.
abbrev asked : Startup whole kill
asked = record {
  token = 114 ∷ 49 ∷ [];
  listing = positions (7 ∷ []);
  equity = some (pos 90);
  balance = none;
  starting_equity = none;
  on_reset = at (pos 10);
  consumed = true;
}

abbrev starting : Starting whole kill
starting = record { reset_flag = some true; monitor = watching }

perform_startup_reset-IsCautious_example :
    IsCautious whole kill asked starting (perform_startup_reset whole kill asked starting)
perform_startup_reset-IsCautious_example =
    perform_startup_reset-IsCautious whole kill asked starting
