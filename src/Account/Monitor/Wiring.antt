-- ===== src/Account/Monitor/Wiring.antt =====
-- The kill switch (guards/kill_switch.py) over a broker, as the switch that AccountMonitor takes
-- (risk/account_monitor.py): the bot's own wiring, with the alerts object there.
use trading_snapshot.Base.{String, Bool, true, ◌≡◌, arith}
use trading_snapshot.Account.Broker.{Broker}
use trading_snapshot.Guard.Kill.{KillSwitch, trigger, flatten_all, flatten_report}
use trading_snapshot.Account.Monitor.{Cause, Switch, flattened}

pub trigger-on : (reason : String) (k : KillSwitch) → (trigger reason k).0.triggered ≡ true
unfolding trigger
trigger-on reason k = ground arith

pub flatten_all-on :
    (b : Broker) (reason : String) (quiet : Bool) (s : b.State) (k : KillSwitch)
    → (flatten_all b reason quiet s k).2.triggered ≡ k.triggered
unfolding flatten_all flatten_report
flatten_all-on b reason quiet s k = ground arith

-- `text` writes the reason that a cause is reported with.
abbrev pub wired : Broker → (Cause → String) → Switch
wired b text = record {
  K = KillSwitch × b.State;
  triggered = λ q. q.0.triggered;
  trigger = λ c q. ((trigger (text c) q.0).0, q.1);
  flatten_all =
      λ reason quiet q. let (r, s, k) = flatten_all b reason quiet q.1 q.0 in (flattened r, (k, s));
  trigger-triggered = λ c q. trigger-on (text c) q.0;
  flatten-triggered = λ reason quiet q. flatten_all-on b reason quiet q.1 q.0;
}
