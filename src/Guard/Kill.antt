-- ===== src/Guard/Kill.antt =====
-- KillSwitch (guards/kill_switch.py). Messages are kept as data instead of formatted text.
pub mod Latch
use trading_snapshot.Base.{
  ℕ, zero, ◌+◌, String, Bool, true, false, not, Option, none, some, List, [], ◌∷◌, ◌++◌, ltb, leb,
  if◌then◌else◌,
}
use trading_snapshot.Account.Broker.{Broker}
use trading_snapshot.Account.Positions.{FlattenResult, is_flat, flatten_account}

pub data Note : Type 0 where
  triggered_note : String → Note
  desync_note broker_note : ℕ → ℕ → Note
  desync_reset broker_reset manual_reset : Note
  flatten_complete flatten_incomplete : FlattenResult → Note

-- What leaves the object: a line on the console, or a call of the alerts object.
pub data Sent : Type 0 where
  printed info : Note → Sent
  system_issue : Option String → Sent
  critical : Note → Sent

pub record KillSwitch : Type 0 where
  -- `self.alerts` is an object, and not None
  pub has_alerts : Bool
  pub triggered : Bool
  pub reason : Option String
  pub desync_failures : ℕ
  pub broker_failures : ℕ
  pub max_desync_failures : ℕ
  pub max_broker_failures : ℕ
  pub sent : List Sent

-- A method returns None, or raises the AttributeError of a call on `None`.
pub data Ended : Type 0 where
  returned attribute_error : Ended

abbrev pub log : Note → KillSwitch → KillSwitch
log n k = record k { sent = k.sent ++ (if k.has_alerts then info n else printed n) ∷ [] }

-- `_send_alert` calls the alerts object with no test for None.
unfoldable pub send_alert : KillSwitch → KillSwitch × Ended
send_alert k =
    if k.has_alerts
    then (record k { sent = k.sent ++ system_issue k.reason ∷ [] }, returned)
    else (k, attribute_error)

unfoldable pub trigger : String → KillSwitch → KillSwitch × Ended
unfolding send_alert
trigger reason k =
    if k.triggered
    then (k, returned)
    else send_alert
        (log (triggered_note reason) (record k { triggered = true; reason = some reason }))

unfoldable pub register_desync : KillSwitch → KillSwitch × Ended
unfolding trigger
register_desync k =
    let counted : KillSwitch = record k { desync_failures = k.desync_failures + 1 } in
    let logged = log (desync_note counted.desync_failures k.max_desync_failures) counted in
    if leb k.max_desync_failures logged.desync_failures
    then trigger "REPEATED POSITION DESYNC" logged
    else (logged, returned)

unfoldable pub reset_desync : KillSwitch → KillSwitch
reset_desync k =
    let logged = if ltb 0 k.desync_failures then log desync_reset k else k in
    record logged { desync_failures = 0 }

unfoldable pub register_broker_failure : KillSwitch → KillSwitch × Ended
unfolding trigger
register_broker_failure k =
    let counted : KillSwitch = record k { broker_failures = k.broker_failures + 1 } in
    let logged = log (broker_note counted.broker_failures k.max_broker_failures) counted in
    if leb k.max_broker_failures logged.broker_failures
    then trigger "REPEATED BROKER FAILURES" logged
    else (logged, returned)

unfoldable pub reset_broker_failures : KillSwitch → KillSwitch
reset_broker_failures k =
    let logged = if ltb 0 k.broker_failures then log broker_reset k else k in
    record logged { broker_failures = 0 }

-- `flatten_all` closes every position of the account and reports what is left.
unfoldable pub flatten_report : Bool → FlattenResult → KillSwitch → KillSwitch
flatten_report quiet r k =
    if quiet
    then k
    else if is_flat r
    then log (flatten_complete r) k
    else (let logged = log (flatten_incomplete r) k in
        if k.has_alerts
        then record logged { sent = logged.sent ++ critical (flatten_incomplete r) ∷ [] }
        else logged)

unfoldable pub flatten_all :
    (b : Broker) → String → Bool → b.State → KillSwitch → FlattenResult × b.State × KillSwitch
flatten_all b reason quiet s k =
    let (r, s') = flatten_account b reason s in (r, s', flatten_report quiet r k)

unfoldable pub can_trade : KillSwitch → Bool
can_trade k = not k.triggered

unfoldable pub reset : KillSwitch → KillSwitch
reset k =
    log manual_reset
      (record k { triggered = false; reason = none; desync_failures = 0; broker_failures = 0 })
