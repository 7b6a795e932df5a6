-- ===== src/Guard/Kill/Latch.antt =====
-- The kill switch (guards/kill_switch.py) is a latch: once triggered it stays triggered with its
-- first reason until a manual reset, whatever else is registered.
use trading_snapshot.Base.{
  ℕ, zero, suc, String, Bool, true, false, ◌||◌, some, List, [], ◌∷◌, if◌then◌else◌, ◌≡◌, refl, ◌∙◌,
  arith,
}
use trading_snapshot.Guard.Kill.{
  KillSwitch, returned, attribute_error, trigger, register_desync, reset_desync,
  register_broker_failure, reset_broker_failures, flatten_report, can_trade,
}
use trading_snapshot.Account.Positions.{FlattenResult}

-- The methods that the runner calls between two manual resets.
pub data Event : Type 0 where
  triggers : String → Event
  desync desync_ok broker_failure broker_ok : Event
  flattened : Bool → FlattenResult → Event

unfoldable pub step : Event → KillSwitch → KillSwitch
step (triggers reason) k = (trigger reason k).0
step desync k = (register_desync k).0
step desync_ok k = reset_desync k
step broker_failure k = (register_broker_failure k).0
step broker_ok k = reset_broker_failures k
step (flattened quiet r) k = flatten_report quiet r k

unfoldable pub steps : List Event → KillSwitch → KillSwitch
steps [] k = k
steps (e ∷ es) k = steps es (step e k)

step-latched :
    (e : Event) (k : KillSwitch)
    → k.triggered ≡ true
    → ((step e k).triggered ≡ true) × ((step e k).reason ≡ k.reason)
unfolding step trigger register_desync reset_desync register_broker_failure reset_broker_failures
    flatten_report
step-latched (triggers reason) k h = ground arith
step-latched _ k h = ground arith

-- A triggered switch forbids trading and keeps its first reason through any calls that are not a
-- manual reset.
pub steps-latched :
    (es : List Event) (k : KillSwitch)
    → k.triggered ≡ true
    → (can_trade (steps es k) ≡ false) × ((steps es k).reason ≡ k.reason)
unfolding steps can_trade
steps-latched [] k h = (rw h refl, refl)
steps-latched (e ∷ es) k h =
    let (on, why) = step-latched e k h in
    let (off, kept) = steps-latched es (step e k) on in (off, kept ∙ why)

-- After `trigger` trading is off, also where the missing alerts object makes the call raise; the
-- reason is the first one that was given.
pub trigger-latches :
    (reason : String) (k : KillSwitch)
    → (can_trade (trigger reason k).0 ≡ false)
      × ((trigger reason k).0.reason ≡ (if k.triggered then k.reason else some reason))
      × ((trigger reason k).1 ≡ (if k.triggered || k.has_alerts then returned else attribute_error))
unfolding trigger can_trade
trigger-latches reason k = ground arith

abbrev pub repeat : ℕ → Event → List Event
repeat zero e = []
repeat (suc n) e = e ∷ repeat n e
