-- ===== src/Guard/Execution.antt =====
-- ExecutionGuard (guards/execution_guard.py). A datetime is its number of microseconds, and the
-- configured seconds are given in microseconds, so a timedelta is a signed integer.
pub mod Throttle
use trading_snapshot.Base.{ℕ, Bool, true, false, Option, none, some, not, ◌&&◌, if◌then◌else◌}
use trading_snapshot.Base.Int.{ℤ, ◌-ℤ◌, ltb_ℤ, leb_ℤ}

pub record Config : Type 0 where
  pub execution_cooldown : ℤ
  pub pending_timeout : ℤ

pub record ExecutionGuard : Type 0 where
  pub last_order_time : Option ℤ
  pub pending_execution : Bool
  pub pending_since : Option ℤ

abbrev pub initial : ExecutionGuard
initial = record { last_order_time = none; pending_execution = false; pending_since = none }

abbrev pub cooled_down : Config → Option ℤ → ℤ → Bool
cooled_down c none now = true
cooled_down c (some last) now = if ltb_ℤ (now -ℤ last) c.execution_cooldown then false else true

unfoldable pub can_send_order : Config → ExecutionGuard → ℤ → Bool
can_send_order c g now = if g.pending_execution then false else cooled_down c g.last_order_time now

unfoldable pub mark_order_sent : ℤ → ExecutionGuard → ExecutionGuard
mark_order_sent now g = record g {
  last_order_time = some now;
  pending_execution = true;
  pending_since = some now;
}

unfoldable pub mark_fill_success : ExecutionGuard → ExecutionGuard
mark_fill_success g = record g { pending_execution = false; pending_since = none }

unfoldable pub mark_order_failed : ExecutionGuard → ExecutionGuard
mark_order_failed g = record g { pending_execution = false; pending_since = none }

unfoldable pub reset : ExecutionGuard → ExecutionGuard
reset g = record g { pending_execution = false; pending_since = none }

-- `none` is the TypeError of a difference with None.
abbrev pub since : Config → Option ℤ → ℤ → Option Bool
since c none now = none
since c (some start) now = some (leb_ℤ c.pending_timeout (now -ℤ start))

unfoldable pub pending_timed_out : Config → ExecutionGuard → ℤ → Option Bool
pending_timed_out c g now =
    if not g.pending_execution then some false else since c g.pending_since now
