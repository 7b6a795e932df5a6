-- ===== src/Broker/Connection.antt =====
-- `ensure_connection` of Broker (core/broker.py) for the owner of the connection, and RetryPolicy
-- (core/retry_policy.py). One call advances the state once; whether the terminal is healthy and
-- whether it initializes are answers of the MetaTrader 5 package.
pub mod Circuit
use trading_snapshot.Base.{
  ℕ, suc, ◌+◌, ◌-◌, Bool, true, false, not, ◌&&◌, ◌||◌, Option, none, some, List, [], ◌∷◌, any, ltb,
  leb, if◌then◌else◌,
}
use trading_snapshot.Base.Float.{Floats, min}

pub data ConnectionState : Type 0 where
  connected disconnected reconnecting circuit_open : ConnectionState

abbrev pub is_connected : ConnectionState → Bool
is_connected connected = true
is_connected disconnected = false
is_connected reconnecting = false
is_connected circuit_open = false

abbrev pub is_circuit_open : ConnectionState → Bool
is_circuit_open circuit_open = true
is_circuit_open connected = false
is_circuit_open disconnected = false
is_circuit_open reconnecting = false

pub data PolicyError : Type 0 where
  attempts_below_one negative_duration multiplier_below_one : PolicyError

pub data Event : Type 0 where
  broker_reconnected broker_connection_lost broker_circuit_half_open : Event
  broker_reconnect_exhausted broker_reconnect_scheduled broker_trade_connection_lost : Event
  -- `mt5.shutdown()` and `_initialize_terminal()`
  initialized : Event

module _ (fs : Floats) where
  open fs use {F, zero_f, one_f, add, mul, lt}

  pub record RetryPolicy : Type 0 where
    pub reconnect_attempts : ℕ
    pub reconnect_initial_backoff_sec : F
    pub reconnect_backoff_multiplier : F
    pub reconnect_max_backoff_sec : F
    pub reconnect_circuit_cooldown_sec : F
    pub operation_attempts : ℕ
    pub operation_backoff_sec : F
    pub history_attempts : ℕ
    pub history_backoff_sec : F
    pub position_visibility_poll_sec : F
    pub intent_history_lookback_sec : F

  -- `__post_init__`, where `none` is a policy that is accepted
  unfoldable pub post_init : RetryPolicy → Option PolicyError
  post_init p =
      if ltb p.reconnect_attempts 1 || ltb p.operation_attempts 1 || ltb p.history_attempts 1
      then some attempts_below_one
      else if any (λ x. lt x zero_f)
          (p.reconnect_initial_backoff_sec ∷ p.reconnect_max_backoff_sec
            ∷ p.reconnect_circuit_cooldown_sec ∷ p.operation_backoff_sec ∷ p.history_backoff_sec
            ∷ p.position_visibility_poll_sec ∷ p.intent_history_lookback_sec ∷ [])
      then some negative_duration
      else if lt p.reconnect_backoff_multiplier one_f
      then some multiplier_below_one
      else none

  -- `pow` is `**`; subtraction stops at 0 as `max(0, failed_attempt - 1)` does
  unfoldable pub reconnect_delay : (F → ℕ → F) → RetryPolicy → ℕ → F
  reconnect_delay pow p failed_attempt =
      min fs
        (mul p.reconnect_initial_backoff_sec
          (pow p.reconnect_backoff_multiplier (failed_attempt - 1)))
        p.reconnect_max_backoff_sec

  pub record Connection : Type 0 where
    pub state : ConnectionState
    pub reconnect_failures : ℕ
    pub next_reconnect_at : F
    pub reconnect_required : Bool
    -- newest first
    pub events : List Event

  abbrev pub emit : Event → Connection → Connection
  emit e c = record c { events = e ∷ c.events }

  -- a healthy terminal that needs no reinitialization
  unfoldable pub healthy_now : Connection → Connection
  healthy_now c = record {
    state = connected;
    reconnect_failures = 0;
    next_reconnect_at = zero_f;
    reconnect_required = c.reconnect_required;
    events = if is_connected c.state then c.events else broker_reconnected ∷ c.events;
  }

  unfoldable pub lose : F → Connection → Connection
  lose now c =
      if is_connected c.state
      then record c {
        state = disconnected;
        next_reconnect_at = now;
        events = broker_connection_lost ∷ c.events;
      }
      else c

  unfoldable pub half_open : Connection → Connection
  half_open c =
      if is_circuit_open c.state
      then record c {
        state = disconnected;
        reconnect_failures = 0;
        events = broker_circuit_half_open ∷ c.events;
      }
      else c

  abbrev pub reinitialized : Connection → Connection
  reinitialized c = record {
    state = connected;
    reconnect_failures = 0;
    next_reconnect_at = zero_f;
    reconnect_required = false;
    events = broker_reconnected ∷ initialized ∷ c.events;
  }

  abbrev pub exhausted : F → RetryPolicy → Connection → Connection
  exhausted now p c = record c {
    state = circuit_open;
    reconnect_failures = suc c.reconnect_failures;
    next_reconnect_at = add now p.reconnect_circuit_cooldown_sec;
    events = broker_reconnect_exhausted ∷ initialized ∷ c.events;
  }

  abbrev pub scheduled : (F → ℕ → F) → F → RetryPolicy → Connection → Connection
  scheduled pow now p c = record c {
    state = disconnected;
    reconnect_failures = suc c.reconnect_failures;
    next_reconnect_at = add now (reconnect_delay pow p (suc c.reconnect_failures));
    events = broker_reconnect_scheduled ∷ initialized ∷ c.events;
  }

  -- shutdown and one initialization, and what follows its answer
  unfoldable pub reconnect : (F → ℕ → F) → RetryPolicy → F → Bool → Connection → Bool × Connection
  unfolding reconnect_delay
  reconnect pow p now initializes c =
      if initializes
      then (true, reinitialized c)
      else if leb p.reconnect_attempts (suc c.reconnect_failures)
      then (false, exhausted now p c)
      else (false, scheduled pow now p c)

  -- the answers of the package at one call
  pub record Call : Type 0 where
    pub now : F
    pub healthy : Bool
    pub initializes : Bool

  unfoldable pub ensure_connection :
      (F → ℕ → F) → RetryPolicy → Call → Connection → Bool × Connection
  unfolding healthy_now lose half_open reconnect
  ensure_connection pow p k c =
      if not c.reconnect_required && k.healthy
      then (true, healthy_now c)
      else if lt k.now (lose k.now c).next_reconnect_at
      then (false, lose k.now c)
      else reconnect pow p k.now k.initializes (half_open (lose k.now c))

  unfoldable pub can_submit_new_orders : Bool → Connection → Bool
  can_submit_new_orders healthy c = is_connected c.state && healthy

  unfoldable pub require_reconnect : F → Connection → Connection
  require_reconnect now c = record {
    state = disconnected;
    reconnect_failures = c.reconnect_failures;
    next_reconnect_at = now;
    reconnect_required = true;
    events = broker_trade_connection_lost ∷ c.events;
  }

  -- `send_market_order` sends only while connected; the answer 10031 is a lost connection
  unfoldable pub order_lost : Bool → F → Connection → Connection
  unfolding can_submit_new_orders require_reconnect
  order_lost healthy now c = if can_submit_new_orders healthy c then require_reconnect now c else c
