-- ===== src/Broker/Connection/Circuit.antt =====
-- The reconnect circuit of Broker (core/broker.py) over any sequence of calls.
use trading_snapshot.Base.{ℕ, ◌≤◌, ◌<◌, Bool, true, false, List, [], ◌∷◌, ◌≡◌}
use trading_snapshot.Base.Float.{Floats}
use trading_snapshot.Broker.Connection.{
  is_connected, is_circuit_open, RetryPolicy, Connection, Call, ensure_connection, order_lost,
}

module _ (fs : Floats) (pow : fs.F → ℕ → fs.F) (p : RetryPolicy fs) where
  open fs use {F, lt}

  -- What the owner of the connection goes through: a call, or an order whose answer is that the
  -- connection is lost.
  pub data Step : Type 0 where
    ensures : Call fs → Step
    loses : Bool → F → Step

  unfoldable pub after : Step → Connection fs → Connection fs
  unfolding ensure_connection order_lost
  after (ensures k) c = (ensure_connection fs pow p k c).1
  after (loses healthy now) c = order_lost fs healthy now c

  unfoldable pub after_all : List Step → Connection fs → Connection fs
  unfolding after
  after_all [] c = c
  after_all (k ∷ ks) c = after_all ks (after k c)

  -- No more failed initializations in a row than the policy's attempts, fewer unless the circuit is
  -- open, and none while connected.
  pub record IsCounted (c : Connection fs) : Type 0 where
    pub bounded : c.reconnect_failures ≤ p.reconnect_attempts
    pub shut : is_circuit_open c.state ≡ false → c.reconnect_failures < p.reconnect_attempts
    pub none_connected : is_connected c.state ≡ true → c.reconnect_failures ≡ 0
