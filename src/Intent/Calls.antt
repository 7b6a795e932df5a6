-- ===== src/Intent/Calls.antt =====
-- Sequences of calls of the journal, by any processes that share it
-- (core/order_intent_store.py). SQLite serialises the transactions, so a history is a list.
pub mod Effect
pub mod Ops
pub mod History
use trading_snapshot.Base.{ℕ, String, Option, List, [], ◌∷◌}
use trading_snapshot.Intent.Row.{OrderIntent, SignalKey, Value}
use trading_snapshot.Intent.Table.{Table}
use trading_snapshot.Intent.Store
use trading_snapshot.Intent.Run.{Connection, run}

pub data Call (R : Type 0) : Type 0 where
  get_or_create claim_signal : String → SignalKey → String → String → ℕ → Call R
  transition : String → String → List (Value R) → ℕ → Call R
  set_request : String → R → R → R → Option String → ℕ → Call R

-- A call, and what SQLite answers at each of its attempts.
pub record Served (R : Type 0) : Type 0 where
  pub call : Call R
  pub env : ℕ → Connection

module _ {R : Type 0} where
  -- The table after the call, whether it returned or raised. An unknown status raises before
  -- any connection is opened.
  unfoldable pub after : ℕ → (ℕ → Connection) → Call R → Table R → Table R
  after attempts env (Call.get_or_create id key symbol side now) t =
      (run attempts env (Store.get_or_create id key symbol side now) t).1
  after attempts env (Call.claim_signal id key symbol side now) t =
      (run attempts env (Store.claim_signal id key symbol side now) t).1
  after attempts env (Call.transition id status values now) t =
      (run attempts env (Store.transition id status values now) t).1
  after attempts env (Call.set_request id volume sl tp request now) t =
      (run attempts env (Store.set_request id volume sl tp request now) t).1

  unfoldable pub after_all : ℕ → List (Served R) → Table R → Table R
  after_all attempts [] t = t
  after_all attempts (c ∷ cs) t = after_all attempts cs (after attempts c.env c.call t)
