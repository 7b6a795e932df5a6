-- ===== src/Account/Broker.antt =====
-- The broker adapter (core/broker.py) as AccountPositionService and AccountMonitor call it. It
-- talks to the MT5 terminal, so it is an interface: each method is a function of the state of
-- the account at the broker.
use trading_snapshot.Base.{ℕ, String, Option, List}
use trading_snapshot.Base.Int.{ℤ}

-- `list_all_positions` returns the tickets of all open positions or raises.
pub data Listing : Type 0 where
  positions : List ℕ → Listing
  query_failed : String → Listing

-- What `close_position_by_ticket` returns or raises.
pub data CloseReply : Type 0 where
  -- PositionQueryError, and any other exception
  query_error : String → CloseReply
  unexpected : String → CloseReply
  -- AlreadyClosedPosition
  gone : CloseReply
  -- None
  no_result : CloseReply
  -- an MT5 result: its retcode, if it has one, and the context that `_result_context` prints
  result : Option ℤ → String → CloseReply

pub record Broker : Type 1 where
  pub State : Type 0
  pub list_all_positions : State → Listing × State
  pub close_position_by_ticket : ℕ → State → CloseReply × State
  -- `trade_retcode_done`
  pub done : ℤ
