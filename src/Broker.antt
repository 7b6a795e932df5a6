-- ===== src/Broker.antt =====
-- The broker adapter (core/broker.py) above the MetaTrader 5 package, whose answers are arguments:
-- the connection to the terminal with its retry policy (core/retry_policy.py), and the close of a
-- position.
pub mod Connection
pub mod Close
