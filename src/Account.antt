-- ===== src/Account.antt =====
-- What is scoped to a whole broker account: core/account_position_service.py and, above it,
-- risk/account_state_store.py and risk/account_monitor.py.
pub mod Broker
pub mod Positions
pub mod Value
pub mod State
pub mod Monitor
