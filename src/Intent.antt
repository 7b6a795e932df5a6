-- ===== src/Intent.antt =====
-- The durable journal of order intents, core/order_intent_store.py.
pub mod Status
pub mod BrokerId
pub mod Row
pub mod Table
pub mod Store
pub mod Run
pub mod Keys
pub mod Select
pub mod Calls
pub mod Claims
pub mod Transition
