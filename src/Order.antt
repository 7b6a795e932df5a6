-- ===== src/Order.antt =====
-- Placing an order for a signal (core/order_executor.py) over the intent journal.
pub mod Plan
pub mod Execute
