-- ===== src/Guard.antt =====
-- The guards of the runner, guards/*.py. Each is an object with mutable fields: a record, and
-- methods that return the new record.
pub mod Kill
pub mod Execution
pub mod Market
pub mod Session
