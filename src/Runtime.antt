-- ===== src/Runtime.antt =====
-- The runtime state of one strategy: the schema of its file and the migration of older layouts
-- (core/state_schema.py), and the manager that loads and saves it (core/state_manager.py).
pub mod Json
pub mod Schema
pub mod Manager
