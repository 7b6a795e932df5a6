-- ===== src/Risk.antt =====
-- The risk gate of one strategy: how a position is sized (risk/position_sizer.py) and when a new
-- trade may be opened or an open one kept (risk/risk_manager.py).
pub mod Number
pub mod Sizer
pub mod Margin
pub mod Gate
pub mod Position
