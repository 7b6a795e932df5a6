-- ===== src/Backtest.antt =====
-- The backtester of the research tree (trading_research/engine/backtester.py): how a bar closes a
-- position, how a signal is filled, the loop over the bars, and the metrics of its trades.
pub mod Bar
pub mod Fill
pub mod Manage
pub mod Run
pub mod Metrics
