-- ===== src/Tests.antt =====
-- Tests of the models on concrete inputs, and each theorem at an input that meets its hypotheses.
mod Intents
mod Accounts
mod Guards
mod States
mod Monitors
mod Orders
mod Risks
mod Backtests
mod Runtimes
mod Brokers
