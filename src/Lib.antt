-- ===== src/Lib.antt =====
-- Trading snapshot: models and proofs for the safety core of the live trading bots and for the
-- backtester of the research code. The paths below stand under source_snapshots/live_trading/, those
-- of the backtester under source_snapshots/trading_research/. Each bot process places the orders of
-- one strategy through a journal of intents, and the processes of an account share the journal and
-- the account's risk state through SQLite. An order passes the risk gate, is sized and planned,
-- claimed in the journal, written ahead and sent through the broker adapter; the guards and the
-- account monitor stop it before that.
--
-- The parts and where they are modelled:
--   * Intent (core/order_intent_store.py): the journal of order intents. Intent/Status has the
--     statuses and `_TRANSITIONS`; Intent/Row the row; Intent/Table the SQL statements over a list
--     of rows; Intent/Store the methods (get_or_create, claim_signal, get, get_active,
--     list_reconcilable, set_request, transition); Intent/Run the retry loop `_run`;
--     Intent/BrokerId `_normalise_broker_id`. Intent/Calls runs whole sequences of calls from any
--     number of processes, which SQLite serialises; Intent/Claims and Intent/Transition give the
--     outcomes of one call.
--   * Account/Positions (core/account_position_service.py): flattening a whole account, over the
--     interface of a broker in Account/Broker.
--   * Account/State (risk/account_state_store.py): the row of an account, the audit of its resets,
--     `_transaction` and the operations; Account/Value has the checks of values, and
--     Account/State/Legacy the migration of the older JSON file. Account/State/Calls runs sequences
--     of calls: each call leaves the database or makes one `Write`; Account/State/Sound adds what the
--     older file contributes.
--   * Account/Monitor (risk/account_monitor.py): breaches, `check`, `recover_persisted_halt` and
--     `perform_startup_reset`, over the state store and an interface of the kill switch, which
--     Account/Monitor/Wiring fills with the model of guards/kill_switch.py.
--   * Guard/Kill, Guard/Execution, Guard/Market and Guard/Session (guards/*.py): the guards that a
--     bot asks before it sends an order.
--   * Order (core/order_executor.py): Order/Plan is the decision of `execute_signal` between claim
--     and submission, Order/Execute the protocol over the journal: claim, SUBMITTING, send, and what
--     follows each answer, with `_reconcile_one`. Order/Execute/History runs any number of calls.
--   * Risk (risk/position_sizer.py, risk/risk_manager.py): Risk/Sizer is `calculate_lot`;
--     Risk/Margin and Risk/Margin/Order the margin policy and `validate_margin_for_order`; Risk/Gate
--     `can_open_new_trade` with its locks and `status_snapshot`; Risk/Position
--     `validate_open_position`.
--   * Broker (core/broker.py, core/retry_policy.py): Broker/Connection is the retry policy and one
--     call of `ensure_connection`, with Broker/Connection/Circuit on sequences of calls;
--     Broker/Close is `close_position_by_ticket` down to `_send_close_with_retry`,
--     Broker/Close/Refines the protocol that it follows, and Broker/Close/Gone what MT5 documents of
--     the position meanwhile.
--   * Runtime (core/state_manager.py, core/state_schema.py): Runtime/Json has the values,
--     Runtime/Schema the default state and `migrate_state`, Runtime/Manager the file and the methods
--     of StateManager.
--   * Backtest (engine/backtester.py of the research code): Backtest/Bar is `_exit_for_bar`,
--     Backtest/Fill the fills and their costs, Backtest/Manage what one bar does to the open
--     positions, Backtest/Run the loop of `run_backtest`, Backtest/Metrics `compute_metrics`.
--   * Base: shared names, Boolean tests, lists, signed integers over the native numbers, and floats.
--   * Tests: short runs, and each theorem at a concrete input.
--
-- Choices. Python's floats are an interface (Base/Float): operations and the laws of IEEE
-- comparison, with whole numbers as an instance; NaN and the infinities are values of the carrier.
-- Timestamps of the journal and datetimes are natural numbers or microseconds. A call that raises
-- returns an error and the state it leaves; a transaction that raises is rolled back. What the
-- environment answers (the database at each attempt, the broker, a file, the clock) is an argument
-- of the call. Messages are kept as constructors instead of formatted text. SQLite's order of rows
-- without ORDER BY is that of insertion, and `ORDER BY created_at LIMIT 1` takes the first of the
-- oldest rows. Rounding in the sizer (`math.floor`, `round`) is an interface with whole numbers as an
-- instance. An object of JSON is the list of its members; `==` of two dicts, and how JSON is written
-- and read, are parameters. In the backtester the strategy, which sees the whole frame, numpy and
-- the cost hooks are parameters, timestamps are whole nanoseconds, and the lists of trades and of
-- equity have the newest first; the bar interval is inferred from the frame as the source does. What
-- the MetaTrader 5 package answers at one attempt or call is a record.
--
-- Loops. The retry loops count down the configured attempts, so they need no fuel; printing a number
-- takes the number itself as fuel, which is at least its digits. The backtester recurses on the list
-- of bars, and the merge of default values on the default document.
--
-- Not modelled: connecting, PRAGMAs and schema setup of SQLite, the two schema repairs of the
-- journal, JSON encoding, logging, sleeping, and an interleaving of another process between the two
-- transactions of one check of the account monitor, or of another bot between the
-- journal calls of one execute_signal; the executor's callbacks of the strategy, its logs and the
-- trade log that `_mark_filled` writes. Of the broker adapter: connecting, sending a market order,
-- modifying a stop and searching for the execution of an intent. Of the research code: the replay
-- engine, the rollover units of the cost model, the optimizer, the data downloads, reports and
-- strategies, which are mostly pandas. The position manager, the trade journal, the hub, the
-- configuration and the live strategies are not modelled.
pub mod Account
pub mod Backtest
pub mod Base
pub mod Broker
pub mod Guard
pub mod Intent
pub mod Order
pub mod Risk
pub mod Runtime
pub mod Tests
