-- ===== src/Lib.antt =====
-- HTA, a trading bot for a perpetuals exchange: two strategies turn quotes into target positions, a
-- capital allocator splits the equity between them, an order router turns a target into orders that
-- the risk manager must approve, a tracker caches what the exchange reports, a reconciler compares the
-- cache with the exchange, and a kill switch flattens the account.
--
-- The files and the code that they model:
--   Risk/Types, Risk/PostFill, Risk/Manager   src/risk/manager.py: `check_order` and its helpers
--   Risk/KillSwitch                           src/risk/kill_switch.py: `halt` and `resume`
--   Execution/Allocator                       src/execution/capital_allocator.py: `allocate`
--   Execution/Tracker                         src/execution/position_tracker.py: `refresh`
--   Execution/Reconciler                      src/execution/reconciler.py: `check_once`
--   Execution/RouterState, Sizing, Router     src/execution/order_router.py: `submit_target`
--   Execution/StaleOrders                     src/execution/order_router.py: `cancel_stale_orders`
--   Strategies/Capture, Funding, Scheduler    src/strategies/funding_capture.py: `evaluate`
--   Strategies/Target, Reversion              src/strategies/mean_reversion.py: `evaluate`
--   Marketdata/Candles                        src/marketdata/candle_store.py: `CandleStore`
--   Backtest/FundingSim                       src/backtest/funding_simulator.py: `simulate`, `aggregate`
--   Backtest/Simulator                        src/backtest/simulator.py: `_simulate_symbol`
--   Dashboard/Bus                             src/dashboard_api/bus.py: `Bus`
--   Backtest/Report, FundingReport            src/backtest/report.py, funding_report.py: the reports' lines
--   Backtest/Frames, Loader                   src/backtest/data_loader.py: the cache and the chunks
--   Backtest/FundingLoader                    src/backtest/funding_data_loader.py: the paged history
--   Storage/Payloads, Journal                 src/storage/journal.py: both tables, both writes
--   Dashboard/Tables, Equity, Stats, Queries  src/dashboard_api/queries.py: what the journal's tables answer
--   Dashboard/Auth, Routes                    src/dashboard_api/auth.py, routes.py, main.py: who is served what
--   Dashboard/Socket                          src/dashboard_api/ws.py: the life of a socket
--   Notify/Telegram                           src/notify/telegram.py: `CommandRouter` and the notifier
--   Execution/Adapter                         src/execution/exchange_adapter.py: how answers are read
--   Live/Heartbeat                            src/main.py: the heartbeat, the fallback tick service
--   Live/Config                               src/main.py: `LiveConfig`
--   Marketdata/Handlers                       src/marketdata/ws_client.py: handlers and subscriptions
--   Live/FundingTick                          src/main.py: `_funding_capture_tick` and the dispatch
--   Live/BarClose                             src/main.py: `_maybe_evaluate_symbol`
--   Marketdata/Client                         src/marketdata/ws_client.py: watchdog and backoff
--   Execution/Oracle                          src/execution/funding_rate_oracle.py: `refresh_once`
--   Execution/Starvation                      the allocator and the funding strategy, put together as
--                                             `_funding_capture_tick` of src/main.py does
-- Common, Decimal, Dict, Strings and Formatted hold what they share; Tests runs the definitions.
--
-- A method that changes its object is a function from the old state to the new, beside the exception
-- that leaves it where one can. The exchange, the journal, the notifier and the clocks are parameters:
-- records that say what each call answers (`Services`, `Pass`, `Market`), and the calls themselves go
-- into lists, in order, where their order matters. The life of a socket and of a connection is a sequence
-- of steps, each of one event. Loops are recursion on their list, but for the paging of the funding
-- history, which asks the exchange until its window is full: it is recursion on fuel, and a window of n
-- milliseconds has n + 1 of it. That is proved to be enough.
--
-- What is simplified. `Decimal`, and the finite floats of times and prices, are exact numbers: the
-- rounding of a result to 28 digits (or 53 bits), infinities and NaN are left out, and so is the
-- `InvalidOperation` that `quantize` raises on huge numbers. Every division stands behind a test that
-- excludes 0, except that of a drawdown by its running peak, which is taken not to be 0. A time is a
-- number of seconds, or of the milliseconds or microseconds that the code counts in. The text of a
-- reason is the list of its pieces, in which numbers stay values; so is a line of a report. A JSON
-- text is the dictionary that is read from it, and a frame of pandas the list of its rows. SQLite's
-- LIKE, `strftime`, the Sharpe ratio and every answer of the exchange are parameters. Letters and
-- white space are those of ASCII. Calls run one after the other: what another task does during an
-- `await` is not modelled. The router's journal does not raise; the journals of the kill switch and of
-- the reconciler may.
--
-- Not modelled: the wiring and the asyncio loops of src/main.py, src/marketdata/features.py (pandas;
-- the strategy takes the features' values as a parameter), the application factory and the rate limits
-- of src/dashboard_api/main.py, `all_event_types` of src/dashboard_api/queries.py (a diagnostic), the
-- charts of the reports, `compute_signals` and `run_simulation` of src/backtest/simulator.py (pandas;
-- the walk of a symbol takes the signals as a parameter), the polling loops of the reconciler, the
-- oracle and the client, the scripts, and the web client and mock server of the dashboard.
pub mod Common
pub mod Dict
pub mod Decimal
pub mod Formatted
pub mod Strings
pub mod Risk
pub mod Execution
pub mod Strategies
pub mod Marketdata
pub mod Tests
pub mod Backtest
pub mod Live
pub mod Dashboard
pub mod Storage
pub mod Notify
