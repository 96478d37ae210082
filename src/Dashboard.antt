-- ===== src/Dashboard.antt =====
-- src/dashboard_api: the bus between the trading loop and the dashboard, and the queries and sockets that
-- serve it.
pub mod Bus
pub mod Tables
pub mod Equity
pub mod Stats
pub mod Queries
pub mod Auth
pub mod Socket
pub mod Routes
