-- ===== src/Tests.antt =====
-- Runs of the definitions on concrete inputs, and the theorems applied to them.
mod Risk
mod Trading
mod Cache
mod Strategy
mod Bars
mod Backtest
mod Live
mod Bus
mod BarClose
mod Client
mod Config
mod Oracle
mod Simulator
mod Journal
mod Loader
mod Socket
mod Notify
mod Heartbeat
mod Reports
