-- ===== src/Backtest.antt =====
-- src/backtest: the simulators of the two strategies.
pub mod FundingSim
pub mod Simulator
pub mod Frames
pub mod Loader
pub mod FundingLoader
pub mod FundingReport
pub mod Report
