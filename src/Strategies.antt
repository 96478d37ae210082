-- ===== src/Strategies.antt =====
-- The package src/strategies.
pub mod Target
pub mod Capture
pub mod Funding
pub mod Scheduler
pub mod Reversion
