-- ===== src/Live.antt =====
-- src/main.py: the live system on top of the components.
pub mod FundingTick
pub mod BarClose
pub mod Heartbeat
pub mod Config
