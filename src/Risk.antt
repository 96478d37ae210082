-- ===== src/Risk.antt =====
-- The package src/risk: the gatekeeper for order intents and the kill switch.
pub mod Types
pub mod PostFill
pub mod Manager
pub mod KillSwitch
