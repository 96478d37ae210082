-- ===== src/Execution.antt =====
-- The package src/execution.
pub mod Allocator
pub mod Tracker
pub mod Reconciler
pub mod RouterState
pub mod Sizing
pub mod Router
pub mod StaleOrders
pub mod Starvation
pub mod Oracle
pub mod Adapter
