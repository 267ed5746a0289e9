-- ===== src/Bus.antt =====
-- bus.go: the in-memory event bus.
pub mod State
pub mod Decimal
pub mod Table
pub mod Dispatch
pub mod Chain
pub mod Lifecycle
pub mod Races
pub mod Async
pub mod Roster
