-- ===== src/Pool.antt =====
-- ext/pool/pool.go: the consumer pool.
pub mod Options
pub mod Process
pub mod Lifecycle
pub mod Attached
