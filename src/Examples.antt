-- ===== src/Examples.antt =====
-- Runs of the program's operations at fixed inputs.
pub mod Deliveries
pub mod Subscriptions
pub mod Middlewares
pub mod Texts
pub mod Workers
pub mod Bridge
pub mod Publishing
pub mod Pools
pub mod Races
pub mod Broker
pub mod Codec
pub mod Pipelines
pub mod Asyncs
pub mod Managers
pub mod Typed
