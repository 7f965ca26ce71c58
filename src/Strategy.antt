-- ===== src/Strategy.antt =====
-- cpp/strategy: the strategy manager and the momentum strategy.
pub mod Manager
pub mod Threads
pub mod Delivery
pub mod Routing
pub mod Truncation
pub mod Params
pub mod Momentum
pub mod Signal
pub mod Entry
pub mod Dormant
pub mod Exits
pub mod Plugin
