-- ===== src/Risk.antt =====
-- cpp/risk: the market hours, the rate limiter and the pre-trade gate.
pub mod MarketHours
pub mod TokenBucket
pub mod Gate
pub mod Decisions
pub mod Bursts
pub mod KillSwitch
