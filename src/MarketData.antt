-- ===== src/MarketData.antt =====
-- cpp/market_data and the ring of cpp/common/disruptor.hpp: the way of a tick.
pub mod Candles
pub mod Shapes
pub mod Bars
pub mod Feed
pub mod Disruptor
pub mod FanOut
pub mod Normalizer
pub mod Dropped
