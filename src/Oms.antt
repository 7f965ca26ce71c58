-- ===== src/Oms.antt =====
-- cpp/oms: the order state machine, the order pool, the fill deduplicator and the order manager.
pub mod OrderState
pub mod Pool
pub mod Dedup
pub mod Manager
pub mod Requests
pub mod OrderIds
pub mod Conservation
pub mod Fills
pub mod Booking
pub mod AckFill
pub mod Paper
pub mod Faults
