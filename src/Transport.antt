-- ===== src/Transport.antt =====
-- cpp/transport: the wire format of integers and memory, and the publishers.
pub mod Bytes
pub mod Kafka
pub mod Rest
pub mod Redis
