-- ===== src/Durable.antt =====
-- The durable pipeline: cpp/src and cpp/include/infersched/durable.
pub mod Store
pub mod OffsetTracker
pub mod KafkaPoller
pub mod RequestIngestor
pub mod OutboxRelay
pub mod DurableRouter
