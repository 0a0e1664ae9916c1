-- ===== src/Distributed.antt =====
-- The processes that talk over gRPC: cpp/src and cpp/include/infersched/distributed.
pub mod Messages
pub mod EngineService
pub mod RouterService
