-- ===== src/Engine.antt =====
-- The engine process: cpp/src and cpp/include/infersched/engine.
pub mod KvCache
pub mod ExecutionState
pub mod Lru
pub mod ResultCache
pub mod PrefixCache
pub mod CostModel
pub mod StaticBatchPolicy
pub mod RadixPrefixCache
pub mod RequestQueue
pub mod EngineConfig
pub mod ContinuousEngine
