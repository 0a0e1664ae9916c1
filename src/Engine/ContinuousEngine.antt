-- ===== src/Engine/ContinuousEngine.antt =====
-- `ContinuousEngine`: cpp/include/infersched/engine/continuous_engine.hpp and
-- cpp/src/continuous_engine.cpp. The parts of an iteration stand in modules of their own.
pub mod State
pub mod Admission
pub mod Scan
pub mod Decoding
pub mod Iterations
pub mod Frames
pub mod Requests
pub mod Conserved
pub mod Limits
pub mod Victims
pub mod Growth
pub mod Preparation
pub mod BatchSize
pub mod Fuel
pub mod NodeCount
pub mod PrefixNodes
mod Tests
