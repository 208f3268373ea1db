-- ===== src/Rollback.antt =====
-- The rollback gate, new-tests/kimi_k3_spec_rollback_check.cpp: what a pass of it shows of an engine,
-- and the engines that pass.
pub mod Engine
pub mod Gate
mod Snapshots
mod Shared
mod Sound
mod Passes
mod Tests
