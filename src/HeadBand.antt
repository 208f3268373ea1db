-- ===== src/HeadBand.antt =====
-- The uneven head band of the distributed path: runtime/src/models/k3_head_band.cpp and its use in
-- runtime/src/models/kimi_k3_dist_forward.cpp (patch 0025), and gate F of
-- new-tests/kimi_k3_tune_check.cpp.
pub mod Band
pub mod Gather
pub mod Gate
pub mod Cases
mod Tiling
mod Combine
mod Owner
mod Inside
mod Passes
mod Tests
