-- ===== src/Draft.antt =====
-- The n-gram drafter, runtime/include/sparkinfer/models/kimi_k3_ngram_draft.h as the patches
-- 0024, 0025 and 0026 of patches/sparkinfer/next build it up.
pub mod Config
pub mod Window
pub mod Span
pub mod Majority
pub mod Drafter
pub mod Reference
pub mod Gate
pub mod Cases
pub mod Equal
mod Down
pub mod Bounds
mod Ballot
mod Election
mod Confidence
mod Admitting
mod Recency
mod Returned
mod Trials
mod Tests
