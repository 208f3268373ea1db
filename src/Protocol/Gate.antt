-- ===== src/Protocol/Gate.antt =====
-- Gate C of patches/sparkinfer/next/new-tests/kimi_k3_spec_draft_check.cpp: the K-token frame, and one
-- batch from the coordinator to three ranks. The result is the number of checks that fail.
pub mod Frames
pub mod Bootstrap
pub mod Batch
unfoldable pub use Frames.*
unfoldable pub use Bootstrap.*
unfoldable pub use Batch.*
