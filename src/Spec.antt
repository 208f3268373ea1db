-- ===== src/Spec.antt =====
-- Speculative decoding on the host: the accepted-prefix rule of
-- runtime/include/sparkinfer/models/kimi_k3_ngram_draft.h (patch 0024) and the decode loop of gate D
-- of new-tests/kimi_k3_spec_draft_check.cpp, run against an oracle for the model.
pub mod Accept
pub mod Loop
pub mod Gate
pub mod Cases
mod Prefix
mod Equivalence
mod Passes
mod Tests
