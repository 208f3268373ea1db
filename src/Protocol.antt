-- ===== src/Protocol.antt =====
-- The rank protocol of runtime/src/tp/rank_protocol.cpp as the patches 0003, 0004, 0015 and 0024 build
-- it up: the frames on the wire, the coordinator of rank 0 and the session of each rank.
pub mod Message
pub mod Wire
pub mod Text
pub mod Shard
pub mod Coordinator
pub mod Accept
pub mod Drive
pub mod Session
pub mod Frame
mod Reading
mod Inverting
pub mod Valid
mod Fixed
mod Sizes
pub mod RoundTrip
mod Accepted
mod Canonical
mod Gathering
mod Identity
pub mod System
mod Stepping
mod Barrier
pub mod Progress
pub mod Calls
pub mod Stages
pub mod Readiness
pub mod Terminal
mod Aborts
pub mod Refusal
mod Gate
mod Passes
mod Tests
