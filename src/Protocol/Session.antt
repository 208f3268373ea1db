-- ===== src/Protocol/Session.antt =====
-- class RankSession of runtime/src/tp/rank_protocol.cpp: one rank's side of the protocol.
pub mod State
pub mod Control
pub mod Report
unfoldable pub use State.*
unfoldable pub use Control.*
unfoldable pub use Report.*
