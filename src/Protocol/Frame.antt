-- ===== src/Protocol/Frame.antt =====
-- The frame of a message: encode_message and decode_message of runtime/src/tp/rank_protocol.cpp.
pub mod Encode
pub mod Decode
unfoldable pub use Encode.*
unfoldable pub use Decode.*
