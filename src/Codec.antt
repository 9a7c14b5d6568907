-- ===== src/Codec.antt =====
-- crates/otp-codec: the wire format of the protocol messages.
pub mod ErrorCode
pub mod Message
pub mod Encode
pub mod Cursor
pub mod Inversion
pub mod Decode
mod Tests
