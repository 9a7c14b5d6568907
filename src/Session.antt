-- ===== src/Session.antt =====
-- crates/otp-session: the record layer. The AEAD comes from a crate and is a parameter.
pub mod Nonce
pub mod Aad
pub mod State
pub mod Steps
pub mod Sequence
pub mod RoundTrip
pub mod Progress
mod Tests
