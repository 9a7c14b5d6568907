-- ===== src/Handshake.antt =====
-- crates/otp-handshake/src/lib.rs: the two state machines of the handshake. Segments come only from
-- a `SegmentIssuer`, an interface here; the random nonces are arguments.
mod Tests
pub mod Error
pub mod Confirm
pub mod Client
pub mod Server
pub mod Sealing
pub mod Accepting
pub mod Sending
pub mod Exchange
pub mod Completion
pub mod Refusals
