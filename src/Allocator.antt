-- ===== src/Allocator.antt =====
-- crates/otp-book/src/allocator.rs: the fail-to-waste segment allocator (`TransactionCore`). The
-- traits `AnchorMedia` and `SegmentReader` are interfaces that a state type implements.
pub mod Interfaces
pub mod Transaction
pub mod Open
pub mod Persist
pub mod Guards
pub mod Steps
pub mod Issue
pub mod Reserve
pub mod OneTime
pub mod Floor
pub mod Restart
mod Tests
mod CrashTests
