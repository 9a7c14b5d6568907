-- ===== src/Lib.antt =====
-- A verification library for the one-time segment protocol of this repository: two peers hold the
-- same book of random 64-byte segments, agree over a small binary protocol on the next unused
-- segment, and must never use a segment twice. The code is the Rust workspace under crates/.
--
-- The parts and their files:
-- * crates/otp-types/src/lib.rs is Types.antt: the constants, the successors of segment indices and
--   generations (`none` is the panic of the overflow), directions and roles. The newtypes of the
--   source are the native numbers, with their ranges as hypotheses where a property needs them.
-- * crates/otp-codec is Codec.antt and its folder. Codec/ErrorCode and Codec/Message have the data and
--   the tables, Codec/Encode the functions of encode.rs, Codec/Cursor and Codec/Decode those of
--   decode.rs. A cursor is the list of the bytes that it has not passed, a buffer that is appended to
--   is the list of its bytes, and the `?` of the source is the bind of Base/Result. The proofs are in
--   Codec/Inversion and the folder Codec/Decode.
-- * crates/otp-anchor-spec/src/lib.rs is Anchor.antt (records and their order), Anchor/Wire
--   (`encode_record`, `decode_and_verify`) and Anchor/Decide (`decide`). SHA-256 is a parameter, a
--   function into arrays of 32 bytes of which nothing else is assumed.
-- * crates/otp-book/src/allocator.rs is Allocator.antt and its folder. Allocator/Interfaces has the
--   traits `AnchorMedia` and `SegmentReader` as records of actions on a state type, and `IsDurable`,
--   which is what the allocator relies on of writes and of fsync. Allocator/Transaction has
--   `persist_pair`, `issue` and `reserve_range` as actions on the state of `TransactionCore`, which
--   comes back after an error too, and Allocator/Open has `open` (`open_core` here); Allocator/Issue and Allocator/Reserve list what a call can leave
--   behind, Allocator/OneTime is about sequences of calls, Allocator/Guards and Allocator/Floor are about what
--   they leave on the copies, and Allocator/Restart about a crash and a start behind them.
-- * crates/otp-book/src/lib.rs is Book.antt (`open_validated`, here `validated` of a file that is open,
--   and `read_segment`), and header.rs is Book/Header. `fstat` and `pread` are an interface on the state
--   of the file, a book is its header and that state, and `IsFile` is what is relied on of a file that
--   nobody changes. Header/RoundTrip and Header/Canonical are about the codec, Book/Reading about
--   `pread_exact`, Book/Segments about `read_segment` and Book/Opening about `open`.
-- * crates/otp-session is Session.antt and its folder. Session/Nonce and Session/Aad have the bytes that
--   bind a record, Session/State the session with `seal`, `open` (`open_record` here) and `close`,
--   Session/Steps what each call can leave behind, Session/Sequence runs of a session and
--   Session/RoundTrip the two ends of one. The AEAD is a parameter: `IsAead` says that a tag has 16
--   bytes, that the text keeps its length and that what was encrypted decrypts to itself, and `IsTotal`
--   that texts of less than 2^32 bytes are encrypted. Burnt keys are `none`, and `panics` is the
--   `expect` of an active session without keys.
-- * crates/otp-handshake/src/lib.rs is Handshake.antt and its folder. Handshake/Error has the errors and
--   the steps, Handshake/Confirm the CONFIRM messages, Handshake/Client and Handshake/Server the two
--   machines. A method is an action on the machine and on the state of the segment issuer, which is an
--   interface; an early `return` is the error of the action and carries the step. The random nonces are
--   arguments. Client/Answers and Server/Answers say what the fields are in each phase, Client/Invariant,
--   Server/Invariant and Server/Greeting that the methods keep it, and Client/Runs is about sequences of
--   messages; Handshake/Sealing and Handshake/Sending are about a sealed CONFIRM, Handshake/Accepting
--   about one that is accepted, Handshake/Exchange and Handshake/Completion about a whole handshake,
--   and Handshake/Refusals about those that are refused.
-- * crates/otp-recovery/src/lib.rs is Recovery.antt, with `go_on` for what follows the decision, and
--   Recovery/Adoption has its proofs. The two stores are one interface with the copy as an argument.
-- * crates/otp-transport/src/frame.rs is Transport.antt: `ByteIo` is an interface, `IsSink` and `IsSource`
--   say what a byte stream does, Transport/Sending and Transport/Receiving are about one frame, and
--   Transport/Delivery is about a message from `encode` to `decode`.
-- * crates/otp-terminal/src/lease.rs is Lease.antt: each method runs under the lock and is one step on
--   the state, the clock is an argument, and Lease/Fencing is about sequences of calls.
-- * crates/otp-terminal/src/frame.rs is TerminalFrame.antt, with its proofs in TerminalFrame/RoundTrip and
--   TerminalFrame/Chunks. `encode` is an Option whose `none` is the panic of its assertion, and an i32 is
--   the number of its 32 bits.
-- * crates/otp-fullotp/src/wire.rs is FullOtp.antt (`encode_otp`, `decode_otp`), with its proofs in
--   FullOtp/Wire; error.rs is FullOtp/Error, pad.rs FullOtp/Pad, record.rs FullOtp/Record and control.rs
--   FullOtp/Control. FullOtp/Pad/Burning is about what is burnt, Record/Compare about the comparison of
--   tags, Record/RoundTrip and Record/Opening about a record. pump.rs is FullOtp/Pump (`send`, `receive`)
--   and Pump/Bundles (`server_prefetch`, `on_control`): Pump/Invariant says when a pump is well,
--   Pump/Sending, Pump/Receiving and Pump/Bundling what the methods do, Pump/OneTime is about sequences
--   of calls and Pump/Delivery about two pumps. Poly1305 is a parameter, and so is what the source of
--   the pads answers; `expect` is an answer of its own, `panics`.
-- * Base.antt and its folder have the helpers: Boolean tests, lists and byte strings over the native
--   numbers, big-endian integers, results, actions with a state and the rules to reason about them.
--
-- How the parts interact: the allocator keeps an anchor record of Anchor in two copies, written with
-- `encode_record`; the intent goes to both copies before the segment is read and the commit after it,
-- so that a failure in between spends the segment. The segment that is issued is split into the keys
-- of a session: the handshake takes it from the issuer, which the allocator implements, and hands out
-- the session. The codec carries the pointers of both peers, and the transport its frames.
--
-- Bounds and fuel: integers are bounded by the widths of the Rust types, which the hypotheses `IsTyped`,
-- `IsTypedRecord` and the bound on `segment_count` state; `checked_add` and the panics of `next` are
-- written out. The loop of `send_frame` has the length of the frame as fuel, which is enough where a
-- write writes a byte at least; that of `pread_exact` has a number of reads, for which the bytes to fill
-- and the interrupted reads are enough; the other loops are over lists, over a number of segments or
-- over the bytes that are left.
--
-- Not modelled: the files, locks and direct I/O behind the media, the generation and the inspection of
-- books, the Debug and Display output, the
-- sockets and the loopback of otp-transport, the crates otp-doorkeeper, otp-platform, otp-cli and
-- otp-testkit, and of otp-terminal all but the lease and the frames.
pub mod Base
pub mod Types
pub mod Codec
pub mod Anchor
pub mod Allocator
pub mod Book
pub mod Session
pub mod Handshake
pub mod Recovery
pub mod Transport
pub mod Lease
pub mod TerminalFrame
pub mod FullOtp
