-- ===== src/Handshake/Error.antt =====
-- crates/otp-handshake/src/lib.rs: the errors, their codes, and what a step answers.
use jbuu.Base.{ℕ, List}
use jbuu.Base.State.{Action}
use jbuu.Base.Bytes.{Bytes}
use jbuu.Codec.ErrorCode.{
  ErrorCode, book_mismatch, client_ahead, auth_failed, tag_invalid, seq_replay, seq_unexpected,
  wrong_direction, bad_order, internal, io_error, persistence_unverified, csprng_failure,
}
use jbuu.Codec.ErrorCode
use jbuu.Codec.Message.{Message}
use jbuu.Allocator.Interfaces.{
  IssueError, exhausted, lock_unavailable, persistence_uncertain, anchor_corrupt, wrong_book_id, io,
  invalid_range,
}
use jbuu.Session.State.{
  SessionError, authentication_failed, sequence_replay, sequence_unexpected, sequence_overflow,
  wrong_way, closed, Session,
}

pub data HandshakeError : Type 0 where
  books_differ : HandshakeError
  -- next
  book_is_exhausted : ℕ → HandshakeError
  -- client, server
  client_leads : ℕ → ℕ → HandshakeError
  authentication violation : ErrorCode → HandshakeError
  issuer_failed : IssueError → HandshakeError
  csprng : HandshakeError

abbrev pub issue_code : IssueError → ErrorCode
issue_code (exhausted _) = ErrorCode.exhausted
issue_code wrong_book_id = book_mismatch
issue_code persistence_uncertain = persistence_unverified
issue_code lock_unavailable = io_error
issue_code anchor_corrupt = io_error
issue_code io = io_error
issue_code invalid_range = internal

-- `HandshakeError::code`
abbrev pub handshake_code : HandshakeError → ErrorCode
handshake_code books_differ = book_mismatch
handshake_code (book_is_exhausted _) = ErrorCode.exhausted
handshake_code (client_leads _ _) = client_ahead
handshake_code (authentication code) = code
handshake_code (violation code) = code
handshake_code (issuer_failed e) = issue_code e
handshake_code csprng = csprng_failure

abbrev pub map_session_open_err : SessionError → HandshakeError
map_session_open_err authentication_failed = authentication tag_invalid
map_session_open_err sequence_replay = authentication seq_replay
map_session_open_err sequence_unexpected = violation seq_unexpected
map_session_open_err sequence_overflow = violation seq_unexpected
map_session_open_err wrong_way = violation wrong_direction
map_session_open_err closed = violation bad_order

abbrev pub map_session_seal_err : SessionError → HandshakeError
map_session_seal_err sequence_overflow = violation seq_unexpected
map_session_seal_err _ = violation internal

-- How a function that answers a `Result` stops early: with an error, or by a panic.
pub data Fault : Type 0 where
  faulty : HandshakeError → Fault
  panics : Fault

-- `Step`, and the panic of a callee.
pub data Step : Type 0 where
  send : List Message → Step
  -- outbox, session, segment
  established : List Message → Session → ℕ → Step
  await_peer : Step
  failed : HandshakeError → Step
  panicked : Step

abbrev pub step_of : Fault → Step
step_of (faulty e) = failed e
step_of panics = panicked

-- `trait SegmentIssuer`, for an issuer whose state is an `I`.
pub record SegmentIssuer (I : Type 0) : Type 0 where
  pub issue : Action I IssueError Bytes
