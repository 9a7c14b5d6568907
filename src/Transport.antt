-- ===== src/Transport.antt =====
-- crates/otp-transport/src/frame.rs and the errors of lib.rs: frames over a byte stream. The stream is
-- a record of actions on its state.
use jbuu.Base.{
  ℕ, zero, suc, ◌+◌, ◌-◌, Bool, true, false, not, ◌==◌, ltb, min, Option, none, some, List, ◌++◌,
  length, take, drop, if◌then◌else◌,
}
use jbuu.Base.Result.{Result, ok, err}
use jbuu.Base.State.{Action, pure, raise, raise_if, ◌>>=◌, ◌>>◌}
use jbuu.Base.Bytes.{Bytes, from_be}
use jbuu.Codec.ErrorCode.{ErrorCode, io_error, frame_truncated, bad_length}
use jbuu.Codec.Message.{frame_header_len, max_frame_payload}
pub mod Sending
pub mod Receiving
pub mod Delivery
mod Tests

pub data TransportError : Type 0 where
  io timeout closed_by_peer : TransportError
  -- the declared length of the payload
  frame_too_large : ℕ → TransportError
  frame_malformed : TransportError

-- `TransportError::code`
abbrev pub transport_code : TransportError → ErrorCode
transport_code io = io_error
transport_code timeout = io_error
transport_code closed_by_peer = frame_truncated
transport_code frame_malformed = frame_truncated
transport_code (frame_too_large _) = bad_length

-- `TransportError::is_peer_condition`
abbrev pub is_peer_condition : TransportError → Bool
is_peer_condition closed_by_peer = true
is_peer_condition frame_malformed = true
is_peer_condition _ = false

abbrev pub write_chunk : ℕ
write_chunk = 16384

-- `trait ByteIo`: `read_full` of a number of bytes answers them, or none where the stream is at its
-- end before the first one.
pub record ByteIo (S : Type 0) : Type 0 where
  pub read_full : ℕ → Action S TransportError (Option Bytes)
  pub write_partial : Bytes → Action S TransportError ℕ

-- How a call stops early: with an error, or with its fuel.
pub data Stop : Type 0 where
  fails : TransportError → Stop
  out_of_fuel : Stop

abbrev pub lifted : {S : Type 0} → Result ℕ TransportError × S → Result ℕ Stop × S
lifted (ok n, s) = (ok n, s)
lifted (err e, s) = (err (fails e), s)

-- `u32::from_be_bytes` of the bytes 4 to 7.
abbrev pub declared_len : Bytes → ℕ
declared_len header = from_be (take 4 (drop 4 header))

-- The checks of `send_frame`.
unfoldable pub refusal : Bytes → Option TransportError
refusal frame =
    if ltb (length frame) frame_header_len
    then some frame_malformed
    else if ltb max_frame_payload (declared_len frame)
    then some (frame_too_large (declared_len frame))
    else if not (declared_len frame == length frame - frame_header_len)
    then some frame_malformed
    else none

module _ {S : Type 0} (stream : ByteIo S) where
  -- `Ok(false)` as an error.
  abbrev pub read_or :
      TransportError → Result (Option Bytes) TransportError × S → Result Bytes TransportError × S
  read_or e (ok none, s) = (err e, s)
  read_or e (ok (some bs), s) = (ok bs, s)
  read_or e (err x, s) = (err x, s)

  abbrev pub expect_bytes : TransportError → ℕ → Action S TransportError Bytes
  expect_bytes e n s = read_or e (stream.read_full n s)

  unfoldable pub recv_frame : Action S TransportError Bytes
  recv_frame = do
    header ← expect_bytes closed_by_peer frame_header_len
    raise_if (ltb max_frame_payload (declared_len header)) (frame_too_large (declared_len header))
    payload ← expect_bytes frame_malformed (declared_len header)
    pure (header ++ payload)

  abbrev pub write_some : Bytes → Action S Stop ℕ
  write_some bs s = lifted (stream.write_partial bs s)

  -- `while off < frame.len()`
  unfoldable pub write_from : ℕ → Bytes → ℕ → Action S Stop (Unit {0})
  write_from zero frame off = if ltb off (length frame) then raise out_of_fuel else pure tt
  write_from (suc fuel) frame off =
      let rest = λ (n : ℕ). write_from fuel frame (off + n) in
      if ltb off (length frame)
      then (write_some (take (min (length frame - off) write_chunk) (drop off frame)) >>= rest)
      else pure tt

  abbrev pub send_checked : Option TransportError → Bytes → Action S Stop (Unit {0})
  send_checked (some e) frame = raise (fails e)
  send_checked none frame = write_from (length frame) frame 0

  unfoldable pub send_frame : Bytes → Action S Stop (Unit {0})
  send_frame frame = send_checked (refusal frame) frame
