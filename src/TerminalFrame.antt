-- ===== src/TerminalFrame.antt =====
-- crates/otp-terminal/src/frame.rs: the frames of the terminal, which are the plaintext of DATA records.
-- An i32 is the number of its 32 bits.
use jbuu.Base.{
  ℕ, zero, suc, ◌+◌, ◌-◌, ◌<◌, not, ◌||◌, ◌==◌, leb, ltb, Option, none, some, if◌then◌else◌, List,
  [], ◌∷◌, ◌++◌, length, take, drop, u16_limit, u32_limit, u64_limit,
}
use jbuu.Base.Result.{Result, ok, err, fail_if, ◌>>=◌, ◌>>◌}
use jbuu.Base.Bytes.{Bytes, to_be, from_be}
pub mod RoundTrip
pub mod Chunks
mod Tests

abbrev pub max_app_plaintext : ℕ
max_app_plaintext = 65536

abbrev pub frame_overhead : ℕ
frame_overhead = 3

abbrev pub data_chunk_max : ℕ
data_chunk_max = max_app_plaintext - frame_overhead

pub data DenyReason : Type 0 where
  busy gone fenced : DenyReason

-- `DenyReason::wire`
abbrev pub reason_wire : DenyReason → ℕ
reason_wire busy = 1
reason_wire gone = 2
reason_wire fenced = 3

-- The search of `WIRE`.
abbrev pub reason_of : ℕ → Option DenyReason
reason_of v =
    if v == 1 then some busy else if v == 2 then some gone else if v == 3 then some fenced else none

-- The fields stand in the order of the source.
pub data TerminalFrame : Type 0 where
  open_terminal : ℕ → ℕ → TerminalFrame
  attach : ℕ → ℕ → ℕ → TerminalFrame
  input : Bytes → TerminalFrame
  resize : ℕ → ℕ → TerminalFrame
  ping : TerminalFrame
  granted : ℕ → ℕ → TerminalFrame
  denied : DenyReason → TerminalFrame
  output : Bytes → TerminalFrame
  exit : ℕ → TerminalFrame

-- The error of `decode`.
pub data FrameError : Type 0 where
  protocol : FrameError

-- An Input or an Output; the assertion panics where the data is too long.
abbrev pub encode_chunk : ℕ → Bytes → Option Bytes
encode_chunk t body =
    if leb (length body) data_chunk_max then some (t ∷ (to_be 2 (length body) ++ body)) else none

-- `TerminalFrame::encode`
unfoldable pub encode_frame : TerminalFrame → Option Bytes
encode_frame (open_terminal rows cols) = some (0x01 ∷ (to_be 2 rows ++ to_be 2 cols))
encode_frame (attach handle rows cols) =
    some (0x02 ∷ (to_be 8 handle ++ (to_be 2 rows ++ to_be 2 cols)))
encode_frame (input body) = encode_chunk 0x03 body
encode_frame (resize rows cols) = some (0x04 ∷ (to_be 2 rows ++ to_be 2 cols))
encode_frame ping = some (0x05 ∷ [])
encode_frame (granted handle token) = some (0x11 ∷ (to_be 8 handle ++ to_be 8 token))
encode_frame (denied reason) = some (0x12 ∷ reason_wire reason ∷ [])
encode_frame (output body) = encode_chunk 0x13 body
encode_frame (exit code) = some (0x14 ∷ to_be 4 code)

-- `rest.len() != n`
abbrev pub exactly : ℕ → Bytes → Result (Unit {0}) FrameError
exactly n rest = fail_if (not (length rest == n)) protocol

unfoldable pub decode_chunk : Bytes → Result Bytes FrameError
decode_chunk rest = do
  fail_if (ltb (length rest) 2) protocol
  let len = from_be (take 2 rest)
  let body = drop 2 rest
  fail_if (not (length body == len) || ltb data_chunk_max len) protocol
  ok body

abbrev pub decode_denied : Bytes → Result TerminalFrame FrameError
decode_denied [] = err protocol
decode_denied (r ∷ (_ ∷ _)) = err protocol
decode_denied (r ∷ []) = elim (reason_of r) [
  | none ↦ err protocol
  | some reason ↦ ok (denied reason)
]

abbrev pub decode_ping : Bytes → Result TerminalFrame FrameError
decode_ping [] = ok ping
decode_ping (_ ∷ _) = err protocol

-- The match on the type.
unfoldable pub decode_type : ℕ → Bytes → Result TerminalFrame FrameError
decode_type t rest =
    if t == 0x01
    then (do
      exactly 4 rest
      ok (open_terminal (from_be (take 2 rest)) (from_be (take 2 (drop 2 rest)))))
    else if t == 0x02
    then (do
      exactly 12 rest
      ok (
          attach (from_be (take 8 rest)) (from_be (take 2 (drop 8 rest)))
            (from_be (take 2 (drop 10 rest)))))
    else if t == 0x03
    then (do body ← decode_chunk rest; ok (input body))
    else if t == 0x13
    then (do body ← decode_chunk rest; ok (output body))
    else if t == 0x04
    then (do exactly 4 rest; ok (resize (from_be (take 2 rest)) (from_be (take 2 (drop 2 rest)))))
    else if t == 0x05
    then decode_ping rest
    else if t == 0x11
    then (do exactly 16 rest; ok (granted (from_be (take 8 rest)) (from_be (drop 8 rest))))
    else if t == 0x12
    then decode_denied rest
    else if t == 0x14
    then (do exactly 4 rest; ok (exit (from_be rest)))
    else err protocol

-- `TerminalFrame::decode`
unfoldable pub decode_frame : Bytes → Result TerminalFrame FrameError
decode_frame [] = err protocol
decode_frame (t ∷ rest) = decode_type t rest

-- `data.chunks(DATA_CHUNK_MAX)`, with the length of the data as fuel.
unfoldable pub chunks : ℕ → ℕ → Bytes → List Bytes
chunks zero size body = []
chunks (suc fuel) size [] = []
chunks (suc fuel) size (b ∷ bs) = take size (b ∷ bs) ∷ chunks fuel size (drop size (b ∷ bs))

unfoldable pub chunk_input : Bytes → List Bytes
chunk_input body = chunks (length body) data_chunk_max body

-- The ranges of the Rust types.
abbrev pub IsTypedFrame : TerminalFrame → Type 0
IsTypedFrame (open_terminal rows cols) = (rows < u16_limit) × (cols < u16_limit)
IsTypedFrame (attach handle rows cols) =
    (handle < u64_limit) × (rows < u16_limit) × (cols < u16_limit)
IsTypedFrame (input body) = Unit {0}
IsTypedFrame (resize rows cols) = (rows < u16_limit) × (cols < u16_limit)
IsTypedFrame ping = Unit {0}
IsTypedFrame (granted handle token) = (handle < u64_limit) × (token < u64_limit)
IsTypedFrame (denied reason) = Unit {0}
IsTypedFrame (output body) = Unit {0}
IsTypedFrame (exit code) = code < u32_limit
