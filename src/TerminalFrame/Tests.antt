-- ===== src/TerminalFrame/Tests.antt =====
-- Runs of the terminal frames (crates/otp-terminal/src/frame.rs).
use jbuu.Base.{◌≤◌, ◌≡◌, refl, arith, some, [], ◌∷◌, length, All}
use jbuu.Base.Result.{ok, err}
use jbuu.Base.Bytes.{Bytes, to_be, from_be}
use jbuu.TerminalFrame.{
  attach, protocol, data_chunk_max, max_app_plaintext, encode_frame, decode_frame, decode_type,
  decode_chunk, chunk_input,
}
use jbuu.TerminalFrame.RoundTrip.{decode_frame-encode_frame}
use jbuu.TerminalFrame.Chunks.{joined, IsChunk, chunk_input-joined}

abbrev attach_bytes : Bytes
attach_bytes = 2 ∷ 0 ∷ 0 ∷ 0 ∷ 0 ∷ 0 ∷ 0 ∷ 0 ∷ 7 ∷ 0 ∷ 33 ∷ 0 ∷ 111 ∷ []

encode-attach : encode_frame (attach 7 33 111) ≡ some attach_bytes
unfolding encode_frame to_be
encode-attach = refl

decode_frame-encode_frame_example :
    (length attach_bytes ≤ max_app_plaintext) × (decode_frame attach_bytes ≡ ok (attach 7 33 111))
decode_frame-encode_frame_example =
    decode_frame-encode_frame (attach 7 33 111) attach_bytes
      (ground arith, ground arith, ground arith) encode-attach

-- A length that is not the number of the bytes that follow is refused.
decode-short_input : decode_frame (3 ∷ 0 ∷ 2 ∷ 104 ∷ []) ≡ err protocol
unfolding decode_frame decode_type decode_chunk from_be
decode-short_input = refl

abbrev typed_text : Bytes
typed_text = 104 ∷ 105 ∷ []

chunk_input-joined_example :
    (joined (chunk_input typed_text) ≡ typed_text)
    × All (IsChunk data_chunk_max) (chunk_input typed_text)
chunk_input-joined_example = chunk_input-joined typed_text
