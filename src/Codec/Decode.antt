-- ===== src/Codec/Decode.antt =====
-- crates/otp-codec/src/decode.rs: strict decoding, in the order of its steps.
pub mod Fields
pub mod RoundTrip
pub mod Payloads
pub mod Canonical
pub mod Errors
pub mod Body
use jbuu.Base.{
  ℕ, ◌-◌, ◌<◌, Bool, not, ◌&&◌, ◌==◌, ltb, leb, Option, none, some, length, take, drop, checked_add,
}
use jbuu.Base.Result.{Result, ok, err, ◌>>=◌, ◌>>◌, fail_if, ok_or}
use jbuu.Base.Bytes.{Bytes, from_be}
use jbuu.Types.{Direction, Role, client, server, client_to_server, server_to_client, role_eq}
use jbuu.Codec.ErrorCode.{
  ErrorCode, bad_version, bad_length, trailing_bytes, bad_enum, unknown_msg_type, wrong_direction,
  frame_truncated,
}
use jbuu.Codec.Message.{
  MsgType, hello_type, arbitrate_type, issue_type, confirm_c2s_type, confirm_s2c_type, data_type,
  type_from_wire, type_direction, plen_ok, Message, hello, arbitrate, issue_request, confirm_c2s,
  confirm_s2c, data_record, result_from_wire, is_wrong_book, version, frame_header_len,
  min_data_field, max_data_field, sealed_len, confirm_body_len, confirm_label_len, ConfirmBody,
  body_direction_from_wire,
}
use jbuu.Codec.Cursor.{take_bytes, read_u8, read_u16, read_u32, read_u64, fixed16, finish}

-- The three-way comparison of step 5.
unfoldable pub frame_bound : ℕ → ℕ → Result (Unit {0}) ErrorCode
frame_bound len end = do fail_if (ltb len end) frame_truncated; fail_if (ltb end len) trailing_bytes

-- Step 6: the receiver's role against the type's direction.
unfoldable pub direction_check : Option Direction → Role → Result (Unit {0}) ErrorCode
direction_check none role = ok tt
direction_check (some client_to_server) role = fail_if (not (role_eq role server)) wrong_direction
direction_check (some server_to_client) role = fail_if (not (role_eq role client)) wrong_direction

unfoldable pub decode_hello : Bytes → Result Message ErrorCode
decode_hello p = do
  (book_id, c1) ← fixed16 p
  (client_nonce, c2) ← fixed16 c1
  (client_pointer, c3) ← read_u64 c2
  (features, c4) ← read_u32 c3
  finish c4
  ok (hello book_id client_nonce client_pointer features)

unfoldable pub decode_arbitrate : Bytes → Result Message ErrorCode
decode_arbitrate p = do
  (server_nonce, c1) ← fixed16 p
  (server_pointer, c2) ← read_u64 c1
  (code, c3) ← read_u8 c2
  result ← ok_or (result_from_wire code) bad_enum
  finish c3
  fail_if (is_wrong_book result && not (server_pointer == 0)) bad_enum
  ok (arbitrate server_nonce server_pointer result)

unfoldable pub decode_issue : Bytes → Result Message ErrorCode
decode_issue p = do
  (chosen_pointer, c1) ← read_u64 p
  (client_nonce, c2) ← fixed16 c1
  (server_nonce, c3) ← fixed16 c2
  finish c3
  ok (issue_request chosen_pointer client_nonce server_nonce)

-- `ConfirmParts`
abbrev pub ConfirmParts : Type 0
ConfirmParts = ℕ × Bytes × ℕ × ℕ × Bytes

unfoldable pub decode_confirm : Bytes → Result ConfirmParts ErrorCode
decode_confirm p = do
  (segment_index, c1) ← read_u64 p
  (session_nonce, c2) ← fixed16 c1
  (epoch, c3) ← read_u32 c2
  (seq, c4) ← read_u64 c3
  (sealed, c5) ← take_bytes sealed_len c4
  finish c5
  ok (segment_index, session_nonce, epoch, seq, sealed)

unfoldable pub decode_data : Bytes → Result Message ErrorCode
decode_data p = do
  (epoch, c1) ← read_u32 p
  (seq, c2) ← read_u64 c1
  (data_len, c3) ← read_u32 c2
  fail_if (not (leb min_data_field data_len && leb data_len max_data_field)) bad_length
  (body, c4) ← take_bytes data_len c3
  finish c4
  ok (data_record epoch seq body)

-- Steps 7 and 8.
unfoldable pub decode_payload : MsgType → Bytes → Result Message ErrorCode
decode_payload hello_type p = decode_hello p
decode_payload arbitrate_type p = decode_arbitrate p
decode_payload issue_type p = decode_issue p
decode_payload confirm_c2s_type p = do
  (segment, session_nonce, epoch, seq, sealed) ← decode_confirm p
  ok (confirm_c2s segment session_nonce epoch seq sealed)
decode_payload confirm_s2c_type p = do
  (segment, session_nonce, epoch, seq, sealed) ← decode_confirm p
  ok (confirm_s2c segment session_nonce epoch seq sealed)
decode_payload data_type p = decode_data p

unfoldable pub decode : Role → Bytes → Result Message ErrorCode
decode role buf = do
  fail_if (ltb (length buf) frame_header_len) frame_truncated
  let version_field = from_be (take 2 buf)
  fail_if (not (version_field == version)) bad_version
  let raw_type = from_be (take 2 (drop 2 buf))
  msg_type ← ok_or (type_from_wire raw_type) unknown_msg_type
  let payload_len = from_be (take 4 (drop 4 buf))
  fail_if (not (plen_ok msg_type payload_len)) bad_length
  end ← ok_or (checked_add frame_header_len payload_len) bad_length
  frame_bound (length buf) end
  direction_check (type_direction msg_type) role
  decode_payload msg_type (take (end - frame_header_len) (drop frame_header_len buf))

unfoldable pub decode_confirm_body : Bytes → Result ConfirmBody ErrorCode
decode_confirm_body buf = do
  fail_if (not (length buf == confirm_body_len)) bad_length
  (version_field, c1) ← read_u16 buf
  fail_if (not (version_field == version)) bad_version
  (book_id, c2) ← fixed16 c1
  (segment_index, c3) ← read_u64 c2
  (client_nonce, c4) ← fixed16 c3
  (server_nonce, c5) ← fixed16 c4
  (direction_code, c6) ← read_u8 c5
  direction ← ok_or (body_direction_from_wire direction_code) bad_enum
  (epoch, c7) ← read_u32 c6
  (seq, c8) ← read_u64 c7
  (body_type, c9) ← read_u16 c8
  (label, c10) ← take_bytes confirm_label_len c9
  finish c10
  ok (record {
    book_id = book_id;
    segment_index = segment_index;
    client_nonce = client_nonce;
    server_nonce = server_nonce;
    direction = direction;
    epoch = epoch;
    seq = seq;
    body_type = body_type;
    label = label;
  })
