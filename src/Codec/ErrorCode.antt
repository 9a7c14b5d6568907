-- ===== src/Codec/ErrorCode.antt =====
-- crates/otp-codec/src/error.rs: the registry of error codes. A code is its u16.
use jbuu.Base.{ℕ, ◌/◌, ◌%◌, Bool, ◌&&◌, leb}

abbrev pub ErrorCode : Type 0
ErrorCode = ℕ

abbrev pub book_mismatch : ErrorCode
book_mismatch = 0x0100

abbrev pub exhausted : ErrorCode
exhausted = 0x0101

abbrev pub client_ahead : ErrorCode
client_ahead = 0x0102

abbrev pub server_ahead : ErrorCode
server_ahead = 0x0103

abbrev pub auth_failed : ErrorCode
auth_failed = 0x0200

abbrev pub tag_invalid : ErrorCode
tag_invalid = 0x0201

abbrev pub segment_binding : ErrorCode
segment_binding = 0x0202

abbrev pub nonce_mismatch : ErrorCode
nonce_mismatch = 0x0203

abbrev pub seq_replay : ErrorCode
seq_replay = 0x0204

abbrev pub protocol_violation : ErrorCode
protocol_violation = 0x0300

abbrev pub bad_version : ErrorCode
bad_version = 0x0301

abbrev pub bad_length : ErrorCode
bad_length = 0x0302

abbrev pub trailing_bytes : ErrorCode
trailing_bytes = 0x0303

abbrev pub bad_enum : ErrorCode
bad_enum = 0x0304

abbrev pub unknown_msg_type : ErrorCode
unknown_msg_type = 0x0305

abbrev pub wrong_direction : ErrorCode
wrong_direction = 0x0306

abbrev pub issue_pointer_mismatch : ErrorCode
issue_pointer_mismatch = 0x0307

abbrev pub frame_truncated : ErrorCode
frame_truncated = 0x0308

abbrev pub bad_order : ErrorCode
bad_order = 0x0309

abbrev pub epoch_mismatch : ErrorCode
epoch_mismatch = 0x030a

abbrev pub seq_unexpected : ErrorCode
seq_unexpected = 0x030b

abbrev pub internal : ErrorCode
internal = 0x0400

abbrev pub io_error : ErrorCode
io_error = 0x0401

abbrev pub persistence_unverified : ErrorCode
persistence_unverified = 0x0402

abbrev pub csprng_failure : ErrorCode
csprng_failure = 0x0403

-- The high byte, `(self.0 >> 8) as u8`.
abbrev pub category : ErrorCode → ℕ
category c = c / 256 % 256

-- The codes that decoding may answer.
abbrev pub is_codec_reject : ErrorCode → Bool
is_codec_reject c = leb 0x0301 c && leb c 0x0308
