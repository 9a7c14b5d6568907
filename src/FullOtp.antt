-- ===== src/FullOtp.antt =====
-- crates/otp-fullotp/src/wire.rs: the records of the full one-time-pad mode, as bytes.
use jbuu.Base.{
  ℕ, ◌+◌, ◌-◌, ◌%◌, ◌≤◌, ◌<◌, ◌≡◌, not, ◌&&◌, ◌==◌, leb, ltb, Option, none, some, if◌then◌else◌,
  ◌∷◌, ◌++◌, length, take, drop, u16_limit, u64_limit,
}
use jbuu.Base.Result.{Result, ok, err, fail_if, ok_or, ◌>>=◌, ◌>>◌}
use jbuu.Base.Bytes.{Bytes, IsArray, to_be, from_be}
use jbuu.Types.{Direction, client_to_server, server_to_client, tag_len}
pub mod Wire
pub mod Error
pub mod Pad
pub mod Record
pub mod Control
pub mod Pump
mod Tests

abbrev pub otp_version : ℕ
otp_version = 0x0003

abbrev pub msg_type_otp_data : ℕ
msg_type_otp_data = 0x0010

abbrev pub mode_full_otp_poly1305 : ℕ
mode_full_otp_poly1305 = 0x01

abbrev pub header_len : ℕ
header_len = 34

abbrev pub max_ciphertext_len : ℕ
max_ciphertext_len = 4064

abbrev pub min_ciphertext_len : ℕ
min_ciphertext_len = 1

abbrev pub max_frame_len : ℕ
max_frame_len = header_len + max_ciphertext_len + tag_len

abbrev pub pad_half_wire : ℕ
pad_half_wire = 4096

abbrev pub mac_key_bound : ℕ
mac_key_bound = 32

-- `direction_wire` and `direction_from_wire` of this file.
unfoldable pub otp_direction_wire : Direction → ℕ
otp_direction_wire client_to_server = 0x01
otp_direction_wire server_to_client = 0x02

unfoldable pub otp_direction_from_wire : ℕ → Option Direction
otp_direction_from_wire v =
    if v == 0x01 then some client_to_server else if v == 0x02 then some server_to_client else none

pub data WireError : Type 0 where
  too_short too_long version_error msg_type_error mode_error direction_error : WireError
  ciphertext_len_error length_mismatch offset_bounds : WireError

pub record OtpDataRecord : Type 0 where
  pub direction : Direction
  pub bundle_id : ℕ
  pub base_segment : ℕ
  pub record_seq : ℕ
  pub pad_offset : ℕ
  pub ciphertext : Bytes
  pub tag : Bytes

-- `canonical_header`; the length is cut to 16 bits.
unfoldable pub canonical_header : Direction → ℕ → ℕ → ℕ → ℕ → ℕ → Bytes
canonical_header direction bundle_id base_segment record_seq pad_offset ciphertext_len =
    to_be 2 otp_version
    ++ (to_be 2 msg_type_otp_data
        ++ (mode_full_otp_poly1305
            ∷ (otp_direction_wire direction
                ∷ (to_be 8 bundle_id
                    ++ (to_be 8 base_segment
                        ++ (to_be 8 record_seq
                            ++ (to_be 2 pad_offset ++ to_be 2 (ciphertext_len % u16_limit))))))))

-- `OtpDataRecord::encode`
unfoldable pub encode_otp : OtpDataRecord → Bytes
encode_otp r =
    canonical_header r.direction r.bundle_id r.base_segment r.record_seq r.pad_offset
      (length r.ciphertext)
    ++ (r.ciphertext ++ r.tag)

-- A field of `w` bytes that begins at an offset.
abbrev pub field_at : ℕ → ℕ → Bytes → ℕ
field_at w n bytes = from_be (take w (drop n bytes))

unfoldable pub decode_otp : Bytes → Result OtpDataRecord WireError
decode_otp bytes = do
  fail_if (ltb (length bytes) (header_len + min_ciphertext_len + tag_len)) too_short
  fail_if (ltb max_frame_len (length bytes)) too_long
  fail_if (not (field_at 2 0 bytes == otp_version)) version_error
  fail_if (not (field_at 2 2 bytes == msg_type_otp_data)) msg_type_error
  fail_if (not (field_at 1 4 bytes == mode_full_otp_poly1305)) mode_error
  direction ← ok_or (otp_direction_from_wire (field_at 1 5 bytes)) direction_error
  let ciphertext_len = field_at 2 32 bytes
  fail_if (not (leb min_ciphertext_len ciphertext_len && leb ciphertext_len max_ciphertext_len))
      ciphertext_len_error
  fail_if (not (length bytes == header_len + ciphertext_len + tag_len)) length_mismatch
  fail_if (ltb pad_half_wire (field_at 2 30 bytes + mac_key_bound + ciphertext_len)) offset_bounds
  ok (record {
    direction = direction;
    bundle_id = field_at 8 6 bytes;
    base_segment = field_at 8 14 bytes;
    record_seq = field_at 8 22 bytes;
    pad_offset = field_at 2 30 bytes;
    ciphertext = take ciphertext_len (drop header_len bytes);
    tag = drop (length bytes - tag_len) bytes;
  })

-- The ranges of the Rust types.
pub record IsTypedOtp (r : OtpDataRecord) : Type 0 where
  pub bundle_id : r.bundle_id < u64_limit
  pub base_segment : r.base_segment < u64_limit
  pub record_seq : r.record_seq < u64_limit
  pub pad_offset : r.pad_offset < u16_limit
  pub tag : length r.tag ≡ tag_len

-- What the format allows: a text that is not empty and that lies in the pad behind its key.
pub record IsInPad (r : OtpDataRecord) : Type 0 where
  pub some_text : 1 ≤ length r.ciphertext
  pub fits : r.pad_offset + 32 + length r.ciphertext ≤ 4096
