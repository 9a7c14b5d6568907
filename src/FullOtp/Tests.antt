-- ===== src/FullOtp/Tests.antt =====
-- A record of the full one-time-pad mode (crates/otp-fullotp/src/wire.rs) and its bytes.
use jbuu.Base.{◌≡◌, refl, arith, [], ◌∷◌, replicate}
use jbuu.Base.Result.{ok}
use jbuu.Types.{server_to_client}
use jbuu.FullOtp.{OtpDataRecord, IsTypedOtp, IsInPad, encode_otp, decode_otp}
use jbuu.FullOtp.Wire.{decode_otp-encode_otp}

abbrev short_record : OtpDataRecord
short_record = record {
  direction = server_to_client;
  bundle_id = 1;
  base_segment = 128;
  record_seq = 3;
  pad_offset = 64;
  ciphertext = 9 ∷ 8 ∷ [];
  tag = replicate 16 5;
}

short_record-IsTypedOtp : IsTypedOtp short_record
short_record-IsTypedOtp = record {
  bundle_id = ground arith;
  base_segment = ground arith;
  record_seq = ground arith;
  pad_offset = ground arith;
  tag = refl;
}

short_record-IsInPad : IsInPad short_record
short_record-IsInPad = record { some_text = ground arith; fits = ground arith }

decode_otp-encode_otp_example : decode_otp (encode_otp short_record) ≡ ok short_record
decode_otp-encode_otp_example =
    decode_otp-encode_otp short_record short_record-IsTypedOtp short_record-IsInPad
