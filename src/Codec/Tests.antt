-- ===== src/Codec/Tests.antt =====
-- Runs of the codec (crates/otp-codec) at small inputs.
use jbuu.Base.{◌≡◌, refl, inl, arith, true, [], ◌∷◌, ◌++◌, replicate, All}
use jbuu.Base.Result.{ok, err}
use jbuu.Base.Bytes.{Bytes, IsByte, IsArray, to_be, from_be}
use jbuu.Types.{client, server, client_to_server}
use jbuu.Codec.ErrorCode.{is_codec_reject, bad_enum, frame_truncated, wrong_direction}
use jbuu.Codec.Message.{
  Message, hello, arbitrate, wrong_book, IsTyped, ConfirmBody, IsTypedBody, type_wire,
  type_from_wire,
}
use jbuu.Codec.Encode.{
  encode, encode_into, encode_confirm_body, canonical_check, frame, payload, payload_len_of,
  confirm_bytes,
}
use jbuu.Codec.Decode.{decode, frame_bound, direction_check, decode_payload, decode_hello}
use jbuu.Codec.Cursor.{take_bytes, read_int, fixed16, finish}
use jbuu.Codec.Decode.RoundTrip.{at_server, decode-encode}
use jbuu.Codec.Decode.Canonical.{encode-decode}
use jbuu.Codec.Decode.Errors.{decode_error-is_codec_reject}

abbrev zeros : Bytes
zeros = replicate 16 0

zeros-IsArray : IsArray 16 zeros
zeros-IsArray = ground arith

abbrev greeting : Message
greeting = hello zeros zeros 258 0

abbrev greeting_bytes : Bytes
greeting_bytes =
    0
    ∷ 2
    ∷ 0
    ∷ 1
    ∷ 0
    ∷ 0
    ∷ 0
    ∷ 44
    ∷ (zeros ++ (zeros ++ (0 ∷ 0 ∷ 0 ∷ 0 ∷ 0 ∷ 0 ∷ 1 ∷ 2 ∷ 0 ∷ 0 ∷ 0 ∷ 0 ∷ [])))

encode-greeting : encode greeting ≡ ok greeting_bytes
unfolding encode encode_into canonical_check frame payload payload_len_of to_be type_wire
encode-greeting = refl

decode-greeting : decode server greeting_bytes ≡ ok greeting
unfolding decode frame_bound direction_check decode_payload decode_hello take_bytes read_int fixed16
    finish from_be type_from_wire
decode-greeting = refl

-- A client refuses it.
decode-greeting_client : decode client greeting_bytes ≡ err wrong_direction
unfolding decode frame_bound direction_check from_be type_from_wire
decode-greeting_client = refl

decode-short : decode server (0 ∷ 2 ∷ 0 ∷ []) ≡ err frame_truncated
unfolding decode
decode-short = refl

-- BOOK_MISMATCH with a pointer is not canonical.
encode_into-not_canonical :
    encode_into (arbitrate zeros 5 wrong_book) (7 ∷ []) ≡ (err bad_enum, 7 ∷ [])
unfolding encode_into canonical_check
encode_into-not_canonical = refl

abbrev sealed_hello : ConfirmBody
sealed_hello = record {
  book_id = zeros;
  segment_index = 3;
  client_nonce = zeros;
  server_nonce = zeros;
  direction = client_to_server;
  epoch = 0;
  seq = 0;
  body_type = 4;
  label = replicate 14 65;
}

abbrev sealed_bytes : Bytes
sealed_bytes = confirm_bytes sealed_hello

encode-sealed_hello : encode_confirm_body sealed_hello ≡ ok sealed_bytes
unfolding encode_confirm_body
encode-sealed_hello = refl

greeting-IsTyped : IsTyped greeting
greeting-IsTyped = (zeros-IsArray, zeros-IsArray, ground arith, ground arith)

sealed_hello-IsTyped : IsTypedBody sealed_hello
sealed_hello-IsTyped = record {
  book_id = zeros-IsArray;
  segment_index = ground arith;
  client_nonce = zeros-IsArray;
  server_nonce = zeros-IsArray;
  epoch = ground arith;
  seq = ground arith;
  body_type = ground arith;
  label = ground arith;
}

greeting_bytes-All : All IsByte greeting_bytes
greeting_bytes-All = ground arith

decode-encode_example : decode server greeting_bytes ≡ ok greeting
decode-encode_example =
    decode-encode server greeting greeting_bytes greeting-IsTyped (at_server refl) encode-greeting

encode-decode_example : IsTyped greeting × (encode greeting ≡ ok greeting_bytes)
encode-decode_example = encode-decode server greeting_bytes greeting_bytes-All decode-greeting

decode_error-is_codec_reject_example : is_codec_reject wrong_direction ≡ true
decode_error-is_codec_reject_example =
    decode_error-is_codec_reject client greeting_bytes wrong_direction (inl decode-greeting_client)
