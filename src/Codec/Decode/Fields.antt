-- ===== src/Codec/Decode/Fields.antt =====
-- Each payload decoder on what `payload` wrote: crates/otp-codec/src/decode.rs after src/encode.rs.
use jbuu.Base.{ℕ, ◌≡◌, ◌≤◌, refl, arith, length, [], ◌%◌, u32_limit}
use jbuu.Base.Result.{ok}
use jbuu.Base.Bytes.{Bytes}
use jbuu.Codec.Message.{
  Message, hello, arbitrate, issue_request, confirm_c2s, confirm_s2c, data_record, msg_type,
  IsTyped, sealed_len, ArbitrateResult, min_data_field, max_data_field,
  result_from_wire-result_wire,
}
use jbuu.Codec.Encode.{payload, canonical_check}
use jbuu.Codec.Cursor.{
  take_bytes_end, fixed16-append, fixed16_end, read_int-append, read_int_end, read_u8-append,
  finish,
}
use jbuu.Codec.Decode.{
  decode_hello, decode_arbitrate, decode_issue, decode_confirm, decode_data, decode_payload,
}

decode_hello-payload :
    (i n : Bytes) (p f : ℕ)
    → IsTyped (hello i n p f)
    → decode_hello (payload (hello i n p f)) ≡ ok (hello i n p f)
unfolding decode_hello payload finish
decode_hello-payload i n p f h = rw (
  fixed16-append i _ h.0.size,
  fixed16-append n _ h.1.size,
  read_int-append 8 p _ h.2,
  read_int_end 4 f h.3,
)

decode_arbitrate-payload :
    (n : Bytes) (p : ℕ) (r : ArbitrateResult)
    → IsTyped (arbitrate n p r)
    → canonical_check (arbitrate n p r) ≡ ok tt
    → decode_arbitrate (payload (arbitrate n p r)) ≡ ok (arbitrate n p r)
unfolding decode_arbitrate payload finish canonical_check
decode_arbitrate-payload n p r h k = rw (
  fixed16-append n _ h.0.size,
  read_int-append 8 p _ h.1,
  read_u8-append _ [],
  result_from_wire-result_wire r,
  k,
)

decode_issue-payload :
    (p : ℕ) (c s : Bytes)
    → IsTyped (issue_request p c s)
    → decode_issue (payload (issue_request p c s)) ≡ ok (issue_request p c s)
unfolding decode_issue payload finish
decode_issue-payload p c s h =
    rw (read_int-append 8 p _ h.0, fixed16-append c _ h.1.size, fixed16_end s h.2.size)

decode_confirm-payload :
    (i : ℕ) (n : Bytes) (e q : ℕ) (s : Bytes)
    → IsTyped (confirm_c2s i n e q s)
    → decode_confirm (payload (confirm_c2s i n e q s)) ≡ ok (i, n, e, q, s)
unfolding decode_confirm payload finish
decode_confirm-payload i n e q s h = rw (
  read_int-append 8 i _ h.0,
  fixed16-append n _ h.1.size,
  read_int-append 4 e _ h.2,
  read_int-append 8 q _ h.3,
  take_bytes_end sealed_len s h.4.size,
)

data_check_bounds :
    (e q : ℕ) (b : Bytes)
    → canonical_check (data_record e q b) ≡ ok tt
    → (min_data_field ≤ length b) × (length b ≤ max_data_field)
unfolding canonical_check
data_check_bounds e q b k = ground arith

decode_data-payload :
    (e q : ℕ) (b : Bytes)
    → IsTyped (data_record e q b)
    → canonical_check (data_record e q b) ≡ ok tt
    → decode_data (payload (data_record e q b)) ≡ ok (data_record e q b)
unfolding decode_data payload finish canonical_check
decode_data-payload e q b h k =
    let (low, high) = data_check_bounds e q b k in
    let whole : length b % u32_limit ≡ length b = omega arith in
    rw (
      whole,
      read_int-append 4 e _ h.0,
      read_int-append 8 q _ h.1,
      read_int-append 4 (length b) _ (omega arith),
      k,
      take_bytes_end (length b) b refl,
    )

payload_confirm :
    (i : ℕ) (n : Bytes) (e q : ℕ) (s : Bytes)
    → payload (confirm_s2c i n e q s) ≡ payload (confirm_c2s i n e q s)
unfolding payload
payload_confirm i n e q s = refl

pub decode_payload-payload :
    (m : Message)
    → IsTyped m
    → canonical_check m ≡ ok tt
    → decode_payload (msg_type m) (payload m) ≡ ok m
unfolding decode_payload
decode_payload-payload (hello i n p f) h k = decode_hello-payload i n p f h
decode_payload-payload (arbitrate n p r) h k = decode_arbitrate-payload n p r h k
decode_payload-payload (issue_request p c s) h k = decode_issue-payload p c s h
decode_payload-payload (confirm_c2s i n e q s) h k = rw (decode_confirm-payload i n e q s h)
decode_payload-payload (confirm_s2c i n e q s) h k =
    rw (payload_confirm i n e q s, decode_confirm-payload i n e q s h)
decode_payload-payload (data_record e q b) h k = decode_data-payload e q b h k
