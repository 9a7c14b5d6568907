-- ===== src/Codec/Decode/Body.antt =====
-- The inner confirmation body: `encode_confirm_body` (src/encode.rs) and `decode_confirm_body`
-- (src/decode.rs) are inverse to each other.
use jbuu.Base.{◌≡◌, arith, length, subst}
use jbuu.Base.Result.{ok}
use jbuu.Base.Bytes.{Bytes, lengths}
use jbuu.Codec.Message.{
  ConfirmBody, IsTypedBody, version, confirm_body_len, confirm_label_len, body_direction_wire,
  body_direction_from_wire-body_direction_wire,
}
use jbuu.Codec.Encode.{confirm_bytes, encode_confirm_body}
use jbuu.Codec.Inversion.{ok-injective}
use jbuu.Codec.Cursor.{fixed16-append, read_int-append, read_u8-append, take_bytes_end, finish}
use jbuu.Codec.Decode.{decode_confirm_body}

pub length-confirm_bytes :
    (b : ConfirmBody) → IsTypedBody b → length (confirm_bytes b) ≡ confirm_body_len
unfolding confirm_bytes
length-confirm_bytes b h = omega lengths

pub decode_confirm_body-confirm_bytes :
    (b : ConfirmBody) → IsTypedBody b → decode_confirm_body (confirm_bytes b) ≡ ok b
unfolding confirm_bytes decode_confirm_body finish
decode_confirm_body-confirm_bytes b h =
    let size : length (confirm_bytes b) ≡ confirm_body_len = length-confirm_bytes b h in
    rw (
      size,
      read_int-append 2 version _ (omega arith),
      fixed16-append b.book_id _ h.book_id.size,
      read_int-append 8 b.segment_index _ h.segment_index,
      fixed16-append b.client_nonce _ h.client_nonce.size,
      fixed16-append b.server_nonce _ h.server_nonce.size,
      read_u8-append (body_direction_wire b.direction) _,
      body_direction_from_wire-body_direction_wire b.direction,
      read_int-append 4 b.epoch _ h.epoch,
      read_int-append 8 b.seq _ h.seq,
      read_int-append 2 b.body_type _ h.body_type,
      take_bytes_end confirm_label_len b.label h.label.size,
    )

-- A typed body encodes to 87 bytes, which decode to it.
decode_confirm_body-encode_confirm_body :
    (b : ConfirmBody) (out : Bytes)
    → IsTypedBody b
    → encode_confirm_body b ≡ ok out
    → (length out ≡ confirm_body_len) × (decode_confirm_body out ≡ ok b)
unfolding encode_confirm_body
decode_confirm_body-encode_confirm_body b out h e =
    subst (λ (o : Bytes). (length o ≡ confirm_body_len) × (decode_confirm_body o ≡ ok b))
      (ok-injective e) (length-confirm_bytes b h, decode_confirm_body-confirm_bytes b h)
