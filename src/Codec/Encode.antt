-- ===== src/Codec/Encode.antt =====
-- crates/otp-codec/src/encode.rs: canonical encoding. `out` is the buffer that is appended to.
use jbuu.Base.{
  ℕ, ◌+◌, ◌≡◌, refl, ◌⊎◌, inl, inr, Bool-cases, arith, ◌%◌, not, ◌&&◌, ◌==◌, leb, [], ◌∷◌, ◌++◌,
  length, u32_limit,
}
use jbuu.Base.Result.{Result, ok, err, fail_if}
use jbuu.Base.Bytes.{Bytes, to_be, lengths}
use jbuu.Codec.ErrorCode.{ErrorCode, bad_enum, bad_length}
use jbuu.Codec.Message.{
  Message, hello, arbitrate, issue_request, confirm_c2s, confirm_s2c, data_record, msg_type,
  type_wire, payload_len_range, is_wrong_book, result_wire, version, min_data_field, max_data_field,
  ConfirmBody, body_direction_wire, IsTyped,
}

-- `payload_len_of`
unfoldable pub payload_len_of : Message → ℕ
payload_len_of (data_record _ _ body) = 16 + length body
payload_len_of m = (payload_len_range (msg_type m)).0

-- The checks of `encode_into` before the first byte is written.
unfoldable pub canonical_check : Message → Result (Unit {0}) ErrorCode
canonical_check (arbitrate _ server_pointer result) =
    fail_if (is_wrong_book result && not (server_pointer == 0)) bad_enum
canonical_check (data_record _ _ body) =
    fail_if (not (leb min_data_field (length body) && leb (length body) max_data_field)) bad_length
canonical_check m = ok tt

-- The field writes of `encode_into`, in their order.
unfoldable pub payload : Message → Bytes
payload (hello book_id client_nonce client_pointer features) =
    book_id ++ (client_nonce ++ (to_be 8 client_pointer ++ to_be 4 features))
payload (arbitrate server_nonce server_pointer result) =
    server_nonce ++ (to_be 8 server_pointer ++ (result_wire result ∷ []))
payload (issue_request chosen client_nonce server_nonce) =
    to_be 8 chosen ++ (client_nonce ++ server_nonce)
payload (confirm_c2s segment session_nonce epoch seq sealed) =
    to_be 8 segment ++ (session_nonce ++ (to_be 4 epoch ++ (to_be 8 seq ++ sealed)))
payload (confirm_s2c segment session_nonce epoch seq sealed) =
    to_be 8 segment ++ (session_nonce ++ (to_be 4 epoch ++ (to_be 8 seq ++ sealed)))
payload (data_record epoch seq body) =
    to_be 4 epoch ++ (to_be 8 seq ++ (to_be 4 (length body % u32_limit) ++ body))

-- The whole frame: version, type, `payload_len_of(msg) as u32`, fields.
unfoldable pub frame : Message → Bytes
frame m =
    to_be 2 version
    ++ (to_be 2 (type_wire (msg_type m)) ++ (to_be 4 (payload_len_of m % u32_limit) ++ payload m))

-- The result and the buffer afterwards.
unfoldable pub encode_into : Message → Bytes → Result (Unit {0}) ErrorCode × Bytes
encode_into m out = elim (canonical_check m) [
  | ok _ ↦ (ok tt, out ++ frame m)
  | err e ↦ (err e, out)
]

unfoldable pub encode : Message → Result Bytes ErrorCode
encode m = let (result, out) = encode_into m [] in elim result [ ok _ ↦ ok out | err e ↦ err e ]

-- The field writes of `encode_confirm_body`.
unfoldable pub confirm_bytes : ConfirmBody → Bytes
confirm_bytes b =
    to_be 2 version
    ++ (b.book_id
        ++ (to_be 8 b.segment_index
            ++ (b.client_nonce
                ++ (b.server_nonce
                    ++ (body_direction_wire b.direction
                        ∷ (to_be 4 b.epoch
                            ++ (to_be 8 b.seq ++ (to_be 2 b.body_type ++ b.label))))))))

unfoldable pub encode_confirm_body : ConfirmBody → Result Bytes ErrorCode
encode_confirm_body b = ok (confirm_bytes b)

-- `encode` by cases of the check.
pub encode-eq : (m : Message) → canonical_check m ≡ ok tt → encode m ≡ ok (frame m)
unfolding encode encode_into
encode-eq m h = ground arith

pub encode_fails : (m : Message) {e : ErrorCode} → canonical_check m ≡ err e → encode m ≡ err e
unfolding encode encode_into
encode_fails m h = ground arith

-- The predicted length is the length of what is written.
pub length-payload : (m : Message) → IsTyped m → length (payload m) ≡ payload_len_of m
unfolding payload payload_len_of
length-payload (hello i n p f) h = omega lengths
length-payload (arbitrate n p r) h = omega lengths
length-payload (issue_request p c n) h = omega lengths
length-payload (confirm_c2s i n e q s) h = omega lengths
length-payload (confirm_s2c i n e q s) h = omega lengths
length-payload (data_record e q b) h = omega lengths

encode_into_succeeds :
    (m : Message) (out : Bytes)
    → canonical_check m ≡ ok tt
    → encode_into m out ≡ (ok tt, out ++ frame m)
unfolding encode_into
encode_into_succeeds m out h = ground arith

encode_into_fails :
    (m : Message) (out : Bytes) {e : ErrorCode}
    → canonical_check m ≡ err e
    → encode_into m out ≡ (err e, out)
unfolding encode_into
encode_into_fails m out h = ground arith

canonical_check-cases :
    (m : Message)
    → (canonical_check m ≡ ok tt)
      ⊎ ((e : ErrorCode) × (canonical_check m ≡ err e) × ((e ≡ bad_enum) ⊎ (e ≡ bad_length)))
unfolding canonical_check
canonical_check-cases (hello i n p f) = inl refl
canonical_check-cases (arbitrate n p r) = elim (Bool-cases (is_wrong_book r && not (p == 0))) [
  | inl h ↦ inr (bad_enum, rw h, inl refl)
  | inr h ↦ inl (rw h)
]
canonical_check-cases (issue_request p c n) = inl refl
canonical_check-cases (confirm_c2s i n e q s) = inl refl
canonical_check-cases (confirm_s2c i n e q s) = inl refl
canonical_check-cases (data_record e q b) =
    elim (Bool-cases (leb min_data_field (length b) && leb (length b) max_data_field)) [
      | inl h ↦ inl (rw h)
      | inr h ↦ inr (bad_length, rw h, inr refl)
    ]

-- `encode_into` either appends what `encode` answers, or fails with the error of `encode`, which is
-- BAD_ENUM or BAD_LENGTH, and leaves the buffer as it was.
encode_into-encode :
    (m : Message) (out : Bytes)
    → ((bytes : Bytes) × (encode m ≡ ok bytes) × (encode_into m out ≡ (ok tt, out ++ bytes)))
      ⊎ ((e : ErrorCode) × (encode m ≡ err e)
          × (encode_into m out ≡ (err e, out))
          × ((e ≡ bad_enum) ⊎ (e ≡ bad_length)))
encode_into-encode m out = elim (canonical_check-cases m) [
  | inl h ↦ inl (frame m, encode-eq m h, encode_into_succeeds m out h)
  | inr (e, h, code) ↦ inr (e, encode_fails m h, encode_into_fails m out h, code)
]
