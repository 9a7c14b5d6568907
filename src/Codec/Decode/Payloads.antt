-- ===== src/Codec/Decode/Payloads.antt =====
-- Each payload decoder answers only on what `payload` writes (src/decode.rs, src/encode.rs).
use jbuu.Base.{
  ◌≡◌, refl, arith, not, ◌&&◌, ◌==◌, leb, length, ◌%◌, u32_limit, subst, append-nil, All,
}
use jbuu.Base.Result.{ok, ◌>>=◌, ◌>>◌, >>=-eq-ok}
use jbuu.Base.Bytes.{Bytes, IsByte, to_be-single}
use jbuu.Codec.ErrorCode.{bad_enum, bad_length}
use jbuu.Codec.Message.{
  MsgType, hello_type, arbitrate_type, issue_type, confirm_c2s_type, confirm_s2c_type, data_type,
  Message, arbitrate, confirm_c2s, confirm_s2c, data_record, msg_type, IsTyped, is_wrong_book,
  sealed_len, min_data_field, max_data_field, result_from_wire, result_wire_of,
}
use jbuu.Codec.Encode.{payload, canonical_check}
use jbuu.Codec.Inversion.{
  take_bytes_then, fixed16_then, read_int_then, finish_then, fail_if_then, ok_or_then, ok-injective,
}
use jbuu.Codec.Cursor.{take_bytes, finish}
use jbuu.Codec.Decode.{
  ConfirmParts, decode_hello, decode_arbitrate, decode_issue, decode_confirm, decode_data,
  decode_payload,
}

-- A decoded message has the Rust types' ranges, is canonical, and its payload is what was read.
pub record Decodes (t : MsgType) (p : Bytes) (m : Message) : Type 0 where
  pub kind : msg_type m ≡ t
  pub typed : IsTyped m
  pub canonical : canonical_check m ≡ ok tt
  pub whole : payload m ≡ p

decode_hello-Decodes :
    (p : Bytes) {m : Message} → All IsByte p → decode_hello p ≡ ok m → Decodes hello_type p m
unfolding decode_hello payload canonical_check
decode_hello-Decodes p h e = fixed16_then p h _ e λ i c1 hi w1 b1 e1.
    fixed16_then c1 b1 _ e1 λ n c2 hn w2 b2 e2. read_int_then c2 b2 8 _ e2 λ q c3 hq w3 b3 e3.
      read_int_then c3 b3 4 _ e3 λ f c4 hf w4 b4 e4. finish_then c4 _ e4 λ w5 e5.
        subst (Decodes hello_type p) (ok-injective e5) (record {
          kind = refl;
          typed = (hi, hn, hq, hf);
          canonical = refl;
          whole = rw (w1, w2, w3, w4, w5, append-nil);
        })

decode_arbitrate-Decodes :
    (p : Bytes) {m : Message}
    → All IsByte p
    → decode_arbitrate p ≡ ok m
    → Decodes arbitrate_type p m
unfolding decode_arbitrate payload canonical_check
decode_arbitrate-Decodes p h e = fixed16_then p h _ e λ n c1 hn w1 b1 e1.
    read_int_then c1 b1 8 _ e1 λ q c2 hq w2 b2 e2. read_int_then c2 b2 1 _ e2 λ code c3 hc w3 b3 e3.
      ok_or_then (result_from_wire code) _ _ e3 λ r is_r e4. finish_then c3 _ e4 λ w4 e5.
        fail_if_then (is_wrong_book r && not (q == 0)) bad_enum (ok (arbitrate n q r)) e5
          λ consistent e6. subst (Decodes arbitrate_type p) (ok-injective e6) (record {
            kind = refl;
            typed = (hn, hq);
            canonical = rw consistent;
            whole = rw (w1, w2, w3, w4, result_wire_of code is_r, to_be-single code hc, append-nil);
          })

decode_issue-Decodes :
    (p : Bytes) {m : Message} → All IsByte p → decode_issue p ≡ ok m → Decodes issue_type p m
unfolding decode_issue payload canonical_check
decode_issue-Decodes p h e = read_int_then p h 8 _ e λ q c1 hq w1 b1 e1.
    fixed16_then c1 b1 _ e1 λ n c2 hn w2 b2 e2. fixed16_then c2 b2 _ e2 λ s c3 hs w3 b3 e3.
      finish_then c3 _ e3 λ w4 e4. subst (Decodes issue_type p) (ok-injective e4) (record {
        kind = refl;
        typed = (hq, hn, hs);
        canonical = refl;
        whole = rw (w1, w2, w3, w4, append-nil);
      })

decode_data-Decodes :
    (p : Bytes) {m : Message} → All IsByte p → decode_data p ≡ ok m → Decodes data_type p m
unfolding decode_data payload canonical_check
decode_data-Decodes p h e = read_int_then p h 4 _ e λ ep c1 he w1 b1 e1.
    read_int_then c1 b1 8 _ e1 λ q c2 hq w2 b2 e2. read_int_then c2 b2 4 _ e2 λ n c3 hn w3 b3 e3.
      fail_if_then (not (leb min_data_field n && leb n max_data_field)) bad_length
        (do (body, c4) ← take_bytes n c3; finish c4; ok (data_record ep q body)) e3
        λ allowed e4.
          take_bytes_then c3 b3 n (λ (body, c4). do finish c4; ok (data_record ep q body)) e4
            λ body c4 hb w4 b4 e5. finish_then c4 (ok (data_record ep q body)) e5 λ w5 e6.
              subst (Decodes data_type p) (ok-injective e6) (record {
                kind = refl;
                typed = (he, hq, hb.bytes);
                canonical = rw (hb.size, allowed);
                whole =
                    let size : length body % u32_limit ≡ n = omega (arith, hb.size) in
                    rw (size, w1, w2, w3, w4, w5, append-nil);
              })

-- Both confirmation types share their decoder.
record IsConfirm (p : Bytes) (parts : ConfirmParts) : Type 0 where
  c2s : Decodes confirm_c2s_type p (confirm_c2s parts.0 parts.1 parts.2 parts.3 parts.4)
  s2c : Decodes confirm_s2c_type p (confirm_s2c parts.0 parts.1 parts.2 parts.3 parts.4)

decode_confirm-IsConfirm :
    (p : Bytes) {parts : ConfirmParts}
    → All IsByte p
    → decode_confirm p ≡ ok parts
    → IsConfirm p parts
unfolding decode_confirm payload canonical_check
decode_confirm-IsConfirm p h e = read_int_then p h 8 _ e λ i c1 hi w1 b1 e1.
    fixed16_then c1 b1 _ e1 λ n c2 hn w2 b2 e2. read_int_then c2 b2 4 _ e2 λ ep c3 he w3 b3 e3.
      read_int_then c3 b3 8 _ e3 λ q c4 hq w4 b4 e4.
        take_bytes_then c4 b4 sealed_len _ e4 λ s c5 hs w5 b5 e5. finish_then c5 _ e5 λ w6 e6.
          subst (IsConfirm p) (ok-injective e6) (record {
            c2s = record {
              kind = refl;
              typed = (hi, hn, he, hq, hs);
              canonical = refl;
              whole = rw (w1, w2, w3, w4, w5, w6, append-nil);
            };
            s2c = record {
              kind = refl;
              typed = (hi, hn, he, hq, hs);
              canonical = refl;
              whole = rw (w1, w2, w3, w4, w5, w6, append-nil);
            };
          })

pub decode_payload-Decodes :
    (t : MsgType) (p : Bytes) {m : Message}
    → All IsByte p
    → decode_payload t p ≡ ok m
    → Decodes t p m
unfolding decode_payload
decode_payload-Decodes hello_type p h e = decode_hello-Decodes p h e
decode_payload-Decodes arbitrate_type p h e = decode_arbitrate-Decodes p h e
decode_payload-Decodes issue_type p h e = decode_issue-Decodes p h e
decode_payload-Decodes confirm_c2s_type p h e =
    let (parts, t, e') = >>=-eq-ok (decode_confirm p) _ e in
    subst (Decodes confirm_c2s_type p) (ok-injective e') (decode_confirm-IsConfirm p h t).c2s
decode_payload-Decodes confirm_s2c_type p h e =
    let (parts, t, e') = >>=-eq-ok (decode_confirm p) _ e in
    subst (Decodes confirm_s2c_type p) (ok-injective e') (decode_confirm-IsConfirm p h t).s2c
decode_payload-Decodes data_type p h e = decode_data-Decodes p h e
