-- ===== src/FullOtp/Wire.antt =====
-- crates/otp-fullotp/src/wire.rs: `decode` after `encode`, and what decodes at all.
use jbuu.Base.{
  ℕ, ◌+◌, ◌-◌, ◌%◌, ◌≤◌, ◌<◌, ◌^◌, ◌≡◌, refl, sym, subst, ap, ◌∙◌, arith, Bool, true, false, not,
  ◌&&◌, ◌==◌, leb, ltb, Option, none, some, [], ◌∷◌, ◌++◌, length, take, drop, take-append,
  drop-append, drop-drop, length-take_le, length-drop, append_assoc, u16_limit,
}
use jbuu.Base.Result.{Result, ok, err, fail_if, ok_or, ◌>>=◌, ◌>>◌}
use jbuu.Base.Bytes.{Bytes, to_be, from_be, from_be-to_be, length-to_be, lengths, to_be-single}
use jbuu.Types.{Direction, client_to_server, server_to_client}
use jbuu.FullOtp.{
  otp_version, msg_type_otp_data, mode_full_otp_poly1305, otp_direction_wire,
  otp_direction_from_wire, OtpDataRecord, canonical_header, encode_otp, field_at, decode_otp,
  IsTypedOtp, IsInPad, WireError, too_short, too_long, version_error, msg_type_error, mode_error,
  direction_error, ciphertext_len_error, length_mismatch, offset_bounds,
}

from_be-single : (b : ℕ) → b < 256 → from_be (b ∷ []) ≡ b
from_be-single b h =
    ap (λ (x : Bytes). from_be x) (sym (to_be-single b h)) ∙ from_be-to_be 1 b (omega arith)

-- What follows a field that an offset has.
further : (w x y : Bytes) (n k : ℕ) → length x ≡ k → drop n w ≡ x ++ y → drop (n + k) w ≡ y
further w x y n k size at_n =
    sym (drop-drop n k w) ∙ ap (λ (z : Bytes). drop k z) at_n ∙ drop-append x y k size

-- The field that an offset has.
field :
    (w n v : ℕ) (bytes rest : Bytes)
    → v < 256 ^ w
    → drop n bytes ≡ to_be w v ++ rest
    → field_at w n bytes ≡ v
field w n v bytes rest h at_n =
    ap (λ (x : Bytes). from_be (take w x)) at_n
    ∙ ap (λ (x : Bytes). from_be x) (take-append (to_be w v) rest w (length-to_be w v))
    ∙ from_be-to_be w v h

byte : (n v : ℕ) (bytes rest : Bytes) → v < 256 → drop n bytes ≡ v ∷ rest → field_at 1 n bytes ≡ v
byte n v bytes rest h at_n = ap (λ (x : Bytes). from_be (take 1 x)) at_n ∙ from_be-single v h

otp_direction-lt : (d : Direction) → otp_direction_wire d < 256
unfolding otp_direction_wire
otp_direction-lt d = ground arith

otp_direction_from_wire-otp_direction_wire :
    (d : Direction) → otp_direction_from_wire (otp_direction_wire d) ≡ some d
unfolding otp_direction_wire otp_direction_from_wire
otp_direction_from_wire-otp_direction_wire client_to_server = refl
otp_direction_from_wire-otp_direction_wire server_to_client = refl

-- The bytes of a record, by their fields.
record AreFieldsOf (w : Bytes) (r : OtpDataRecord) : Type 0 where
  size : length w ≡ 50 + length r.ciphertext
  version_field : field_at 2 0 w ≡ otp_version
  type_field : field_at 2 2 w ≡ msg_type_otp_data
  mode : field_at 1 4 w ≡ mode_full_otp_poly1305
  direction : field_at 1 5 w ≡ otp_direction_wire r.direction
  bundle_id : field_at 8 6 w ≡ r.bundle_id
  base_segment : field_at 8 14 w ≡ r.base_segment
  record_seq : field_at 8 22 w ≡ r.record_seq
  pad_offset : field_at 2 30 w ≡ r.pad_offset
  text_size : field_at 2 32 w ≡ length r.ciphertext
  text : take (length r.ciphertext) (drop 34 w) ≡ r.ciphertext
  tag : drop (length w - 16) w ≡ r.tag

decode_otp-fields :
    (w : Bytes) (r : OtpDataRecord) → AreFieldsOf w r → IsInPad r → decode_otp w ≡ ok r
unfolding decode_otp
decode_otp-fields w r has placed =
    let n = length r.ciphertext in
    let some_text = placed.some_text in
    let fits = placed.fits in
    let size = has.size in
    let short : ltb (length w) 51 ≡ false = ground arith in
    let long : ltb 4114 (length w) ≡ false = ground arith in
    let allowed : not (leb 1 n && leb n 4064) ≡ false = ground arith in
    let exact : not (length w == 34 + n + 16) ≡ false = ground arith in
    let inside : ltb 4096 (r.pad_offset + 32 + n) ≡ false = ground arith in
    rw
      (
        short,
        long,
        has.version_field,
        has.type_field,
        has.mode,
        has.direction,
        otp_direction_from_wire-otp_direction_wire r.direction,
        has.text_size,
        allowed,
        exact,
        has.pad_offset,
        inside,
        has.bundle_id,
        has.base_segment,
        has.record_seq,
        has.text,
        has.tag,
      )
      refl

module _ (r : OtpDataRecord) (typed : IsTypedOtp r) (placed : IsInPad r) where
  abbrev size_of : ℕ
  size_of = length r.ciphertext

  abbrev size_field : Bytes
  size_field = to_be 2 (size_of % u16_limit)

  abbrev text_and_tag : Bytes
  text_and_tag = r.ciphertext ++ r.tag

  abbrev parts : Bytes
  parts =
      to_be 2 otp_version
      ++ (to_be 2 msg_type_otp_data
          ++ (mode_full_otp_poly1305
              ∷ (otp_direction_wire r.direction
                  ∷ (to_be 8 r.bundle_id
                      ++ (to_be 8 r.base_segment
                          ++ (to_be 8 r.record_seq
                              ++ (to_be 2 r.pad_offset ++ (size_field ++ text_and_tag))))))))

  encode_otp-parts : encode_otp r ≡ parts
  unfolding encode_otp canonical_header
  encode_otp-parts =
      let rest = r.ciphertext ++ r.tag in
      let i = size_field in
      let h = to_be 2 r.pad_offset in
      let g = to_be 8 r.record_seq in
      let f = to_be 8 r.base_segment in
      let e = to_be 8 r.bundle_id in
      let b = to_be 2 msg_type_otp_data in
      let a = to_be 2 otp_version in
      append_assoc a _ rest
      ∙ ap (λ (x : Bytes). a ++ x)
          (append_assoc b _ rest
            ∙ ap
                (λ (x : Bytes).
                  b ++ (mode_full_otp_poly1305 ∷ (otp_direction_wire r.direction ∷ x)))
                (append_assoc e _ rest
                  ∙ ap (λ (x : Bytes). e ++ x)
                      (append_assoc f _ rest
                        ∙ ap (λ (x : Bytes). f ++ x)
                            (append_assoc g _ rest
                              ∙ ap (λ (x : Bytes). g ++ x) (append_assoc h i rest)))))

  parts-AreFieldsOf : AreFieldsOf parts r
  parts-AreFieldsOf =
      let n = size_of in
      let w = parts in
      let fits = placed.fits in
      let cut : n % u16_limit ≡ n = omega arith in
      let d2 = further w (to_be 2 otp_version) _ 0 2 (length-to_be 2 otp_version) refl in
      let d4 = further w (to_be 2 msg_type_otp_data) _ 2 2 (length-to_be 2 msg_type_otp_data) d2 in
      let d5 = further w (mode_full_otp_poly1305 ∷ []) _ 4 1 refl d4 in
      let d6 = further w (otp_direction_wire r.direction ∷ []) _ 5 1 refl d5 in
      let d14 = further w (to_be 8 r.bundle_id) _ 6 8 (length-to_be 8 r.bundle_id) d6 in
      let d22 = further w (to_be 8 r.base_segment) _ 14 8 (length-to_be 8 r.base_segment) d14 in
      let d30 = further w (to_be 8 r.record_seq) _ 22 8 (length-to_be 8 r.record_seq) d22 in
      let d32 = further w (to_be 2 r.pad_offset) _ 30 2 (length-to_be 2 r.pad_offset) d30 in
      let d34 = further w size_field text_and_tag 32 2 (length-to_be 2 (n % u16_limit)) d32 in
      let size : length w ≡ 50 + n = omega (lengths, typed.tag) in
      let last : length w - 16 ≡ 34 + n = omega arith in
      record {
        size = size;
        version_field = field 2 0 otp_version w _ (omega arith) refl;
        type_field = field 2 2 msg_type_otp_data w _ (omega arith) d2;
        mode = byte 4 mode_full_otp_poly1305 w _ (omega arith) d4;
        direction = byte 5 (otp_direction_wire r.direction) w _ (otp_direction-lt r.direction) d5;
        bundle_id = field 8 6 r.bundle_id w _ typed.bundle_id d6;
        base_segment = field 8 14 r.base_segment w _ typed.base_segment d14;
        record_seq = field 8 22 r.record_seq w _ typed.record_seq d22;
        pad_offset = field 2 30 r.pad_offset w _ typed.pad_offset d30;
        text_size = field 2 32 (n % u16_limit) w text_and_tag (omega arith) d32 ∙ cut;
        text = ap (λ (x : Bytes). take n x) d34 ∙ take-append r.ciphertext r.tag n refl;
        tag = ap (λ (k : ℕ). drop k w) last ∙ further w r.ciphertext r.tag 34 n refl d34;
      }

  -- A record in the ranges of its types, whose text is not empty and lies in the pad behind its key,
  -- is encoded to bytes that decode to it.
  pub decode_otp-encode_otp : decode_otp (encode_otp r) ≡ ok r
  decode_otp-encode_otp =
      ap (λ (x : Bytes). decode_otp x) encode_otp-parts
      ∙ decode_otp-fields parts r parts-AreFieldsOf placed

exact_size : (l n : ℕ) → not (l == 34 + n + 16) ≡ false → l ≡ 50 + n
exact_size l n h = ground arith

one_at_least : (n : ℕ) → not (leb 1 n && leb n 4064) ≡ false → 1 ≤ n
one_at_least n h = ground arith

inside_pad : (o n : ℕ) → ltb 4096 (o + 32 + n) ≡ false → o + 32 + n ≤ 4096
inside_pad o n h = ground arith

text_len : (w : Bytes) (n : ℕ) → length w ≡ 50 + n → length (take n (drop 34 w)) ≡ n
text_len w n h = length-take_le n (drop 34 w) (omega (arith, length-drop 34 w))

abbrev Decoded : Bytes → Result OtpDataRecord WireError → Type 0
Decoded w (ok r) = IsInPad r × (length w ≡ 50 + length r.ciphertext)
Decoded w (err _) = Unit {0}

module _ (w : Bytes) where
  Decoded-fail_if :
      (b : Bool) (e : WireError) (k : Result OtpDataRecord WireError)
      → (b ≡ false → Decoded w k)
      → Decoded w (fail_if b e >> k)
  Decoded-fail_if true e k passes = tt
  Decoded-fail_if false e k passes = passes refl

  Decoded-ok_or :
      {A : Type 0} (o : Option A) (e : WireError) (f : A → Result OtpDataRecord WireError)
      → ((a : A) → Decoded w (f a))
      → Decoded w (ok_or o e >>= f)
  Decoded-ok_or none e f passes = tt
  Decoded-ok_or (some a) e f passes = passes a

  decode_otp-Decoded : Decoded w (decode_otp w)
  unfolding decode_otp
  decode_otp-Decoded =
      let n = field_at 2 32 w in
      Decoded-fail_if (ltb (length w) 51) too_short _ (λ _.
        Decoded-fail_if (ltb 4114 (length w)) too_long _ (λ _.
          Decoded-fail_if (not (field_at 2 0 w == otp_version)) version_error _ (λ _.
            Decoded-fail_if (not (field_at 2 2 w == msg_type_otp_data)) msg_type_error _ (λ _.
              Decoded-fail_if (not (field_at 1 4 w == mode_full_otp_poly1305)) mode_error _ (λ _.
                Decoded-ok_or (otp_direction_from_wire (field_at 1 5 w)) direction_error _ (λ d.
                  Decoded-fail_if (not (leb 1 n && leb n 4064)) ciphertext_len_error _ (λ allowed.
                    Decoded-fail_if (not (length w == 34 + n + 16)) length_mismatch _ (λ exact.
                      Decoded-fail_if (ltb 4096 (field_at 2 30 w + 32 + n)) offset_bounds _
                        (λ inside.
                          let whole = exact_size (length w) n exact in
                          let size = text_len w n whole in
                          (
                            record {
                              some_text =
                                  subst (λ (k : ℕ). 1 ≤ k) (sym size) (one_at_least n allowed);
                              fits =
                                  subst (λ (k : ℕ). field_at 2 30 w + 32 + k ≤ 4096) (sym size)
                                    (inside_pad (field_at 2 30 w) n inside);
                            },
                            whole ∙ ap (λ (k : ℕ). 50 + k) (sym size),
                          ))))))))))

-- Whatever bytes decode, they are a header of 34 bytes, a text that is not empty and a tag of 16
-- bytes, and the text lies in the pad behind its key.
decode_otp-IsInPad :
    (w : Bytes) (r : OtpDataRecord)
    → decode_otp w ≡ ok r
    → IsInPad r × (length w ≡ 50 + length r.ciphertext)
decode_otp-IsInPad w r h =
    subst (λ (x : Result OtpDataRecord WireError). Decoded w x) h (decode_otp-Decoded w)
