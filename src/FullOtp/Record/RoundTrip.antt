-- ===== src/FullOtp/Record/RoundTrip.antt =====
-- crates/otp-fullotp/src/record.rs: `open_record` after `seal_record`, over streams with the same
-- bytes.
use jbuu.Base.{
  ℕ, ◌+◌, ◌-◌, ◌≡◌, ◌≤◌, ◌<◌, refl, ap, ◌∙◌, arith, true, false, ◌==◌, ltb, min, length, u64_limit,
}
use jbuu.Base.Result.{ok}
use jbuu.Base.Bytes.{Bytes}
use jbuu.Types.{Direction, client_to_server, server_to_client, direction_eq, tag_len}
use jbuu.FullOtp.{OtpDataRecord, canonical_header, encode_otp, decode_otp, IsTypedOtp, IsInPad}
use jbuu.FullOtp.Wire.{decode_otp-encode_otp}
use jbuu.FullOtp.Pad.{PadStream, fits, take_mac_key, xor_burn_pad, mac_key_len, pad_half, IsSpent}
use jbuu.FullOtp.Pad.Burning.{behind, length-xor_pad, xor_pad-xor_pad}
use jbuu.FullOtp.Record.{mac_input, OpenExpectation, seal_record, open_record}
use jbuu.FullOtp.Record.Compare.{ct_eq_self}

-- The values of a stream are in the ranges of their types.
pub record IsTypedStream (s : PadStream) : Type 0 where
  pub bundle_id : s.bundle_id < u64_limit
  pub base_segment : s.base_segment < u64_limit

abbrev pub TagSize : (Bytes → Bytes → Bytes) → Type 0
TagSize poly1305 = (key message : Bytes) → length (poly1305 key message) ≡ tag_len

-- What the receiver expects of the next record of a stream.
abbrev pub expected_of : Direction → ℕ → PadStream → OpenExpectation
expected_of d n s = record {
  direction = d;
  bundle_id = s.bundle_id;
  base_segment = s.base_segment;
  record_seq = n;
}

pub direction_eq_refl : (d : Direction) → direction_eq d d ≡ true
direction_eq_refl client_to_server = refl
direction_eq_refl server_to_client = refl

module _ (poly1305 : Bytes → Bytes → Bytes) where
  -- The record that is sealed.
  abbrev pub sealed : Direction → ℕ → Bytes → PadStream → OtpDataRecord
  sealed d n text s =
      let (key, t) = take_mac_key s in
      let ciphertext = (xor_burn_pad text t).0 in
      let header =
        canonical_header d s.bundle_id s.base_segment n (min s.cursor 0xffff) (length text) in
      record {
        direction = d;
        bundle_id = s.bundle_id;
        base_segment = s.base_segment;
        record_seq = n;
        pad_offset = min s.cursor 0xffff;
        ciphertext = ciphertext;
        tag = poly1305 key (mac_input header ciphertext);
      }

  pub seal_record-sealed :
      (d : Direction) (n : ℕ) (text : Bytes) (s : PadStream)
      → 1 ≤ length text
      → fits s (length text) ≡ true
      → seal_record poly1305 d n text s ≡ (ok (sealed d n text s), behind (length text) s)
  unfolding seal_record
  seal_record-sealed d n text s some_text room =
      let filled : (length text == 0) ≡ false = ground arith in rw (filled, room) refl

  -- A frame that meets every check.
  record Passes (expect : OpenExpectation) (r : OtpDataRecord) (s : PadStream) : Type 0 where
    direction : direction_eq r.direction expect.direction ≡ true
    bundle_id : (r.bundle_id == expect.bundle_id) ≡ true
    base_segment : (r.base_segment == expect.base_segment) ≡ true
    fresh : ltb r.record_seq expect.record_seq ≡ false
    next : ltb expect.record_seq r.record_seq ≡ false
    placed : (r.pad_offset == s.cursor) ≡ true
    fit : fits s (length r.ciphertext) ≡ true
    tag :
        r.tag
        ≡ poly1305 (take_mac_key s).0 (
            mac_input
              (canonical_header r.direction r.bundle_id r.base_segment r.record_seq r.pad_offset
                (length r.ciphertext))
              r.ciphertext)

  open_record-Passes :
      (expect : OpenExpectation) (frame : Bytes) (r : OtpDataRecord) (s : PadStream)
      → decode_otp frame ≡ ok r
      → Passes expect r s
      → open_record poly1305 expect frame s
        ≡ (ok (xor_burn_pad r.ciphertext (take_mac_key s).1).0, behind (length r.ciphertext) s)
  unfolding open_record
  open_record-Passes expect frame r s decoded h =
      rw
        (
          decoded, h.direction, h.bundle_id, h.base_segment, h.fresh, h.next, h.placed, h.fit,
          h.tag, ct_eq_self,
        )
        refl

  module _ (d : Direction) (n : ℕ) (text : Bytes) (s : PadStream) (law : TagSize poly1305)
      (typed : IsTypedStream s) (spent : IsSpent s) (seq : n < u64_limit)
      (some_text : 1 ≤ length text) (room : fits s (length text) ≡ true) where
    abbrev pub text_size : length (sealed d n text s).ciphertext ≡ length text
    text_size = length-xor_pad text _

    offset : min s.cursor 0xffff ≡ s.cursor
    offset = let h = spent.inside in ground arith

    sealed-IsTypedOtp : IsTypedOtp (sealed d n text s)
    sealed-IsTypedOtp = record {
      bundle_id = typed.bundle_id;
      base_segment = typed.base_segment;
      record_seq = seq;
      pad_offset = let h = spent.inside in ground arith;
      tag = law _ _;
    }

    in_pad : mac_key_len + length text ≤ pad_half - s.cursor
    in_pad = ground arith

    sealed-IsInPad : IsInPad (sealed d n text s)
    sealed-IsInPad = record {
      some_text = rw text_size some_text;
      fits = rw (offset, text_size) (omega (arith, in_pad, some_text));
    }

    sealed-Passes : Passes (expected_of d n s) (sealed d n text s) s
    sealed-Passes = record {
      direction = direction_eq_refl d;
      bundle_id = ground arith;
      base_segment = ground arith;
      fresh = ground arith;
      next = ground arith;
      placed = rw offset (ground arith);
      fit = rw text_size room;
      tag = rw text_size refl;
    }

    pub decode_otp-sealed : decode_otp (encode_otp (sealed d n text s)) ≡ ok (sealed d n text s)
    decode_otp-sealed = decode_otp-encode_otp (sealed d n text s) sealed-IsTypedOtp sealed-IsInPad

    -- A text that is not empty and fits, sealed over a stream and opened over the same stream at the
    -- other end, which expects that record, is itself; both streams are then burnt and advanced alike.
    pub open_record-seal_record :
        (seal_record poly1305 d n text s ≡ (ok (sealed d n text s), behind (length text) s))
        × (open_record poly1305 (expected_of d n s) (encode_otp (sealed d n text s)) s
            ≡ (ok text, behind (length text) s))
    open_record-seal_record = (
      seal_record-sealed d n text s some_text room,
      open_record-Passes (expected_of d n s) _ (sealed d n text s) s decode_otp-sealed sealed-Passes
          ∙ ap (λ (x : Bytes). (ok x, behind (length (sealed d n text s).ciphertext) s))
              (xor_pad-xor_pad text _)
          ∙ ap (λ (l : ℕ). (ok text, behind l s)) text_size,
    )
