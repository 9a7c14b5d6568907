-- ===== src/FullOtp/Record/Opening.antt =====
-- crates/otp-fullotp/src/record.rs: what a record that `open_record` accepts has met, and what a
-- refusal leaves.
use jbuu.Base.{
  ℕ, ◌+◌, ◌-◌, ◌≡◌, ◌≤◌, refl, inl, inr, arith, Bool, true, false, not, ◌&&◌, ◌==◌, ltb, length,
}
use jbuu.Base.Result.{ok, err, Result-cases}
use jbuu.Base.Actions.{Post, Ends, Ends-raise_if}
use jbuu.Base.Bytes.{Bytes}
use jbuu.Types.{direction_eq}
use jbuu.FullOtp.{OtpDataRecord, canonical_header, decode_otp}
use jbuu.FullOtp.Error.{
  OtpError, wrong_direction, wrong_bundle, replay, gap, wrong_offset, wrong_tag,
}
use jbuu.FullOtp.Pad.{PadStream, fits, take_mac_key, xor_burn_pad, mac_key_len, pad_half, IsSpent}
use jbuu.FullOtp.Pad.Burning.{behind, length-burn}
use jbuu.FullOtp.Record.{mac_input, ct_eq, OpenExpectation, open_record}

module _ (poly1305 : Bytes → Bytes → Bytes) where
  -- The checks that a record has passed, and what the stream gives.
  pub record Opens (expect : OpenExpectation) (frame : Bytes) (s : PadStream) (plain : Bytes)
      (t : PadStream) : Type 0 where
    pub found : OtpDataRecord
    pub decoded : decode_otp frame ≡ ok found
    pub direction : direction_eq found.direction expect.direction ≡ true
    pub bundle_id : found.bundle_id ≡ expect.bundle_id
    pub base_segment : found.base_segment ≡ expect.base_segment
    pub record_seq : found.record_seq ≡ expect.record_seq
    pub offset : found.pad_offset ≡ s.cursor
    pub room : mac_key_len + length found.ciphertext ≤ pad_half - s.cursor
    pub verified :
        ct_eq
          (poly1305 (take_mac_key s).0 (
            mac_input
              (canonical_header found.direction found.bundle_id found.base_segment found.record_seq
                found.pad_offset
                (length found.ciphertext))
              found.ciphertext))
          found.tag
        ≡ true
    pub plaintext : plain ≡ (xor_burn_pad found.ciphertext (take_mac_key s).1).0
    pub left : t ≡ behind (length found.ciphertext) s

  abbrev pub OpenEnds : OpenExpectation → Bytes → PadStream → Post PadStream OtpError Bytes
  OpenEnds expect frame s (ok plain) t = Opens expect frame s plain t
  OpenEnds expect frame s (err _) t = length t.buf ≡ length s.buf

  not-false : (b : Bool) → not b ≡ false → b ≡ true
  not-false true h = refl
  not-false false h = absurd cc

  both_true : (a b : Bool) → not (a && b) ≡ false → (a ≡ true) × (b ≡ true)
  both_true true true h = (refl, refl)
  both_true true false h = absurd cc
  both_true false b h = absurd cc

  pub open_record-OpenEnds :
      (expect : OpenExpectation) (frame : Bytes) (s : PadStream)
      → IsSpent s
      → Ends (open_record poly1305 expect frame) s (OpenEnds expect frame s)
  unfolding open_record
  open_record-OpenEnds expect frame s spent = elim (Result-cases (decode_otp frame)) [
    | inr (e, bad) ↦ rw bad refl
    | inl (r, decoded) ↦
        let Q = OpenEnds expect frame s in
        let l = length r.ciphertext in
        let header =
          canonical_header r.direction r.bundle_id r.base_segment r.record_seq r.pad_offset l in
        rw decoded (
          Ends-raise_if (not (direction_eq r.direction expect.direction)) wrong_direction _ s Q
            (λ _. refl)
            (λ way.
              Ends-raise_if
                (not (r.bundle_id == expect.bundle_id && r.base_segment == expect.base_segment))
                wrong_bundle _ s Q (λ _. refl)
                (λ bundle.
                  Ends-raise_if (ltb r.record_seq expect.record_seq) replay _ s Q (λ _. refl)
                    (λ fresh.
                      Ends-raise_if (ltb expect.record_seq r.record_seq) gap _ s Q (λ _. refl)
                        (λ next.
                          Ends-raise_if (not (r.pad_offset == s.cursor)) wrong_offset _ s Q
                            (λ _. refl)
                            (λ placed.
                              Ends-raise_if (not (fits s l)) wrong_offset _ s Q (λ _. refl)
                                (λ fit.
                                  Ends-raise_if
                                    (not (
                                      ct_eq
                                        (poly1305 (take_mac_key s).0
                                          (mac_input header r.ciphertext))
                                        r.tag))
                                    wrong_tag _ (take_mac_key s).1 Q
                                    (λ _.
                                      length-burn s.cursor mac_key_len s.buf
                                        (in_buffer s l spent fit))
                                    (λ verified. record {
                                      found = r;
                                      decoded = decoded;
                                      direction = not-false _ way;
                                      bundle_id = equal _ _ (both_true _ _ bundle).0;
                                      base_segment = equal _ _ (both_true _ _ bundle).1;
                                      record_seq = neither _ _ fresh next;
                                      offset = equal _ _ (not-false _ placed);
                                      room = has_room s l fit;
                                      verified = not-false _ verified;
                                      plaintext = refl;
                                      left = refl;
                                    }))))))))
  ]
    where
      equal : (a b : ℕ) → (a == b) ≡ true → a ≡ b
      equal a b h = ground arith

      neither : (a b : ℕ) → ltb a b ≡ false → ltb b a ≡ false → a ≡ b
      neither a b h k = ground arith

      has_room :
          (s : PadStream) (l : ℕ) → not (fits s l) ≡ false → mac_key_len + l ≤ pad_half - s.cursor
      has_room s l h = ground arith

      in_buffer :
          (s : PadStream) (l : ℕ)
          → IsSpent s
          → not (fits s l) ≡ false
          → s.cursor + mac_key_len ≤ length s.buf
      in_buffer s l h fit = let room = has_room s l fit in omega (arith, h.size, h.inside)
