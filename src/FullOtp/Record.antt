-- ===== src/FullOtp/Record.antt =====
-- crates/otp-fullotp/src/record.rs: sealing and opening a record with a key for one use and a pad.
-- Poly1305 is the crate `poly1305` and a parameter, a function of the key and the message.
pub mod Compare
pub mod RoundTrip
pub mod Opening
use Prim.Native.Nat.{bit_or, bit_xor}
use jbuu.Base.{ℕ, ◌+◌, ◌≡◌, Bool, not, ◌&&◌, ◌==◌, leb, ltb, min, [], ◌∷◌, ◌++◌, length}
use jbuu.Base.Result.{Result, ok, err}
use jbuu.Base.State.{Action, pure, raise_if, get, modify, ◌>>=◌, ◌>>◌}
use jbuu.Base.Bytes.{Bytes, to_be}
use jbuu.Types.{Direction, direction_eq, tag_len}
use jbuu.FullOtp.{OtpDataRecord, canonical_header, decode_otp, WireError}
use jbuu.FullOtp.Error.{
  OtpError, wire, wrong_direction, wrong_bundle, replay, gap, wrong_offset, wrong_tag, does_not_fit,
}
use jbuu.FullOtp.Pad.{PadStream, fits, take_mac_key, xor_burn_pad, advance}

-- "otp-term/full-otp/data/v1"
abbrev pub domain_separator : Bytes
domain_separator =
    b'o' ∷ b't' ∷ b'p' ∷ b'-' ∷ b't' ∷ b'e' ∷ b'r' ∷ b'm' ∷ b'/' ∷ b'f' ∷ b'u' ∷ b'l' ∷ b'l' ∷ b'-'
    ∷ b'o' ∷ b't' ∷ b'p' ∷ b'/' ∷ b'd' ∷ b'a' ∷ b't' ∷ b'a' ∷ b'/' ∷ b'v' ∷ b'1' ∷ []

unfoldable pub mac_input : Bytes → Bytes → Bytes
mac_input header ciphertext =
    domain_separator ++ (to_be 2 (length domain_separator) ++ (header ++ ciphertext))

-- The loop of `ct_eq_16`, over two arrays of 16 bytes.
unfoldable pub differences : ℕ → Bytes → Bytes → ℕ
differences diff [] b = diff
differences diff (x ∷ xs) [] = diff
differences diff (x ∷ xs) (y ∷ ys) = differences (bit_or diff (bit_xor x y)) xs ys

-- `ct_eq_16`
unfoldable pub ct_eq : Bytes → Bytes → Bool
unfolding differences
ct_eq a b = differences 0 a b == 0

-- `OpenExpectation`
pub record OpenExpectation : Type 0 where
  pub direction : Direction
  pub bundle_id : ℕ
  pub base_segment : ℕ
  pub record_seq : ℕ

-- `?` on `wire::decode`, whose error becomes `OtpError::Wire`.
abbrev pub read_frame : Result OtpDataRecord WireError → Action PadStream OtpError OtpDataRecord
read_frame (ok r) s = (ok r, s)
read_frame (err e) s = (err (wire e), s)

-- A method that changes the stream and answers a value.
abbrev pub apply : {A : Type 0} → (PadStream → A × PadStream) → Action PadStream OtpError A
apply f s = let (a, t) = f s in (ok a, t)

module _ (poly1305 : Bytes → Bytes → Bytes) where
  unfoldable pub seal_record : Direction → ℕ → Bytes → Action PadStream OtpError OtpDataRecord
  seal_record direction record_seq plaintext = do
    let l = length plaintext
    raise_if (l == 0) does_not_fit
    s ← get
    raise_if (not (fits s l)) does_not_fit
    let pad_offset = min s.cursor 0xffff
    key ← apply take_mac_key
    ciphertext ← apply (xor_burn_pad plaintext)
    modify (advance l)
    let header = canonical_header direction s.bundle_id s.base_segment record_seq pad_offset l
    pure (record {
      direction = direction;
      bundle_id = s.bundle_id;
      base_segment = s.base_segment;
      record_seq = record_seq;
      pad_offset = pad_offset;
      ciphertext = ciphertext;
      tag = poly1305 key (mac_input header ciphertext);
    })

  unfoldable pub open_record : OpenExpectation → Bytes → Action PadStream OtpError Bytes
  open_record expect frame = do
    rec ← read_frame (decode_otp frame)
    raise_if (not (direction_eq rec.direction expect.direction)) wrong_direction
    raise_if (not (rec.bundle_id == expect.bundle_id && rec.base_segment == expect.base_segment))
        wrong_bundle
    raise_if (ltb rec.record_seq expect.record_seq) replay
    raise_if (ltb expect.record_seq rec.record_seq) gap
    s ← get
    raise_if (not (rec.pad_offset == s.cursor)) wrong_offset
    let l = length rec.ciphertext
    raise_if (not (fits s l)) wrong_offset
    key ← apply take_mac_key
    let header =
        canonical_header rec.direction rec.bundle_id rec.base_segment rec.record_seq rec.pad_offset
          l
    raise_if (not (ct_eq (poly1305 key (mac_input header rec.ciphertext)) rec.tag)) wrong_tag
    plaintext ← apply (xor_burn_pad rec.ciphertext)
    modify (advance l)
    pure plaintext
