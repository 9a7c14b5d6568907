-- ===== src/FullOtp/Pad.antt =====
-- crates/otp-fullotp/src/pad.rs: the pad of one direction, and the bytes of it that are used. The
-- callers check `fits` first, so that no slice leaves the buffer.
pub mod Burning
use Prim.Native.Nat.{bit_xor}
use jbuu.Base.{
  ℕ, ◌+◌, ◌-◌, ◌%◌, ◌≡◌, ◌≤◌, Bool, leb, ltb, min, List, [], ◌∷◌, ◌++◌, length, take, drop,
  replicate, All, u64_limit,
}
use jbuu.Base.Bytes.{Bytes}
use jbuu.FullOtp.{max_ciphertext_len}

abbrev pub pad_half : ℕ
pad_half = 4096

abbrev pub mac_key_len : ℕ
mac_key_len = 32

abbrev pub low_water : ℕ
low_water = 1024

pub record PadStream : Type 0 where
  pub bundle_id : ℕ
  pub base_segment : ℕ
  pub buf : Bytes
  pub cursor : ℕ

-- `PadStream::from_half`
abbrev pub from_half : ℕ → ℕ → Bytes → PadStream
from_half bundle_id base_segment half = record {
  bundle_id = bundle_id;
  base_segment = base_segment;
  buf = half;
  cursor = 0;
}

abbrev pub remaining : PadStream → ℕ
remaining s = pad_half - s.cursor

abbrev pub max_record_len : PadStream → ℕ
max_record_len s = min (remaining s - mac_key_len) max_ciphertext_len

abbrev pub fits : PadStream → ℕ → Bool
fits s l = leb (mac_key_len + l) (remaining s)

abbrev pub below_low_water : PadStream → Bool
below_low_water s = ltb (remaining s) low_water

-- `size` bytes from an offset on become 0.
unfoldable pub burn : ℕ → ℕ → Bytes → Bytes
burn from size buf = take from buf ++ (replicate size 0 ++ drop (from + size) buf)

-- `PadStream::take_mac_key`: the key, and the stream without it.
abbrev pub take_mac_key : PadStream → Bytes × PadStream
take_mac_key s =
    (take mac_key_len (drop s.cursor s.buf), record s { buf = burn s.cursor mac_key_len s.buf })

-- Each byte with the byte of the pad at its place.
unfoldable pub xor_pad : Bytes → Bytes → Bytes
xor_pad [] pad = []
xor_pad (x ∷ xs) [] = x ∷ xs
xor_pad (x ∷ xs) (p ∷ ps) = bit_xor x p ∷ xor_pad xs ps

-- `PadStream::xor_burn_pad`: the new text, and the stream without its pad.
abbrev pub xor_burn_pad : Bytes → PadStream → Bytes × PadStream
xor_burn_pad dst s =
    let start = s.cursor + mac_key_len in
    (xor_pad dst (drop start s.buf), record s { buf = burn start (length dst) s.buf })

-- `PadStream::advance`
abbrev pub advance : ℕ → PadStream → PadStream
advance l s = record s { cursor = s.cursor + (mac_key_len + l) }

-- `PadStream::waste`
unfoldable pub waste : PadStream → PadStream
waste s = record s { buf = replicate (length s.buf) 0; cursor = pad_half }

-- `PadStream::retire_into`: the cursor of the old stream, and the stream that takes its place.
abbrev pub retire_into : PadStream → PadStream → ℕ × PadStream
retire_into next s = (s.cursor, next)

-- `split_bundle`; the second base wraps in a release build.
abbrev pub split_bundle : ℕ → ℕ → Bytes → PadStream × PadStream
split_bundle bundle_id base_segment flat = (
  from_half bundle_id base_segment (take pad_half flat),
  from_half bundle_id ((base_segment + 64) % u64_limit) (drop pad_half flat),
)

-- The buffer has its size, the cursor lies in it, and everything before the cursor is burnt.
pub record IsSpent (s : PadStream) : Type 0 where
  pub size : length s.buf ≡ pad_half
  pub inside : s.cursor ≤ pad_half
  pub burnt : All (λ (b : ℕ). b ≡ 0) (take s.cursor s.buf)
