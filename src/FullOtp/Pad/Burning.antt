-- ===== src/FullOtp/Pad/Burning.antt =====
-- crates/otp-fullotp/src/pad.rs: what burning leaves of a buffer, and that a text xored twice with
-- one pad is itself.
use jbuu.Base.{
  ℕ, zero, suc, ◌+◌, ◌-◌, ◌≡◌, ◌≤◌, refl, sym, subst, ap, ap₂, ◌∙◌, arith, [], ◌∷◌, ◌++◌, length,
  take, drop, replicate, All, All-append, length-append, length-take_le, length-drop,
  length-replicate, take-append, drop-append, drop-drop, append_assoc,
}
use jbuu.Base.Bytes.{Bytes}
use jbuu.Base.Bits.{bit_xor-bit_xor}
use jbuu.FullOtp.Pad.{PadStream, pad_half, mac_key_len, burn, xor_pad, waste, from_half, IsSpent}

abbrev pub IsZero : ℕ → Type 0
IsZero b = b ≡ 0

All-replicate : (n : ℕ) → All IsZero (replicate n 0)
All-replicate zero = tt
All-replicate (suc n) = (refl, All-replicate n)

module _ (from size : ℕ) (buf : Bytes) (room : from + size ≤ length buf) where
  pub length-burn : length (burn from size buf) ≡ length buf
  unfolding burn
  length-burn = omega (
    arith,
    length-append (take from buf) (replicate size 0 ++ drop (from + size) buf),
    length-append (replicate size 0) (drop (from + size) buf),
    length-take_le from buf (omega arith),
    length-replicate {A = ℕ} size 0,
    length-drop (from + size) buf,
  )

  -- Burning behind what is burnt.
  pub burn-All : All IsZero (take from buf) → All IsZero (take (from + size) (burn from size buf))
  unfolding burn
  burn-All h =
      let front = take from buf ++ replicate size 0 in
      let sized : length front ≡ from + size = omega (
        arith,
        length-append (take from buf) (replicate size 0),
        length-take_le from buf (omega arith),
        length-replicate {A = ℕ} size 0,
      ) in
      subst (λ (x : Bytes). All IsZero (take (from + size) x))
        (append_assoc (take from buf) (replicate size 0) (drop (from + size) buf))
        (subst (All IsZero) (sym (take-append front (drop (from + size) buf) (from + size) sized))
          (All-append IsZero (take from buf) (replicate size 0) h (All-replicate size)))

  -- What lies behind is left.
  pub drop-burn : drop (from + size) (burn from size buf) ≡ drop (from + size) buf
  unfolding burn
  drop-burn =
      let front = take from buf ++ replicate size 0 in
      let sized : length front ≡ from + size = omega (
        arith,
        length-append (take from buf) (replicate size 0),
        length-take_le from buf (omega arith),
        length-replicate {A = ℕ} size 0,
      ) in
      ap (drop (from + size))
        (sym (append_assoc (take from buf) (replicate size 0) (drop (from + size) buf)))
      ∙ drop-append front (drop (from + size) buf) (from + size) sized

-- The text with the pad, and the text back.
pub length-xor_pad : (text pad : Bytes) → length (xor_pad text pad) ≡ length text
unfolding xor_pad
length-xor_pad [] pad = refl
length-xor_pad (x ∷ xs) [] = refl
length-xor_pad (x ∷ xs) (p ∷ ps) = ap suc (length-xor_pad xs ps)

pub xor_pad-xor_pad : (text pad : Bytes) → xor_pad (xor_pad text pad) pad ≡ text
unfolding xor_pad
xor_pad-xor_pad [] pad = refl
xor_pad-xor_pad (x ∷ xs) [] = refl
xor_pad-xor_pad (x ∷ xs) (p ∷ ps) = ap₂ ◌∷◌ (bit_xor-bit_xor x p) (xor_pad-xor_pad xs ps)

-- A stream behind a record of `l` bytes.
abbrev pub behind : ℕ → PadStream → PadStream
behind l s = record s {
  buf = burn (s.cursor + mac_key_len) l (burn s.cursor mac_key_len s.buf);
  cursor = s.cursor + (mac_key_len + l);
}

-- The bytes from the cursor on, which no record has used.
abbrev pub unspent : PadStream → Bytes
unspent s = drop s.cursor s.buf

module _ (l : ℕ) (s : PadStream) (room : s.cursor + (mac_key_len + l) ≤ length s.buf) where
  -- The pad of a text behind its key.
  pub drop-take_mac_key :
      drop (s.cursor + mac_key_len) (burn s.cursor mac_key_len s.buf) ≡ drop mac_key_len (unspent s)
  drop-take_mac_key =
      drop-burn s.cursor mac_key_len s.buf (omega arith)
      ∙ sym (drop-drop s.cursor mac_key_len s.buf)

  pub unspent-behind : unspent (behind l s) ≡ drop (mac_key_len + l) (unspent s)
  unspent-behind =
      let keyed = burn s.cursor mac_key_len s.buf in
      let e : s.cursor + (mac_key_len + l) ≡ s.cursor + mac_key_len + l = omega arith in
      let long = length-burn s.cursor mac_key_len s.buf (omega arith) in
      ap (λ (n : ℕ). drop n (burn (s.cursor + mac_key_len) l keyed)) e
      ∙ drop-burn (s.cursor + mac_key_len) l keyed (omega (arith, long))
      ∙ sym (drop-drop (s.cursor + mac_key_len) l keyed)
      ∙ ap (drop l) drop-take_mac_key
      ∙ drop-drop mac_key_len l (unspent s)

pub behind-IsSpent :
    (l : ℕ) (s : PadStream)
    → IsSpent s
    → mac_key_len + l ≤ pad_half - s.cursor
    → IsSpent (behind l s)
behind-IsSpent l s h room =
    let first = length-burn s.cursor mac_key_len s.buf (omega (arith, h.size, h.inside)) in
    let next : s.cursor + mac_key_len + l ≤ length (burn s.cursor mac_key_len s.buf) =
      omega (arith, h.size, h.inside, first) in
    record {
      size = length-burn (s.cursor + mac_key_len) l _ next ∙ first ∙ h.size;
      inside = omega (arith, h.inside);
      burnt =
          subst
            (λ (n : ℕ).
              All IsZero
                (take n (burn (s.cursor + mac_key_len) l (burn s.cursor mac_key_len s.buf))))
            (omega arith)
            (burn-All (s.cursor + mac_key_len) l _ next
              (burn-All s.cursor mac_key_len s.buf (omega (arith, h.size, h.inside)) h.burnt));
    }

All-take-replicate : (m n : ℕ) → All IsZero (take m (replicate n 0))
All-take-replicate zero n = tt
All-take-replicate (suc m) zero = tt
All-take-replicate (suc m) (suc n) = (refl, All-take-replicate m n)

pub waste-IsSpent : (s : PadStream) → length s.buf ≡ pad_half → IsSpent (waste s)
unfolding waste
waste-IsSpent s h = record {
  size = length-replicate {A = ℕ} (length s.buf) 0 ∙ h;
  inside = omega arith;
  burnt = All-take-replicate pad_half (length s.buf);
}

pub from_half-IsSpent :
    (bundle_id base : ℕ) (half : Bytes)
    → length half ≡ pad_half
    → IsSpent (from_half bundle_id base half)
from_half-IsSpent bundle_id base half h = record { size = h; inside = omega arith; burnt = tt }
