-- ===== src/FullOtp/Record/Compare.antt =====
-- crates/otp-fullotp/src/record.rs: `ct_eq_16`, the comparison in constant time, is equality.
use Prim.Native.Nat.{bit_or, bit_xor}
use jbuu.Base.{ℕ, ◌≡◌, refl, sym, ap, ap₂, ◌∙◌, ◌↔◌, arith, true, ==_iff, [], ◌∷◌, length}
use jbuu.Base.Bytes.{Bytes}
use jbuu.Base.Bits.{bit_xor-eq-zero, bit_xor_self, bit_or-eq-zero}
use jbuu.FullOtp.Record.{differences, ct_eq}

-- What differs once stays.
differences-zero :
    (diff : ℕ) (a b : Bytes) → length a ≡ length b → differences diff a b ≡ 0 → (diff ≡ 0) × (a ≡ b)
unfolding differences
differences-zero diff [] [] size h = (h, refl)
differences-zero diff [] (y ∷ ys) size h = absurd (omega arith)
differences-zero diff (x ∷ xs) [] size h = absurd (omega arith)
differences-zero diff (x ∷ xs) (y ∷ ys) size h =
    let (now, rest) = differences-zero (bit_or diff (bit_xor x y)) xs ys (omega arith) h in
    let (before, here) = bit_or-eq-zero diff (bit_xor x y) now in
    (before, ap₂ ◌∷◌ (bit_xor-eq-zero x y here) rest)

differences-same : (a : Bytes) → differences 0 a a ≡ 0
unfolding differences
differences-same [] = refl
differences-same (x ∷ xs) =
    ap (λ (d : ℕ). differences (bit_or 0 d) xs xs) (bit_xor_self x) ∙ differences-same xs

pub ct_eq_self : (a : Bytes) → ct_eq a a ≡ true
unfolding ct_eq
ct_eq_self a = (==_iff _ _).1 (differences-same a)

-- For arrays of one length, the comparison that has no early exit answers true exactly where they
-- are equal.
pub ct_eq_iff : (a b : Bytes) → length a ≡ length b → (ct_eq a b ≡ true) ↔ (a ≡ b)
unfolding ct_eq
ct_eq_iff a b size = (
  λ h. (differences-zero 0 a b size ((==_iff _ _).0 h)).1,
  λ h. (==_iff _ _).1 (ap (λ (x : Bytes). differences 0 a x) (sym h) ∙ differences-same a),
)
