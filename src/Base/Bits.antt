-- ===== src/Base/Bits.antt =====
-- `^` and `|` on unsigned integers: the laws that a one-time pad and a comparison in constant time
-- use, by induction on the binary digits.
use Prim.Native.Nat.{
  ℕ, zero, suc, ◌+◌, ◌*◌, ◌/◌, ◌%◌, ◌≤◌, ◌<◌, max, differ, digits, bit_or, bit_xor, bit_or-bitwise,
  bit_xor-bitwise,
}
use mathlib.Core.Path.{◌≡◌, refl, ◌∙◌, ap, ap₂}
use native.Mathlib.Omega.{arith}

-- More digits than the first number has change nothing.
digits_fuel :
    (f : ℕ → ℕ → ℕ) (n m a b : ℕ)
    → a ≤ n
    → a ≤ m
    → digits (λ (c : ℕ). c) f n a b ≡ digits (λ (c : ℕ). c) f m a b
digits_fuel f zero zero a b p q = refl
digits_fuel f zero (suc m) zero b p q = refl
digits_fuel f zero (suc m) (suc a) b p q = absurd (omega arith)
digits_fuel f (suc n) zero zero b p q = refl
digits_fuel f (suc n) zero (suc a) b p q = absurd (omega arith)
digits_fuel f (suc n) (suc m) zero b p q = refl
digits_fuel f (suc n) (suc m) (suc a) b p q =
    ap (λ (t : ℕ). t * 2 + f (suc a % 2) (b % 2))
      (digits_fuel f n m (suc a / 2) (b / 2) (omega arith) (omega arith))

bit_xor_step : (a b : ℕ) → bit_xor a b ≡ bit_xor (a / 2) (b / 2) * 2 + differ (a % 2) (b % 2)
bit_xor_step zero b = omega (arith, bit_xor-bitwise 0 b, bit_xor-bitwise 0 (b / 2))
bit_xor_step (suc a) b = omega (
  arith,
  bit_xor-bitwise (suc a) b,
  bit_xor-bitwise (suc a / 2) (b / 2),
  digits_fuel differ a (suc a / 2) (suc a / 2) (b / 2) (omega arith) (omega arith),
)

bit_or_step : (a b : ℕ) → bit_or a b ≡ bit_or (a / 2) (b / 2) * 2 + max (a % 2) (b % 2)
bit_or_step zero b = omega (arith, bit_or-bitwise 0 b, bit_or-bitwise 0 (b / 2))
bit_or_step (suc a) b = omega (
  arith,
  bit_or-bitwise (suc a) b,
  bit_or-bitwise (suc a / 2) (b / 2),
  digits_fuel max a (suc a / 2) (suc a / 2) (b / 2) (omega arith) (omega arith),
)

-- One digit.
differ_laws :
    (x y : ℕ)
    → x < 2
    → y < 2
    → (differ x y < 2) × (differ (differ x y) y ≡ x) × (differ x y ≡ 0 → x ≡ y)
differ_laws zero zero p q = (omega arith, refl, λ _. refl)
differ_laws zero (suc zero) p q = (omega arith, refl, λ h. absurd (omega arith))
differ_laws (suc zero) zero p q = (omega arith, refl, λ h. absurd (omega arith))
differ_laws (suc zero) (suc zero) p q = (omega arith, refl, λ _. refl)
differ_laws zero (suc (suc y)) p q = absurd (omega arith)
differ_laws (suc zero) (suc (suc y)) p q = absurd (omega arith)
differ_laws (suc (suc x)) y p q = absurd (omega arith)

-- The digits that a number is put together from.
cut : (q r : ℕ) → r < 2 → ((q * 2 + r) / 2 ≡ q) × ((q * 2 + r) % 2 ≡ r)
cut q r h = omega arith

xor_twice : (n a b : ℕ) → a ≤ n → b ≤ n → bit_xor (bit_xor a b) b ≡ a
xor_twice zero a b p q =
    let a0 : a ≡ 0 = omega arith in let b0 : b ≡ 0 = omega arith in rw (a0, b0) refl
xor_twice (suc n) a b p q =
    let hi = bit_xor (a / 2) (b / 2) in
    let lo = differ (a % 2) (b % 2) in
    let (small, back, _) = differ_laws (a % 2) (b % 2) (omega arith) (omega arith) in
    let (half, rest) = cut hi lo small in
    ap (λ (x : ℕ). bit_xor x b) (bit_xor_step a b)
    ∙ bit_xor_step (hi * 2 + lo) b
    ∙ ap₂ (λ (h l : ℕ). bit_xor h (b / 2) * 2 + differ l (b % 2)) half rest
    ∙ omega (arith, back, xor_twice n (a / 2) (b / 2) (omega arith) (omega arith))

-- What is xored with the same pad twice is itself.
pub bit_xor-bit_xor : (a b : ℕ) → bit_xor (bit_xor a b) b ≡ a
bit_xor-bit_xor a b = xor_twice (a + b) a b (omega arith) (omega arith)

xor_zero : (n a b : ℕ) → a ≤ n → b ≤ n → bit_xor a b ≡ 0 → a ≡ b
xor_zero zero a b p q h = omega arith
xor_zero (suc n) a b p q h =
    let step = bit_xor_step a b in
    let (small, _, same) = differ_laws (a % 2) (b % 2) (omega arith) (omega arith) in
    let lo = same (omega arith) in
    let hi = xor_zero n (a / 2) (b / 2) (omega arith) (omega arith) (omega arith) in omega arith

pub bit_xor-eq-zero : (a b : ℕ) → bit_xor a b ≡ 0 → a ≡ b
bit_xor-eq-zero a b h = xor_zero (a + b) a b (omega arith) (omega arith) h

xor_same : (n a : ℕ) → a ≤ n → bit_xor a a ≡ 0
xor_same zero a p = let e : a ≡ 0 = omega arith in rw e refl
xor_same (suc n) a p =
    let same : (x : ℕ) → differ x x ≡ 0 = differ_same in
    omega (arith, bit_xor_step a a, same (a % 2), xor_same n (a / 2) (omega arith))
  where
    differ_same : (x : ℕ) → differ x x ≡ 0
    differ_same zero = refl
    differ_same (suc x) = differ_same x

pub bit_xor_self : (a : ℕ) → bit_xor a a ≡ 0
bit_xor_self a = xor_same a a (omega arith)

or_zero : (n a b : ℕ) → a ≤ n → b ≤ n → bit_or a b ≡ 0 → (a ≡ 0) × (b ≡ 0)
or_zero zero a b p q h = omega arith
or_zero (suc n) a b p q h =
    let step = bit_or_step a b in
    let (hi, lo) = or_zero n (a / 2) (b / 2) (omega arith) (omega arith) (omega arith) in
    omega arith

pub bit_or-eq-zero : (a b : ℕ) → bit_or a b ≡ 0 → (a ≡ 0) × (b ≡ 0)
bit_or-eq-zero a b h = or_zero (a + b) a b (omega arith) (omega arith) h
