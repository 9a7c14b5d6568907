-- ===== src/Base/Bytes.antt =====
-- Byte strings as lists of numbers below 256, their comparison, and the big-endian integers that
-- `to_be_bytes` and `from_be_bytes` write and read.
use Prim.Native.Nat.{ℕ, zero, suc, ◌+◌, ◌*◌, ◌/◌, ◌%◌, ◌^◌, ◌<◌, ◌≤◌}
use mathlib.Core.Path.{◌≡◌, refl, ap, ap₂, ◌∙◌, subst}
use mathlib.Core.Logic.{◌↔◌}
use mathlib.Core.Bool.{Bool, true, false, ◌&&◌}
use mathlib.Core.List.{List, [], ◌∷◌, ◌++◌, append-nil, append_assoc}
use native.Mathlib.Omega.{arith}
use native.Mathlib.Nat.{pow-suc}
use jbuu.Base.Tests.{◌==◌}
use jbuu.Base.Lists.{length, length-append, All, All-append}

abbrev pub Bytes : Type 0
Bytes = List ℕ

abbrev pub IsByte : ℕ → Type 0
IsByte b = b < 256

-- A fixed array `[u8; n]`.
pub record IsArray (n : ℕ) (bs : Bytes) : Type 0 where
  pub size : length bs ≡ n
  pub bytes : All IsByte bs

unfoldable pub bytes_eq : Bytes → Bytes → Bool
bytes_eq [] [] = true
bytes_eq [] (y ∷ ys) = false
bytes_eq (x ∷ xs) [] = false
bytes_eq (x ∷ xs) (y ∷ ys) = (x == y) && bytes_eq xs ys

pub bytes_eq_iff : (xs ys : Bytes) → (bytes_eq xs ys ≡ true) ↔ (xs ≡ ys)
unfolding bytes_eq
bytes_eq_iff [] [] = (λ _. refl, λ _. refl)
bytes_eq_iff [] (y ∷ ys) = (λ h. cc, λ h. cc)
bytes_eq_iff (x ∷ xs) [] = (λ h. cc, λ h. cc)
bytes_eq_iff (x ∷ xs) (y ∷ ys) =
    let ih = bytes_eq_iff xs ys in (λ h. ground (arith, ih), λ h. ground (arith, ih))

-- `to_be_bytes` of a `w`-byte integer.
unfoldable pub to_be : ℕ → ℕ → Bytes
to_be zero v = []
to_be (suc w) v = to_be w (v / 256) ++ ((v % 256) ∷ [])

from_be_loop : ℕ → Bytes → ℕ
from_be_loop acc [] = acc
from_be_loop acc (b ∷ bs) = from_be_loop (acc * 256 + b) bs

-- `from_be_bytes`
unfoldable pub from_be : Bytes → ℕ
unfolding from_be_loop
from_be bs = from_be_loop 0 bs

pub length-to_be : (w v : ℕ) → length (to_be w v) ≡ w
unfolding to_be
length-to_be zero v = refl
length-to_be (suc w) v =
    omega (arith, length-append (to_be w (v / 256)) ((v % 256) ∷ []), length-to_be w (v / 256))

pub to_be-IsByte : (w v : ℕ) → All IsByte (to_be w v)
unfolding to_be
to_be-IsByte zero v = tt
to_be-IsByte (suc w) v =
    All-append IsByte (to_be w (v / 256)) ((v % 256) ∷ []) (to_be-IsByte w (v / 256)) (omega arith)

-- `length-append` at bytes, for lists of facts that take no level.
pub length-join : (xs ys : Bytes) → length (xs ++ ys) ≡ length xs + length ys
length-join xs ys = length-append xs ys

pub ruleset lengths = (arith, length-join, length-to_be)

from_be_loop-snoc :
    (acc : ℕ) (xs : Bytes) (b : ℕ)
    → from_be_loop acc (xs ++ (b ∷ [])) ≡ from_be_loop acc xs * 256 + b
unfolding from_be_loop
from_be_loop-snoc acc [] b = refl
from_be_loop-snoc acc (x ∷ xs) b = from_be_loop-snoc (acc * 256 + x) xs b

pow_step : (w : ℕ) → 256 ^ suc w ≡ 256 * 256 ^ w
pow_step w = rw pow-suc (omega arith)

pub from_be-to_be : (w v : ℕ) → v < 256 ^ w → from_be (to_be w v) ≡ v
unfolding from_be to_be from_be_loop
from_be-to_be zero v h = omega arith
from_be-to_be (suc w) v h =
    rw from_be_loop-snoc (omega (arith, from_be-to_be w (v / 256) (omega (arith, pow_step w))))

suc_shift : (m k : ℕ) → suc m + k ≡ m + suc k
suc_shift m k = omega arith

to_be_digit : (k acc b : ℕ) → b < 256 → to_be (suc k) (acc * 256 + b) ≡ to_be k acc ++ (b ∷ [])
unfolding to_be
to_be_digit k acc b h =
    ap₂ (λ (q r : ℕ). to_be k q ++ (r ∷ [])) (quotient acc b h) (remainder acc b h)
  where
    quotient : (a d : ℕ) → d < 256 → (a * 256 + d) / 256 ≡ a
    quotient a d p = omega arith

    remainder : (a d : ℕ) → d < 256 → (a * 256 + d) % 256 ≡ d
    remainder a d p = omega arith

to_be-from_be_loop :
    (bs : Bytes) (k acc : ℕ)
    → All IsByte bs
    → to_be (length bs + k) (from_be_loop acc bs) ≡ to_be k acc ++ bs
unfolding from_be_loop to_be
to_be-from_be_loop [] k acc h =
    let e : 0 + k ≡ k = omega arith in rw append-nil (ap (λ (m : ℕ). to_be m acc) e)
to_be-from_be_loop (b ∷ bs) k acc h =
    ap (λ (m : ℕ). to_be m (from_be_loop (acc * 256 + b) bs)) (suc_shift (length bs) k)
    ∙ to_be-from_be_loop bs (suc k) (acc * 256 + b) h.1
    ∙ ap (λ (xs : Bytes). xs ++ bs) (to_be_digit k acc b h.0)
    ∙ append_assoc (to_be k acc) (b ∷ []) bs

pub to_be-from_be : (n : ℕ) (bs : Bytes) → IsArray n bs → to_be n (from_be bs) ≡ bs
unfolding from_be to_be
to_be-from_be n bs h =
    let e : n ≡ length bs + 0 = omega (arith, h.size) in
    ap (λ (m : ℕ). to_be m (from_be_loop 0 bs)) e ∙ to_be-from_be_loop bs 0 0 h.bytes

from_be_loop_bound :
    (bs : Bytes) (acc : ℕ) → All IsByte bs → from_be_loop acc bs < (acc + 1) * 256 ^ length bs
unfolding from_be_loop
from_be_loop_bound [] acc h = omega arith
from_be_loop_bound (b ∷ bs) acc h = omega (
  arith,
  from_be_loop_bound bs (acc * 256 + b) h.1,
  scaled (256 ^ length bs),
  ap (λ (p : ℕ). (acc + 1) * p) (pow_step (length bs)),
)
  where
    scaled : (p : ℕ) → (acc * 256 + b + 1) * p ≤ (acc + 1) * (256 * p)
    scaled p = grind arith

-- What is read from an array of `n` bytes fits into `n` bytes.
pub from_be-lt : (n : ℕ) (bs : Bytes) → IsArray n bs → from_be bs < 256 ^ n
unfolding from_be
from_be-lt n bs h =
    subst (λ (m : ℕ). from_be_loop 0 bs < 256 ^ m) h.size
      (omega (arith, from_be_loop_bound bs 0 h.bytes))

pub to_be-single : (v : ℕ) → v < 256 → to_be 1 v ≡ v ∷ []
unfolding to_be
to_be-single v h = let e : v % 256 ≡ v = omega arith in rw e
