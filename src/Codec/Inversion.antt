-- ===== src/Codec/Inversion.antt =====
-- Taking a successful chain of cursor reads apart: each rule hands the rest of the proof the value
-- that was read, how it splits the bytes, and the rest of the chain.
use jbuu.Base.{ℕ, ◌≡◌, ◌<◌, ◌^◌, refl, ◌++◌, [], Option, none, some, Bool, true, false, All}
use jbuu.Base.Result.{Result, ok, ◌>>=◌, ◌>>◌, fail_if, ok_or, >>=-eq-ok}
use jbuu.Base.Bytes.{Bytes, IsByte, IsArray, to_be}
use jbuu.Codec.ErrorCode.{ErrorCode}
use jbuu.Codec.Cursor.{
  take_bytes, fixed16, read_int, finish, take_bytes-Splits, fixed16-Splits, read_int-Takes,
  finish-eq-ok,
}

pub ok-injective {ℓ} : {A : Type ℓ} {a b : A} → ◌≡◌ {A = Result A ErrorCode} (ok a) (ok b) → a ≡ b
ok-injective e = cc

module _ {A P : Type 0} {a : A} (c : Bytes) (h : All IsByte c) where
  pub take_bytes_then :
      (n : ℕ) (f : Bytes × Bytes → Result A ErrorCode)
      → (take_bytes n c >>= f) ≡ ok a
      → ((xs rest : Bytes)
          → IsArray n xs
          → c ≡ xs ++ rest
          → All IsByte rest
          → f (xs, rest) ≡ ok a
          → P)
      → P
  take_bytes_then n f e k =
      let ((xs, rest), t, e') = >>=-eq-ok (take_bytes n c) f e in
      let s = take_bytes-Splits n c h t in k xs rest s.front s.whole s.back e'

  pub fixed16_then :
      (f : Bytes × Bytes → Result A ErrorCode)
      → (fixed16 c >>= f) ≡ ok a
      → ((xs rest : Bytes)
          → IsArray 16 xs
          → c ≡ xs ++ rest
          → All IsByte rest
          → f (xs, rest) ≡ ok a
          → P)
      → P
  fixed16_then f e k =
      let ((xs, rest), t, e') = >>=-eq-ok (fixed16 c) f e in
      let s = fixed16-Splits c h t in k xs rest s.front s.whole s.back e'

  pub read_int_then :
      (w : ℕ) (f : ℕ × Bytes → Result A ErrorCode)
      → (read_int w c >>= f) ≡ ok a
      → ((v : ℕ) (rest : Bytes)
          → v < 256 ^ w
          → c ≡ to_be w v ++ rest
          → All IsByte rest
          → f (v, rest) ≡ ok a
          → P)
      → P
  read_int_then w f e k =
      let ((v, rest), t, e') = >>=-eq-ok (read_int w c) f e in
      let s = read_int-Takes w c h t in k v rest s.bound s.whole s.back e'

module _ {A P : Type 0} {a : A} where
  pub finish_then :
      (c : Bytes) (r : Result A ErrorCode) → (finish c >> r) ≡ ok a → (c ≡ [] → r ≡ ok a → P) → P
  finish_then c r e k = let (_, t, e') = >>=-eq-ok (finish c) (λ _. r) e in k (finish-eq-ok c t) e'

  pub fail_if_then :
      (b : Bool) (code : ErrorCode) (r : Result A ErrorCode)
      → (fail_if b code >> r) ≡ ok a
      → (b ≡ false → r ≡ ok a → P)
      → P
  fail_if_then true code r e k = absurd (cc e)
  fail_if_then false code r e k = k refl e

  pub ok_or_then :
      {B : Type 0} (o : Option B) (code : ErrorCode) (f : B → Result A ErrorCode)
      → (ok_or o code >>= f) ≡ ok a
      → ((b : B) → o ≡ some b → f b ≡ ok a → P)
      → P
  ok_or_then none code f e k = absurd (cc e)
  ok_or_then (some b) code f e k = k b refl e
