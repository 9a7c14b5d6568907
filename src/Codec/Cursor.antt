-- ===== src/Codec/Cursor.antt =====
-- crates/otp-codec/src/decode.rs, `Cursor`: a cursor stands for the bytes it has not passed yet,
-- `buf[pos..]`. Each read answers the value and the cursor behind it.
use jbuu.Base.{
  ℕ, ◌^◌, ◌<◌, ◌≤◌, ◌≡◌, refl, arith, leb, le→leb, leb→le, Bool-cases, inl, inr, ap, subst, [], ◌∷◌,
  ◌++◌, append-nil, length, take, drop, if◌then◌else◌, take-append, drop-append, take-append-drop,
  length-take_le, length-append, All, All-append_left, All-append_right,
}
use jbuu.Base.Result.{Result, ok, err, ◌>>=◌, Result-cases}
use jbuu.Base.Bytes.{
  Bytes, to_be, from_be, length-to_be, from_be-lt, from_be-to_be, to_be-from_be, IsByte, IsArray,
}
use jbuu.Codec.ErrorCode.{ErrorCode, bad_length, trailing_bytes}

abbrev pub Read {ℓ} : Type ℓ → Type ℓ
Read A = Result (A × Bytes) ErrorCode

-- `Cursor::take`
unfoldable pub take_bytes : ℕ → Bytes → Read Bytes
take_bytes n c = if leb n (length c) then ok (take n c, drop n c) else err bad_length

-- `take(w)` and `from_be_bytes`, the body of the next four.
unfoldable pub read_int : ℕ → Bytes → Read ℕ
read_int w c = do (b, rest) ← take_bytes w c; ok (from_be b, rest)

-- `Cursor::u8`; its `[0]` is the integer that a list of one byte reads as.
abbrev pub read_u8 : Bytes → Read ℕ
read_u8 = read_int 1

-- `Cursor::u16`, `u32` and `u64`.
abbrev pub read_u16 : Bytes → Read ℕ
read_u16 = read_int 2

abbrev pub read_u32 : Bytes → Read ℕ
read_u32 = read_int 4

abbrev pub read_u64 : Bytes → Read ℕ
read_u64 = read_int 8

-- `Cursor::fixed16`
unfoldable pub fixed16 : Bytes → Read Bytes
fixed16 c = take_bytes 16 c

-- `Cursor::done`
unfoldable pub finish : Bytes → Result (Unit {0}) ErrorCode
finish [] = ok tt
finish (b ∷ c) = err trailing_bytes

-- Reading back what was written.
pub take_bytes-append :
    (n : ℕ) (xs rest : Bytes) → length xs ≡ n → take_bytes n (xs ++ rest) ≡ ok (xs, rest)
unfolding take_bytes
take_bytes-append n xs rest h =
    rw (take-append xs rest n h, drop-append xs rest n h, le→leb n (length (xs ++ rest)) fits)
  where
    fits : n ≤ length (xs ++ rest)
    fits = omega (arith, length-append xs rest)

pub read_int-append :
    (w v : ℕ) (rest : Bytes) → v < 256 ^ w → read_int w (to_be w v ++ rest) ≡ ok (v, rest)
unfolding read_int
read_int-append w v rest h =
    rw (take_bytes-append w (to_be w v) rest (length-to_be w v), from_be-to_be w v h)

pub read_u8-append : (v : ℕ) (rest : Bytes) → read_u8 (v ∷ rest) ≡ ok (v, rest)
unfolding read_int from_be
read_u8-append v rest =
    rw (take_bytes-append 1 (v ∷ []) rest refl) (ap (λ (n : ℕ). ok (n, rest)) (omega arith))

pub fixed16-append : (xs rest : Bytes) → length xs ≡ 16 → fixed16 (xs ++ rest) ≡ ok (xs, rest)
unfolding fixed16
fixed16-append xs rest h = take_bytes-append 16 xs rest h

-- What a successful read says of the bytes that it was given.
pub record Splits (n : ℕ) (c xs rest : Bytes) : Type 0 where
  pub whole : c ≡ xs ++ rest
  pub front : IsArray n xs
  pub back : All IsByte rest

pub take_bytes-Splits :
    (n : ℕ) (c : Bytes) {xs rest : Bytes}
    → All IsByte c
    → take_bytes n c ≡ ok (xs, rest)
    → Splits n c xs rest
unfolding take_bytes
take_bytes-Splits n c {xs} {rest} h e = elim (Bool-cases (leb n (length c))) [
  | inl fits ↦ parts (leb→le n (length c) fits) (cc fits) (cc fits)
  | inr short ↦ cc short
]
  where
    parts : n ≤ length c → xs ≡ take n c → rest ≡ drop n c → Splits n c xs rest
    parts fits ex er =
        let split : c ≡ xs ++ rest = rw (ex, er, take-append-drop) in
        let all : All IsByte (xs ++ rest) = subst (All IsByte) split h in
        record {
          whole = split;
          front = record {
            size = rw ex (length-take_le n c fits);
            bytes = All-append_left IsByte xs rest all;
          };
          back = All-append_right IsByte xs rest all;
        }

-- A successful read of a `w`-byte integer.
pub record Takes (w : ℕ) (c : Bytes) (v : ℕ) (rest : Bytes) : Type 0 where
  pub whole : c ≡ to_be w v ++ rest
  pub bound : v < 256 ^ w
  pub back : All IsByte rest

pub read_int-Takes :
    (w : ℕ) (c : Bytes) {v : ℕ} {rest : Bytes}
    → All IsByte c
    → read_int w c ≡ ok (v, rest)
    → Takes w c v rest
unfolding read_int
read_int-Takes w c {v} {rest} h e = elim (Result-cases (take_bytes w c)) [
  | inl ((xs, rest'), t) ↦
      taken xs rest' (take_bytes-Splits w c h t) (cc (rw t at e)) (cc (rw t at e))
  | inr (code, t) ↦ cc (rw t at e)
]
  where
    taken :
        (xs rest' : Bytes) → Splits w c xs rest' → v ≡ from_be xs → rest ≡ rest' → Takes w c v rest
    taken xs rest' s ev er = record {
      whole = rw (ev, er, to_be-from_be w xs s.front) s.whole;
      bound = rw ev (from_be-lt w xs s.front);
      back = rw er s.back;
    }

pub fixed16-Splits :
    (c : Bytes) {xs rest : Bytes} → All IsByte c → fixed16 c ≡ ok (xs, rest) → Splits 16 c xs rest
unfolding fixed16
fixed16-Splits c h e = take_bytes-Splits 16 c h e

pub finish-eq-ok : (c : Bytes) → finish c ≡ ok tt → c ≡ []
unfolding finish
finish-eq-ok [] e = refl
finish-eq-ok (b ∷ c) e = cc

-- The same for a last field.
pub take_bytes_end : (n : ℕ) (xs : Bytes) → length xs ≡ n → take_bytes n xs ≡ ok (xs, [])
take_bytes_end n xs h = rw append-nil at (take_bytes-append n xs [] h)

pub fixed16_end : (xs : Bytes) → length xs ≡ 16 → fixed16 xs ≡ ok (xs, [])
unfolding fixed16
fixed16_end xs h = take_bytes_end 16 xs h

pub read_int_end : (w v : ℕ) → v < 256 ^ w → read_int w (to_be w v) ≡ ok (v, [])
read_int_end w v h = rw append-nil at (read_int-append w v [] h)
