-- ===== src/Book/Tests.antt =====
-- A book of two segments, on a file whose first reads are interrupted (crates/otp-book).
use jbuu.Base.{
  ◌∙◌, sym, ap, subst, length-drop, ℕ, zero, suc, ◌≤◌, ◌<◌, ◌≡◌, refl, arith, min, true, ◌⊎◌, inl,
  inr, [], ◌∷◌, ◌++◌, length, take, drop, replicate, All, All-append, ◌↔◌,
}
use jbuu.Base.Result.{Result, ok, err}
use jbuu.Base.Actions.{Ends}
use jbuu.Base.Bytes.{Bytes, IsByte, to_be, from_be, bytes_eq}
use jbuu.Anchor.Wire.{Sha256}
use jbuu.Book.Header.{
  BookHeader, encode_header, decode_header, header_prefix, expected_file_size, validate,
}
use jbuu.Book.Header.RoundTrip.{IsValidHeader}
use jbuu.Book.Header.Canonical.{decode_header_iff}
use jbuu.Book.{IoKind, interrupted, Stat, BookFile, read_segment, pread_exact, fill, validated}
use jbuu.Book.Reading.{IsFile}
use jbuu.Book.Segments.{IsBook, SegmentEnds, read_segment-SegmentEnds}
use jbuu.Book.Opening.{OpenEnds, validated-OpenEnds}

abbrev fixed_digest : Sha256
fixed_digest = record {
  digest = λ _. replicate 32 1;
  digest-IsArray = λ bs. record { size = refl; bytes = omega arith };
}

abbrev two_segments : BookHeader
two_segments = record { version = 1; book_id = replicate 16 5; segment_len = 64; segment_count = 2 }

two_segments-IsValidHeader : IsValidHeader two_segments
unfolding validate
two_segments-IsValidHeader = record {
  book_id = record { size = refl; bytes = omega arith };
  valid = refl;
}

All-replicate : (n b : ℕ) → IsByte b → All IsByte (replicate n b)
All-replicate zero b h = tt
All-replicate (suc n) b h = (h, All-replicate n b h)

abbrev segments : Bytes
segments = replicate 64 3 ++ replicate 64 9

abbrev book_bytes : Bytes
book_bytes = encode_header fixed_digest two_segments ++ segments

-- The state is the number of interrupts to come, and a read answers 48 bytes at most.
abbrev read_at : ℕ → ℕ → ℕ → Result Bytes IoKind × ℕ
read_at n offset (suc k) = (err interrupted, k)
read_at n offset zero = (ok (take (min n 48) (drop offset book_bytes)), zero)

abbrev slow_file : BookFile ℕ
slow_file = record {
  stat = λ s. (ok (record { is_regular = true; size = 256 }), s);
  pread = read_at;
}

header_bytes : All IsByte (encode_header fixed_digest two_segments)
unfolding encode_header header_prefix to_be
header_bytes = omega arith

decode_header_iff_example :
    (decode_header fixed_digest (encode_header fixed_digest two_segments) ≡ ok two_segments) ↔ (
      IsValidHeader two_segments
      × (encode_header fixed_digest two_segments ≡ encode_header fixed_digest two_segments))
decode_header_iff_example =
    decode_header_iff fixed_digest (encode_header fixed_digest two_segments) two_segments
      header_bytes

book_bytes-IsByte : All IsByte book_bytes
book_bytes-IsByte =
    All-append IsByte (encode_header fixed_digest two_segments) segments header_bytes (
      All-append IsByte (replicate 64 3) (replicate 64 9) (All-replicate 64 3 (omega arith))
        (All-replicate 64 9 (omega arith)))

book_bytes-length : length book_bytes ≡ 256
unfolding encode_header header_prefix to_be
book_bytes-length = refl

take-of_take : (n : ℕ) (xs : Bytes) → take n xs ≡ take (length (take n xs)) xs
take-of_take zero xs = refl
take-of_take (suc n) [] = refl
take-of_take (suc n) (x ∷ xs) = ap (λ (ys : Bytes). x ∷ ys) (take-of_take n xs)

length-take-le : (n : ℕ) (xs : Bytes) → length (take n xs) ≤ n
length-take-le zero xs = omega arith
length-take-le (suc n) [] = omega arith
length-take-le (suc n) (x ∷ xs) = omega (arith, length-take-le n xs)

take-nothing : (n : ℕ) (xs : Bytes) → take n xs ≡ [] → (n ≡ 0) ⊎ (length xs ≡ 0)
take-nothing zero xs h = inl refl
take-nothing (suc n) [] h = inr refl
take-nothing (suc n) (x ∷ xs) h = cc

answers-ok : {a b : Bytes} {s t : ℕ} → ◌≡◌ {A = Result Bytes IoKind × ℕ} (ok a, s) (ok b, t) → a ≡ b
answers-ok h = cc

answers-interrupted :
    {k t : ℕ}
    → ◌≡◌ {A = Result Bytes IoKind × ℕ} (err interrupted, k) (err interrupted, t)
    → t < suc k
answers-interrupted h = let e = ap (λ (p : Result Bytes IoKind × ℕ). p.1) h in omega (arith, e)

abbrev slow_stat : Stat
slow_stat = record { is_regular = true; size = 256 }

stat-ok :
    {st : Stat} {s t : ℕ}
    → ◌≡◌ {A = Result Stat IoKind × ℕ} (ok slow_stat, s) (ok st, t)
    → st.size ≡ 256
stat-ok {st} h = let e : slow_stat ≡ st = cc in ap (λ (x : Stat). x.size) (sym e)

read_at-right :
    (n offset s t : ℕ) (bs : Bytes)
    → read_at n offset s ≡ (ok bs, t)
    → (bs ≡ take (length bs) (drop offset book_bytes)) × (length bs ≤ n)
read_at-right n offset (suc k) t bs e = absurd cc
read_at-right n offset zero t bs e =
    let same = answers-ok e in
    subst (λ (x : Bytes). (x ≡ take (length x) (drop offset book_bytes)) × (length x ≤ n)) same
      (
        take-of_take (min n 48) (drop offset book_bytes),
        omega (arith, length-take-le (min n 48) (drop offset book_bytes)),
      )

read_at-ended :
    (n offset s t : ℕ) → read_at n offset s ≡ (ok [], t) → (n ≡ 0) ⊎ (length book_bytes ≤ offset)
read_at-ended n offset (suc k) t e = absurd cc
read_at-ended n offset zero t e =
    elim (take-nothing (min n 48) (drop offset book_bytes) (answers-ok e)) [
      | inl none_asked ↦ inl (ground (arith, none_asked))
      | inr at_end ↦ inr (omega (arith, at_end, length-drop offset book_bytes))
    ]

read_at-fewer : (n offset s : ℕ) → (read_at n offset s).1 ≤ s
read_at-fewer n offset zero = omega arith
read_at-fewer n offset (suc k) = omega arith

read_at-less : (n offset s t : ℕ) → read_at n offset s ≡ (err interrupted, t) → t < s
read_at-less n offset zero t e = absurd cc
read_at-less n offset (suc k) t e = answers-interrupted e

abbrev slow_file-IsFile : IsFile slow_file
slow_file-IsFile = record {
  content = λ _. book_bytes;
  interrupts = λ s. s;
  content-IsByte = λ _. book_bytes-IsByte;
  reads = read_at-right;
  ends = read_at-ended;
  pread_content = λ n offset s. refl;
  pread_interrupts = read_at-fewer;
  interrupted_less = read_at-less;
  stat_size = λ s t st e. stat-ok e ∙ sym book_bytes-length;
  stat_content = λ s. refl;
  stat_interrupts = λ s. omega arith;
}

two_segments-IsBook : IsBook fixed_digest book_bytes two_segments segments
two_segments-IsBook = record { header = two_segments-IsValidHeader; parts = refl; size = refl }

read_segment-SegmentEnds_example :
    Ends
      (read_segment slow_file 70 two_segments 1)
      3
      (SegmentEnds slow_file slow_file-IsFile 3 segments 2 1)
read_segment-SegmentEnds_example =
    read_segment-SegmentEnds slow_file slow_file-IsFile fixed_digest two_segments segments 3
      two_segments-IsBook 70 1 (omega arith)

validated-OpenEnds_example :
    Ends
      (validated slow_file fixed_digest 131)
      3
      (OpenEnds slow_file slow_file-IsFile fixed_digest 3)
validated-OpenEnds_example =
    validated-OpenEnds slow_file slow_file-IsFile fixed_digest 3 131 (omega arith)

-- The second segment, over three interrupts and two reads.
read_second : read_segment slow_file 70 two_segments 1 3 ≡ (ok (replicate 64 9), 0)
unfolding read_segment pread_exact fill encode_header header_prefix to_be
read_second = refl

open_slow : validated slow_file fixed_digest 131 3 ≡ (ok two_segments, 0)
unfolding validated pread_exact fill encode_header header_prefix to_be decode_header from_be
    bytes_eq expected_file_size
open_slow = refl
