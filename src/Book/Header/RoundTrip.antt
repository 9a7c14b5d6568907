-- ===== src/Book/Header/RoundTrip.antt =====
-- `BookHeader::encode` and `BookHeader::decode` (crates/otp-book/src/header.rs).
use jbuu.Base.{
  some, ◌*◌, ◌+◌, [], ℕ, ◌≤◌, ◌≡◌, refl, sym, subst, ap, ap₂, ◌∙◌, arith, false, ◌++◌, length, take,
  drop, replicate, take-append, drop-append, drop-drop, append_assoc,
}
use jbuu.Base.Result.{ok}
use jbuu.Base.Bytes.{Bytes, IsArray, to_be, from_be, bytes_eq_iff, from_be-to_be, lengths}
use jbuu.Anchor.Wire.{Sha256, slice}
use jbuu.Book.Header.{
  expected_file_size, BookHeader, book_magic, header_len, hashed_prefix_len, reserved_len, validate,
  header_prefix, encode_header, decode_header, is_count_out_of_range,
}

-- A header of the Rust types that satisfies `validate`.
pub record IsValidHeader (h : BookHeader) : Type 0 where
  pub book_id : IsArray 16 h.book_id
  pub valid : validate h ≡ ok tt

-- What `validate` has checked.
pub record IsChecked (h : BookHeader) : Type 0 where
  pub version : h.version ≡ 1
  pub segment_len : h.segment_len ≡ 64
  pub positive : 1 ≤ h.segment_count
  pub bounded : h.segment_count ≤ 0xff_ffff_ffff

pub validate-IsChecked : (h : BookHeader) → validate h ≡ ok tt → IsChecked h
unfolding validate
validate-IsChecked h e = record {
  version = ground arith;
  segment_len = ground arith;
  positive = ground arith;
  bounded = ground arith;
}

-- The header of a book with an identifier and a number of segments.
abbrev header_of : Bytes → ℕ → BookHeader
header_of id n = record { version = 1; book_id = id; segment_len = 64; segment_count = n }

IsChecked-header_of : (h : BookHeader) → IsChecked h → h ≡ header_of h.book_id h.segment_count
IsChecked-header_of h c =
    let filled : ℕ → ℕ → BookHeader = λ v l. record {
      version = v;
      book_id = h.book_id;
      segment_len = l;
      segment_count = h.segment_count;
    } in
    ap₂ filled c.version c.segment_len

-- What `decode` reads where, with any tail.
module _ (id : Bytes) (n : ℕ) (d : Bytes) (size : length id ≡ 16) where
  length-header_prefix : length (header_prefix (header_of id n)) ≡ 96
  unfolding header_prefix
  length-header_prefix = omega (lengths, size)

  at_0 : slice 0 4 (header_prefix (header_of id n) ++ d) ≡ book_magic
  unfolding header_prefix
  at_0 = refl

  at_4 : from_be (slice 4 6 (header_prefix (header_of id n) ++ d)) ≡ 1
  unfolding header_prefix to_be from_be
  at_4 = refl

  at_6 : from_be (slice 6 10 (header_prefix (header_of id n) ++ d)) ≡ 64
  unfolding header_prefix to_be from_be
  at_6 = refl

  at_10 : slice 10 18 (header_prefix (header_of id n) ++ d) ≡ to_be 8 n
  unfolding header_prefix to_be
  at_10 = refl

  behind : drop 18 (header_prefix (header_of id n) ++ d) ≡ (id ++ replicate reserved_len 0) ++ d
  unfolding header_prefix to_be
  behind = refl

  at_18 : slice 18 34 (header_prefix (header_of id n) ++ d) ≡ id
  at_18 = rw behind (rw (append_assoc id (replicate reserved_len 0) d) (take-append id _ 16 size))

  at_34 : slice 34 96 (header_prefix (header_of id n) ++ d) ≡ replicate reserved_len 0
  at_34 = ap (take 62) (
      sym (drop-drop 18 16 (header_prefix (header_of id n) ++ d))
      ∙ ap (drop 16) (behind ∙ append_assoc id (replicate reserved_len 0) d)
      ∙ drop-append id _ 16 size)

in_range : (n : ℕ) → 1 ≤ n → n ≤ 0xff_ffff_ffff → is_count_out_of_range n ≡ false
in_range n h k = ground arith

module _ (sha : Sha256) where
  decode_header-header_of :
      (id : Bytes) (n : ℕ)
      → length id ≡ 16
      → 1 ≤ n
      → n ≤ 0xff_ffff_ffff
      → decode_header sha (encode_header sha (header_of id n)) ≡ ok (header_of id n)
  unfolding decode_header encode_header
  decode_header-header_of id n size h k =
      let d = sha.digest (header_prefix (header_of id n)) in
      let whole : length (header_prefix (header_of id n) ++ d) ≡ header_len = omega (
        lengths,
        length-header_prefix id n d size,
        (sha.digest-IsArray (header_prefix (header_of id n))).size,
      ) in
      let count : from_be (slice 10 18 (header_prefix (header_of id n) ++ d)) ≡ n =
        ap from_be (at_10 id n d size) ∙ from_be-to_be 8 n (omega arith) in
      rw
        (
          whole,
          at_0 id n d size,
          (bytes_eq_iff book_magic book_magic).1 refl,
          at_4 id n d size,
          at_6 id n d size,
          count,
          in_range n h k,
          at_34 id n d size,
          (bytes_eq_iff (replicate reserved_len 0) (replicate reserved_len 0)).1 refl,
          take-append (header_prefix (header_of id n)) d hashed_prefix_len
              (length-header_prefix id n d size),
          drop-append (header_prefix (header_of id n)) d hashed_prefix_len
              (length-header_prefix id n d size),
          (bytes_eq_iff d d).1 refl,
          at_18 id n d size,
        )
        refl

  pub decode_header-encode_header :
      (h : BookHeader) → IsValidHeader h → decode_header sha (encode_header sha h) ≡ ok h
  decode_header-encode_header h v =
      let c = validate-IsChecked h v.valid in
      subst (λ (x : BookHeader). decode_header sha (encode_header sha x) ≡ ok x)
        (sym (IsChecked-header_of h c))
        (decode_header-header_of h.book_id h.segment_count v.book_id.size c.positive c.bounded)

  pub length-encode_header :
      (h : BookHeader) → IsValidHeader h → length (encode_header sha h) ≡ header_len
  unfolding encode_header
  length-encode_header h v =
      let c = validate-IsChecked h v.valid in
      let front : length (header_prefix h) ≡ 96 =
        ap (λ (x : BookHeader). length (header_prefix x)) (IsChecked-header_of h c)
        ∙ length-header_prefix h.book_id h.segment_count [] v.book_id.size in
      omega (lengths, front, (sha.digest-IsArray (header_prefix h)).size)

pub expected_file_size-valid :
    (h : BookHeader) → validate h ≡ ok tt → expected_file_size h ≡ some (128 + h.segment_count * 64)
unfolding expected_file_size
expected_file_size-valid h v = let bounded = (validate-IsChecked h v).bounded in ground arith
