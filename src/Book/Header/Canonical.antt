-- ===== src/Book/Header/Canonical.antt =====
-- What `BookHeader::decode` accepts (crates/otp-book/src/header.rs): the encodings of valid headers.
use jbuu.Base.{
  ℕ, ◌+◌, ◌≤◌, ◌≡◌, refl, sym, subst, ap, ap₂, ◌∙◌, ◌↔◌, arith, Bool, true, false, not, ◌==◌, ◌++◌,
  length, take, drop, replicate, take-append, take-append-drop, drop-drop, append_assoc,
  length-take_le, length-drop, All, All-take, All-drop,
}
use jbuu.Base.Result.{Result, ok, err, ◌>>◌, fail_if}
use jbuu.Base.Bytes.{
  Bytes, IsByte, IsArray, from_be, bytes_eq, bytes_eq_iff, to_be-from_be, length-join,
}
use jbuu.Anchor.Wire.{Sha256, slice}
use jbuu.Book.Header.{
  HeaderReason, BookHeader, book_magic, header_len, reserved_len, validate, header_prefix,
  encode_header, decode_header, is_count_out_of_range,
}
use jbuu.Book.Header.RoundTrip.{IsValidHeader, decode_header-encode_header}

-- What a decoder that answers a header has to have read.
module _ (sha : Sha256) (w : Bytes) where
  abbrev Decoded : Result BookHeader HeaderReason → Type 0
  Decoded (ok h) = IsValidHeader h × (encode_header sha h ≡ w)
  Decoded (err _) = Unit {0}

  Decoded-fail_if :
      (b : Bool) (e : HeaderReason) (k : Result BookHeader HeaderReason)
      → (b ≡ false → Decoded k)
      → Decoded (fail_if b e >> k)
  Decoded-fail_if true e k h = tt
  Decoded-fail_if false e k h = h refl

-- A slice and what is behind it.
cut : (a n : ℕ) (w : Bytes) → drop a w ≡ take n (drop a w) ++ drop (a + n) w
cut a n w =
    sym (take-append-drop n (drop a w))
    ∙ ap (λ (x : Bytes). take n (drop a w) ++ x) (drop-drop a n w)

slice_array :
    (a n : ℕ) (w : Bytes) → a + n ≤ length w → All IsByte w → IsArray n (take n (drop a w))
slice_array a n w h bytes = record {
  size = length-take_le n (drop a w) (omega (arith, length-drop a w));
  bytes = All-take IsByte n (drop a w) (All-drop IsByte a w bytes);
}

joined :
    (a b c d e f r : Bytes)
    → (a ++ (b ++ (c ++ (d ++ (e ++ f))))) ++ r ≡ a ++ (b ++ (c ++ (d ++ (e ++ (f ++ r)))))
joined a b c d e f r = simp append_assoc

same_bytes : (xs ys : Bytes) → not (bytes_eq xs ys) ≡ false → xs ≡ ys
same_bytes xs ys h = (bytes_eq_iff xs ys).0 (ground arith)

same_number : (a b : ℕ) → not (a == b) ≡ false → a ≡ b
same_number a b h = ground arith

accepted :
    (h : BookHeader)
    → not (h.version == 1) ≡ false
    → not (h.segment_len == 64) ≡ false
    → is_count_out_of_range h.segment_count ≡ false
    → validate h ≡ ok tt
unfolding validate
accepted h version declared counted = rw (version, declared, counted) refl

-- The fields that `decode` reads.
abbrev read_header : Bytes → BookHeader
read_header w = record {
  version = from_be (slice 4 6 w);
  book_id = slice 18 34 w;
  segment_len = from_be (slice 6 10 w);
  segment_count = from_be (slice 10 18 w);
}

-- The parts that `decode` has compared and taken, put together.
module _ (w : Bytes) (bytes : All IsByte w) (size : length w ≡ 128) where
  header_prefix-slices :
      slice 0 4 w ≡ book_magic
      → slice 34 96 w ≡ replicate reserved_len 0
      → header_prefix (read_header w)
        ≡ slice 0 4 w
          ++ (slice 4 6 w ++ (slice 6 10 w ++ (slice 10 18 w ++ (slice 18 34 w ++ slice 34 96 w))))
  unfolding header_prefix
  header_prefix-slices magic reserved =
      let version = to_be-from_be 2 _ (slice_array 4 2 w (omega (arith, size)) bytes) in
      let declared = to_be-from_be 4 _ (slice_array 6 4 w (omega (arith, size)) bytes) in
      let count = to_be-from_be 8 _ (slice_array 10 8 w (omega (arith, size)) bytes) in
      ap₂ ◌++◌ (sym magic) (
        ap₂ ◌++◌ version (
          ap₂ ◌++◌ declared
            (ap₂ ◌++◌ count (ap (λ (x : Bytes). slice 18 34 w ++ x) (sym reserved)))))

  header_prefix-read_header :
      slice 0 4 w ≡ book_magic
      → slice 34 96 w ≡ replicate reserved_len 0
      → header_prefix (read_header w) ++ drop 96 w ≡ w
  header_prefix-read_header magic reserved =
      ap (λ (x : Bytes). x ++ drop 96 w) (header_prefix-slices magic reserved)
      ∙ joined (slice 0 4 w) (slice 4 6 w) (slice 6 10 w) (slice 10 18 w) (slice 18 34 w)
          (slice 34 96 w) (drop 96 w)
      ∙ sym (
          cut 0 4 w
          ∙ ap (λ (x : Bytes). slice 0 4 w ++ x)
              (cut 4 2 w
                ∙ ap (λ (x : Bytes). slice 4 6 w ++ x)
                    (cut 6 4 w
                      ∙ ap (λ (x : Bytes). slice 6 10 w ++ x)
                          (cut 10 8 w
                            ∙ ap (λ (x : Bytes). slice 10 18 w ++ x)
                                (cut 18 16 w
                                  ∙ ap (λ (x : Bytes). slice 18 34 w ++ x) (cut 34 62 w))))))

  -- The digest of the rebuilt prefix is the one that `decode` has compared.
  encode_header-read_header :
      (sha : Sha256)
      → slice 0 4 w ≡ book_magic
      → slice 34 96 w ≡ replicate reserved_len 0
      → drop 96 w ≡ sha.digest (take 96 w)
      → encode_header sha (read_header w) ≡ w
  unfolding encode_header
  encode_header-read_header sha magic reserved hash =
      let whole = header_prefix-read_header magic reserved in
      let long : length (header_prefix (read_header w)) ≡ 96 = omega (
        arith,
        size,
        ap (λ (x : Bytes). length x) whole,
        length-join (header_prefix (read_header w)) (drop 96 w),
        length-drop 96 w,
      ) in
      let front : header_prefix (read_header w) ≡ take 96 w =
        sym (take-append (header_prefix (read_header w)) (drop 96 w) 96 long)
        ∙ ap (take 96) whole in
      ap (λ (x : Bytes). header_prefix (read_header w) ++ x) (ap sha.digest front ∙ sym hash)
      ∙ whole

module _ (sha : Sha256) where
  decode_header-Decoded : (w : Bytes) → All IsByte w → Decoded sha w (decode_header sha w)
  unfolding decode_header
  decode_header-Decoded w bytes =
      let h = read_header w in
      Decoded-fail_if sha w (not (length w == header_len)) _ _ (λ sized.
        Decoded-fail_if sha w (not (bytes_eq (slice 0 4 w) book_magic)) _ _ (λ magic.
          Decoded-fail_if sha w (not (h.version == 1)) _ _ (λ version.
            Decoded-fail_if sha w (not (h.segment_len == 64)) _ _ (λ declared.
              Decoded-fail_if sha w (is_count_out_of_range h.segment_count) _ _ (λ counted.
                Decoded-fail_if sha w (not (bytes_eq (slice 34 96 w) (replicate reserved_len 0))) _
                  _
                  (λ reserved.
                    Decoded-fail_if sha w (not (bytes_eq (drop 96 w) (sha.digest (take 96 w)))) _ _
                      (λ hash.
                        let size = same_number (length w) 128 sized in
                        (
                          record {
                            book_id = slice_array 18 16 w (omega (arith, size)) bytes;
                            valid = accepted h version declared counted;
                          },
                          encode_header-read_header w bytes size sha (same_bytes _ _ magic)
                              (same_bytes _ _ reserved) (same_bytes _ _ hash),
                        ))))))))

-- A header of the Rust types that `validate` accepts encodes to bytes that decode to it; and 128 bytes
-- that decode at all are the encoding of the valid header that they decode to: no byte of the header,
-- the reserved ones and the digest included, can differ. SHA-256 is any function into 32 bytes.
pub decode_header_iff :
    (sha : Sha256) (w : Bytes) (h : BookHeader)
    → All IsByte w
    → (decode_header sha w ≡ ok h) ↔ (IsValidHeader h × (encode_header sha h ≡ w))
decode_header_iff sha w h bytes = (
  λ e.
      subst (λ (x : Result BookHeader HeaderReason). Decoded sha w x) e
        (decode_header-Decoded sha w bytes),
  λ v. ap (decode_header sha) (sym v.1) ∙ decode_header-encode_header sha h v.0,
)
