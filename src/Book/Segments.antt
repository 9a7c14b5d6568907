-- ===== src/Book/Segments.antt =====
-- `Book::read_segment` (crates/otp-book/src/lib.rs): what is read of a file that is a book.
use jbuu.Base.{
  ℕ, ◌+◌, ◌*◌, ◌≤◌, ◌<◌, ◌≡◌, refl, sym, ap, ◌∙◌, arith, leb, leb→le, leb_false→lt, some, ◌++◌,
  length, take, drop, drop-drop, drop-append, length-append,
}
use jbuu.Base.Result.{Result, ok, err}
use jbuu.Base.Actions.{Ends, Ends-mono, Ends-raise_if}
use jbuu.Base.Bytes.{Bytes}
use jbuu.Anchor.Wire.{Sha256}
use jbuu.Book.Header.{BookHeader, checked_mul, past_header, encode_header}
use jbuu.Book.Header.RoundTrip.{IsValidHeader, validate-IsChecked, length-encode_header}
use jbuu.Book.{BookStop, failed, book_io, segment_out_of_range, BookFile, pread_exact, read_segment}
use jbuu.Book.Reading.{IsFile, CallFailed, whole, broken, cut_short, FilledAt, pread_exact-FilledAt}

-- A file whose content is a valid header and the segments that it declares.
pub record IsBook (sha : Sha256) (c : Bytes) (h : BookHeader) (body : Bytes) : Type 0 where
  pub header : IsValidHeader h
  pub parts : c ≡ encode_header sha h ++ body
  pub size : length body ≡ h.segment_count * 64

-- The ends of reading the segment `i` of a body of `count` segments.
pub data SegmentEnds {F : Type 0} (file : BookFile F) (is : IsFile file) (s : F) (body : Bytes)
    (count i : ℕ) : Result Bytes BookStop → F → Type 0 where
  outside :
      {t : F}
      → count ≤ i
      → t ≡ s
      → SegmentEnds file is s body count i (err (failed (segment_out_of_range i count))) t
  answered :
      {bs : Bytes} {t : F}
      → i < count
      → bs ≡ take 64 (drop (i * 64) body)
      → length bs ≡ 64
      → is.content t ≡ is.content s
      → SegmentEnds file is s body count i (ok bs) t
  unread :
      {t : F}
      → i < count
      → CallFailed file
      → SegmentEnds file is s body count i (err (failed book_io)) t

offset_of :
    (i count : ℕ)
    → i < count
    → count ≤ 0xff_ffff_ffff
    → past_header (checked_mul i 64) ≡ some (128 + i * 64)
offset_of i count h k = ground arith

module _ {F : Type 0} (file : BookFile F) (is : IsFile file) (sha : Sha256) (h : BookHeader)
    (body : Bytes) (s : F) (book : IsBook sha (is.content s) h body) where
  content-length : length (is.content s) ≡ 128 + h.segment_count * 64
  content-length = omega (
    arith,
    ap (λ (x : Bytes). length x) book.parts,
    length-append (encode_header sha h) body,
    length-encode_header sha h book.header,
    book.size,
  )

  at_segment : (i : ℕ) → drop (128 + i * 64) (is.content s) ≡ drop (i * 64) body
  at_segment i =
      ap (drop (128 + i * 64)) book.parts
      ∙ sym (drop-drop 128 (i * 64) (encode_header sha h ++ body))
      ∙ ap (drop (i * 64))
          (drop-append (encode_header sha h) body 128 (length-encode_header sha h book.header))

  from_filled :
      (i : ℕ)
      → i < h.segment_count
      → (r : Result Bytes BookStop) (t : F)
      → FilledAt file is (is.content s) (is.interrupts s) 64 (128 + i * 64) r t
      → SegmentEnds file is s body h.segment_count i r t
  from_filled i lt (ok bs) t (whole e size, same, _) =
      answered lt (e ∙ ap (take 64) (at_segment i)) size same
  from_filled i lt (err e) t (broken why, _, _) = unread lt why
  from_filled i lt (err e) t (cut_short short, _, _) =
      absurd (omega (arith, short, content-length, lt))

  -- In a file that is a book, reading a segment within its number answers the 64 bytes of that segment
  -- and nothing else, or the error of a read of the file that has failed; reading one behind them is
  -- refused before any read. The loop ends within 64 reads and the interrupted ones.
  pub read_segment-SegmentEnds :
      (fuel i : ℕ)
      → 64 + is.interrupts s ≤ fuel
      → Ends (read_segment file fuel h i) s (SegmentEnds file is s body h.segment_count i)
  unfolding read_segment
  read_segment-SegmentEnds fuel i enough =
      Ends-raise_if (leb h.segment_count i) _ _ s (SegmentEnds file is s body h.segment_count i)
        (λ out. outside (leb→le _ _ out) refl)
        (λ inside.
          let lt = leb_false→lt inside in
          let bounded = (validate-IsChecked h book.header.valid).bounded in
          rw (offset_of i h.segment_count lt bounded) (
            Ends-mono (pread_exact file fuel 64 (128 + i * 64)) s
              (FilledAt file is (is.content s) (is.interrupts s) 64 (128 + i * 64))
              (SegmentEnds file is s body h.segment_count i) (from_filled i lt)
              (pread_exact-FilledAt file is (is.content s) fuel 64 (128 + i * 64) s
                (is.interrupts s) (omega (arith, lt, bounded)) refl (omega arith) enough)))
