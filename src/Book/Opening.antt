-- ===== src/Book/Opening.antt =====
-- `Book::open` (crates/otp-book/src/lib.rs): the files that it accepts are the books.
use jbuu.Base.{
  ℕ, ◌+◌, ◌*◌, ◌≤◌, ◌≡◌, refl, sym, ap, ◌∙◌, subst, arith, true, false, not, ==_iff, ltb, ltb→lt,
  inl, inr, Option, ◌++◌, length, take, drop, take-append, take-append-drop, length-drop,
  length-append, All, All-take,
}
use jbuu.Base.Result.{Result, ok, err, Result-cases}
use jbuu.Base.State.{Action, raise_if, pure, ◌>>=◌, ◌>>◌}
use jbuu.Base.Actions.{Ends, Then, Ends->>=, Ends-mono, Ends-raise_if}
use jbuu.Base.Bytes.{IsByte, Bytes}
use jbuu.Anchor.Wire.{Sha256}
use jbuu.Book.Header.{
  header_len, BookHeader, HeaderReason, bad_header_length, not_a_regular_file, file_size_mismatch,
  expected_file_size, encode_header, decode_header,
}
use jbuu.Book.Header.RoundTrip.{
  length-encode_header, decode_header-encode_header, expected_file_size-valid,
}
use jbuu.Book.Header.Canonical.{decode_header_iff}
use jbuu.Book.{
  BookStop, failed, book_io, invalid_header, IoKind, Stat, BookFile, or_io, is_size,
  header_or_invalid, pread_exact, validated,
}
use jbuu.Book.Reading.{
  IsFile, CallFailed, stat_failed, whole, broken, cut_short, FilledAt, pread_exact-FilledAt,
}
use jbuu.Book.Segments.{IsBook}

-- The ends of opening a file.
pub data OpenEnds {F : Type 0} (file : BookFile F) (is : IsFile file) (sha : Sha256) (s : F)
    : Result BookHeader BookStop → F → Type 0 where
  opened :
      {h : BookHeader} {t : F} (body : Bytes)
      → IsBook sha (is.content s) h body
      → is.content t ≡ is.content s
      → OpenEnds file is sha s (ok h) t
  irregular :
      {t : F} (st : Stat) (u : F)
      → file.stat s ≡ (ok st, u)
      → st.is_regular ≡ false
      → OpenEnds file is sha s (err (failed (invalid_header not_a_regular_file))) t
  no_book :
      {t : F} (r : HeaderReason)
      → ((h : BookHeader) (body : Bytes) → ¬ IsBook sha (is.content s) h body)
      → OpenEnds file is sha s (err (failed (invalid_header r))) t
  unreadable : {t : F} → CallFailed file → OpenEnds file is sha s (err (failed book_io)) t

module _ (sha : Sha256) (c : Bytes) (h : BookHeader) (body : Bytes)
    (book : IsBook sha c h body) where
  book-length : length c ≡ 128 + h.segment_count * 64
  book-length = omega (
    arith,
    ap (λ (x : Bytes). length x) book.parts,
    length-append (encode_header sha h) body,
    length-encode_header sha h book.header,
    book.size,
  )

  -- The header that is read of a book.
  book-decode_header : decode_header sha (take 128 c) ≡ ok h
  book-decode_header =
      ap (λ (x : Bytes). decode_header sha (take 128 x)) book.parts
      ∙ ap (decode_header sha)
          (take-append (encode_header sha h) body 128 (length-encode_header sha h book.header))
      ∙ decode_header-encode_header sha h book.header

  book-is_size : is_size (length c) (expected_file_size h) ≡ true
  book-is_size = rw (expected_file_size-valid h book.header.valid) ((==_iff _ _).1 book-length)

-- A header that is read, with the size that it declares, makes the file a book.
read_header-IsBook :
    (sha : Sha256) (c : Bytes) (h : BookHeader)
    → All IsByte c
    → decode_header sha (take 128 c) ≡ ok h
    → is_size (length c) (expected_file_size h) ≡ true
    → IsBook sha c h (drop 128 c)
read_header-IsBook sha c h bytes e sized =
    let v = (decode_header_iff sha (take 128 c) h (All-take IsByte 128 c bytes)).0 e in
    let size : length c ≡ 128 + h.segment_count * 64 = (==_iff _ _).0 (
      subst (λ (o : Option ℕ). is_size (length c) o ≡ true) (expected_file_size-valid h v.0.valid)
        sized) in
    record {
      header = v.0;
      parts = sym (take-append-drop 128 c) ∙ ap (λ (x : Bytes). x ++ drop 128 c) (sym v.1);
      size = omega (arith, length-drop 128 c, size);
    }

ok-injective : {a b : BookHeader} → ◌≡◌ {A = Result BookHeader HeaderReason} (ok a) (ok b) → a ≡ b
ok-injective h = cc

module _ {F : Type 0} (file : BookFile F) (is : IsFile file) (sha : Sha256) (s : F) where
  -- What `validated` does with the header's bytes, and what it does with the answer of `fstat`.
  abbrev after_head : ℕ → Bytes → Action F BookStop BookHeader
  after_head size head = header_or_invalid (decode_header sha head) >>= λ h.
      raise_if (not (is_size size (expected_file_size h)))
        (failed (invalid_header file_size_mismatch))
      >> pure h

  abbrev after_fstat : ℕ → Stat → Action F BookStop BookHeader
  after_fstat fuel st =
      raise_if (not st.is_regular) (failed (invalid_header not_a_regular_file))
      >> (raise_if (ltb st.size header_len) (failed (invalid_header bad_header_length))
          >> (pread_exact file fuel header_len 0 >>= after_head st.size))

  open_tail :
      (head : Bytes) (size : ℕ) (t : F)
      → head ≡ take 128 (is.content s)
      → size ≡ length (is.content s)
      → is.content t ≡ is.content s
      → Ends (after_head size head) t (OpenEnds file is sha s)
  open_tail head size t he hs same = elim (Result-cases (decode_header sha head)) [
    | inr (r, e) ↦ rw e (
        no_book r λ h body book.
          let found = book-decode_header sha (is.content s) h body book in
          let read = ap (decode_header sha) he in cc)
    | inl (h, e) ↦ rw e (
        Ends-raise_if (not (is_size size (expected_file_size h))) _ _ t (OpenEnds file is sha s)
          (λ wrong. no_book file_size_mismatch λ h' body book.
            let found = book-decode_header sha (is.content s) h' body book in
            let same_header : h ≡ h' = ok-injective (sym e ∙ ap (decode_header sha) he ∙ found) in
            let fits : is_size size (expected_file_size h) ≡ true =
              rw (hs, same_header) (book-is_size sha (is.content s) h' body book) in
            cc)
          (λ right.
            let sized : is_size (length (is.content s)) (expected_file_size h) ≡ true =
              subst (λ (k : ℕ). is_size k (expected_file_size h) ≡ true) hs
                (ground (arith, right)) in
            opened (drop 128 (is.content s))
              (read_header-IsBook sha (is.content s) h (is.content-IsByte s)
                (ap (decode_header sha) (sym he) ∙ e) sized)
              same))
  ]

  after_read :
      (st : Stat)
      → st.size ≡ length (is.content s)
      → 128 ≤ st.size
      → (r : Result Bytes BookStop) (t : F)
      → FilledAt file is (is.content s) (is.interrupts s) 128 0 r t
      → Then (after_head st.size) (OpenEnds file is sha s) r t
  after_read st hs long (ok bs) t (whole e size, same, _) = open_tail bs st.size t e hs same
  after_read st hs long (err e) t (broken why, _, _) = unreadable why
  after_read st hs long (err e) t (cut_short short, _, _) = absurd (omega (arith, short, hs, long))

  after_stat :
      (fuel : ℕ)
      → 128 + is.interrupts s ≤ fuel
      → (p : Result Stat IoKind × F) → file.stat s ≡ p
      → Then (after_fstat fuel) (OpenEnds file is sha s) (or_io p).0 (or_io p).1
  after_stat fuel enough (err k, t) e = unreadable (stat_failed k s t e)
  after_stat fuel enough (ok st, t) e =
      let hs = is.stat_size s t st e in
      let same : is.content t ≡ is.content s =
        sym (ap (λ (p : Result Stat IoKind × F). is.content p.1) e) ∙ is.stat_content s in
      let fewer : is.interrupts t ≤ is.interrupts s =
        omega
          (arith, is.stat_interrupts s, ap (λ (p : Result Stat IoKind × F). is.interrupts p.1) e) in
      Ends-raise_if (not st.is_regular) _ _ t (OpenEnds file is sha s)
        (λ odd. irregular st t e (ground (arith, odd)))
        (λ regular.
          Ends-raise_if (ltb st.size header_len) _ _ t (OpenEnds file is sha s)
            (λ small. no_book bad_header_length λ h body book.
              omega (arith, ltb→lt _ _ small, hs, book-length sha (is.content s) h body book))
            (λ long.
              Ends->>= (pread_exact file fuel header_len 0) (after_head st.size) t
                (OpenEnds file is sha s)
                (Ends-mono (pread_exact file fuel header_len 0) t
                  (FilledAt file is (is.content s) (is.interrupts s) 128 0)
                  (Then (after_head st.size) (OpenEnds file is sha s))
                  (after_read st hs (ground (arith, long)))
                  (pread_exact-FilledAt file is (is.content s) fuel 128 0 t (is.interrupts s)
                    (omega arith) same fewer enough))))

  -- What is opened is a book: its content is the encoding of a valid header and as many segments as
  -- that header declares, with no byte behind them, and the answer is that header. A file is refused as
  -- invalid only where its content is no book with any header or the file is not a regular one, and
  -- the error of I/O is one of a call of the file. The loop ends within 128 reads and the interrupted
  -- ones.
  pub validated-OpenEnds :
      (fuel : ℕ)
      → 128 + is.interrupts s ≤ fuel
      → Ends (validated file sha fuel) s (OpenEnds file is sha s)
  unfolding validated
  validated-OpenEnds fuel enough =
      Ends->>= (λ (u : F). or_io (file.stat u)) (after_fstat fuel) s (OpenEnds file is sha s)
        (after_stat fuel enough (file.stat s) refl)
