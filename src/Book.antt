-- ===== src/Book.antt =====
-- crates/otp-book/src/lib.rs: opening a book and reading one of its segments. The calls of the file
-- are a record of actions on its state; a book is its header and that state.
use jbuu.Base.{
  ℕ, zero, suc, ◌+◌, ◌-◌, ◌*◌, min, Bool, true, false, not, ◌==◌, ltb, leb, Option, none, some, [],
  ◌∷◌, ◌++◌, length, if◌then◌else◌,
}
use jbuu.Base.Result.{Result, ok, err}
use jbuu.Base.State.{Action, pure, raise, raise_if, or_raise, ◌>>=◌, ◌>>◌}
use jbuu.Base.Bytes.{Bytes}
use jbuu.Types.{segment_len, u64_max}
use jbuu.Anchor.Wire.{Sha256}
use jbuu.Book.Header.{
  BookHeader, HeaderReason, bad_header_length, not_a_regular_file, file_size_mismatch, header_len,
  segment_area_offset, checked_mul, past_header, expected_file_size, decode_header,
}
pub mod Header
pub mod Reading
pub mod Segments
pub mod Opening
mod Tests

-- The kinds of `std::io::Error` that the source tells apart.
pub data IoKind : Type 0 where
  not_found interrupted other_io : IoKind

pub data BookError : Type 0 where
  book_not_found book_io : BookError
  invalid_header : HeaderReason → BookError
  -- the index and the number of segments
  segment_out_of_range : ℕ → ℕ → BookError

-- How a call stops early: with an error, or with its fuel.
pub data BookStop : Type 0 where
  failed : BookError → BookStop
  out_of_fuel : BookStop

-- What `fstat` answers.
pub record Stat : Type 0 where
  pub is_regular : Bool
  pub size : ℕ

-- `fstat` and `pread` of an open file; a `pread` has the number of bytes and the offset.
pub record BookFile (F : Type 0) : Type 0 where
  pub stat : Action F IoKind Stat
  pub pread : ℕ → ℕ → Action F IoKind Bytes

-- `map_open_err`
abbrev pub map_open_err : IoKind → BookError
map_open_err not_found = book_not_found
map_open_err interrupted = book_io
map_open_err other_io = book_io

-- `u64::saturating_add`
abbrev pub saturating_add : ℕ → ℕ → ℕ
saturating_add a b = min (a + b) u64_max

module _ {F : Type 0} where
  -- The `match` on what a `pread` has answered.
  abbrev pub resume :
      (Bytes → Action F BookStop Bytes)
      → Action F BookStop Bytes
      → Result Bytes IoKind × F
      → Result Bytes BookStop × F
  resume again retry (ok [], s) = (err (failed book_io), s)
  resume again retry (ok (b ∷ bs), s) = again (b ∷ bs) s
  resume again retry (err interrupted, s) = retry s
  resume again retry (err not_found, s) = (err (failed book_io), s)
  resume again retry (err other_io, s) = (err (failed book_io), s)

  abbrev pub or_io : Result Stat IoKind × F → Result Stat BookStop × F
  or_io (ok st, s) = (ok st, s)
  or_io (err _, s) = (err (failed book_io), s)

  -- On an error the file is dropped.
  abbrev pub kept : Result BookHeader BookStop × F → Result (BookHeader × F) BookStop
  kept (ok h, s) = ok (h, s)
  kept (err e, _) = err e

  abbrev pub header_or_invalid : Result BookHeader HeaderReason → Action F BookStop BookHeader
  header_or_invalid (ok h) s = (ok h, s)
  header_or_invalid (err r) s = (err (failed (invalid_header r)), s)

-- `Some(expected) if st.st_size as u64 == expected`
abbrev pub is_size : ℕ → Option ℕ → Bool
is_size size none = false
is_size size (some expected) = size == expected

module _ {F : Type 0} (file : BookFile F) where
  -- `while filled < buf.len()`, with the bytes that are filled.
  unfoldable pub fill : ℕ → ℕ → Bytes → ℕ → Action F BookStop Bytes
  fill zero n filled offset = if ltb (length filled) n then raise out_of_fuel else pure filled
  fill (suc fuel) n filled offset =
      let again =
        λ (more : Bytes). fill fuel n (filled ++ more) (saturating_add offset (length more)) in
      let retry = fill fuel n filled offset in
      if ltb (length filled) n
      then (λ s. resume again retry (file.pread (n - length filled) offset s))
      else pure filled

  unfoldable pub pread_exact : ℕ → ℕ → ℕ → Action F BookStop Bytes
  pread_exact fuel n offset = fill fuel n [] offset

  -- `Book::read_segment`
  unfoldable pub read_segment : ℕ → BookHeader → ℕ → Action F BookStop Bytes
  read_segment fuel header i = do
    let out = failed (segment_out_of_range i header.segment_count)
    raise_if (leb header.segment_count i) out
    offset ← or_raise (past_header (checked_mul i segment_len)) out
    pread_exact fuel segment_len offset

  -- `open_validated`, of a file that is open.
  unfoldable pub validated : Sha256 → ℕ → Action F BookStop BookHeader
  validated sha fuel = do
    st ← λ s. or_io (file.stat s)
    raise_if (not st.is_regular) (failed (invalid_header not_a_regular_file))
    raise_if (ltb st.size header_len) (failed (invalid_header bad_header_length))
    head ← pread_exact fuel header_len 0
    header ← header_or_invalid (decode_header sha head)
    raise_if (not (is_size st.size (expected_file_size header)))
        (failed (invalid_header file_size_mismatch))
    pure header

  -- `Book::open`, with what `open` has answered.
  unfoldable pub open_book : Sha256 → ℕ → Result F IoKind → Result (BookHeader × F) BookStop
  open_book sha fuel (err e) = err (failed (map_open_err e))
  open_book sha fuel (ok fd) = kept (validated sha fuel fd)
