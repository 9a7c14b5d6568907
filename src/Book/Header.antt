-- ===== src/Book/Header.antt =====
-- crates/otp-book/src/header.rs: the 128 bytes in front of the segments of a book.
pub mod RoundTrip
pub mod Canonical
use jbuu.Base.{
  ℕ, ◌+◌, ◌*◌, Bool, not, ◌||◌, ◌==◌, ltb, if◌then◌else◌, Option, none, some, [], ◌∷◌, ◌++◌, length,
  take, drop, replicate, u64_limit, checked_add,
}
use jbuu.Base.Result.{Result, ok, err, ◌>>=◌, ◌>>◌, fail_if}
use jbuu.Base.Bytes.{Bytes, to_be, from_be, bytes_eq}
use jbuu.Types.{segment_len}
use jbuu.Anchor.Wire.{Sha256, slice}

-- `b"OTPB"`
abbrev pub book_magic : Bytes
book_magic = 0x4f ∷ 0x54 ∷ 0x50 ∷ 0x42 ∷ []

abbrev pub book_version : ℕ
book_version = 1

abbrev pub header_len : ℕ
header_len = 128

abbrev pub segment_area_offset : ℕ
segment_area_offset = header_len

-- `(1 << 40) - 1`
abbrev pub max_segment_count : ℕ
max_segment_count = 0xff_ffff_ffff

abbrev pub hashed_prefix_len : ℕ
hashed_prefix_len = 96

abbrev pub reserved_len : ℕ
reserved_len = 62

-- The strings that say why a header is refused, those of `open_validated` among them.
pub data HeaderReason : Type 0 where
  bad_header_length bad_magic unsupported_version segment_len_not_64 : HeaderReason
  segment_count_out_of_range reserved_not_zero header_hash_mismatch : HeaderReason
  not_a_regular_file file_size_mismatch : HeaderReason

pub record BookHeader : Type 0 where
  pub version : ℕ
  pub book_id : Bytes
  pub segment_len : ℕ
  pub segment_count : ℕ

-- `segment_count == 0 || segment_count > MAX_SEGMENT_COUNT`
abbrev pub is_count_out_of_range : ℕ → Bool
is_count_out_of_range n = (n == 0) || ltb max_segment_count n

unfoldable pub validate : BookHeader → Result (Unit {0}) HeaderReason
validate h = do
  fail_if (not (h.version == book_version)) unsupported_version
  fail_if (not (h.segment_len == segment_len)) segment_len_not_64
  fail_if (is_count_out_of_range h.segment_count) segment_count_out_of_range
  ok tt

-- `BookHeader::new`
unfoldable pub new : Bytes → ℕ → Result BookHeader HeaderReason
unfolding validate
new book_id segment_count = do
  let h : BookHeader = record {
    version = book_version;
    book_id = book_id;
    segment_len = segment_len;
    segment_count = segment_count;
  }
  validate h
  ok h

-- The bytes that the digest covers.
unfoldable pub header_prefix : BookHeader → Bytes
header_prefix h =
    book_magic
    ++ (to_be 2 h.version
        ++ (to_be 4 h.segment_len
            ++ (to_be 8 h.segment_count ++ (h.book_id ++ replicate reserved_len 0))))

-- `u64::checked_mul`
abbrev pub checked_mul : ℕ → ℕ → Option ℕ
checked_mul a b = if ltb (a * b) u64_limit then some (a * b) else none

abbrev pub past_header : Option ℕ → Option ℕ
past_header none = none
past_header (some body) = checked_add segment_area_offset body

unfoldable pub expected_file_size : BookHeader → Option ℕ
expected_file_size h = past_header (checked_mul h.segment_count segment_len)

module _ (sha : Sha256) where
  open sha use {digest}

  unfoldable pub encode_header : BookHeader → Bytes
  encode_header h = header_prefix h ++ digest (header_prefix h)

  unfoldable pub decode_header : Bytes → Result BookHeader HeaderReason
  decode_header bytes = do
    fail_if (not (length bytes == header_len)) bad_header_length
    fail_if (not (bytes_eq (slice 0 4 bytes) book_magic)) bad_magic
    let version = from_be (slice 4 6 bytes)
    fail_if (not (version == book_version)) unsupported_version
    let declared = from_be (slice 6 10 bytes)
    fail_if (not (declared == segment_len)) segment_len_not_64
    let segment_count = from_be (slice 10 18 bytes)
    fail_if (is_count_out_of_range segment_count) segment_count_out_of_range
    fail_if (not (bytes_eq (slice 34 96 bytes) (replicate reserved_len 0))) reserved_not_zero
    fail_if (not (bytes_eq (drop hashed_prefix_len bytes) (digest (take hashed_prefix_len bytes))))
        header_hash_mismatch
    ok (record {
      version = version;
      book_id = slice 18 34 bytes;
      segment_len = declared;
      segment_count = segment_count;
    })
