-- ===== src/Anchor/Wire.antt =====
-- crates/otp-anchor-spec/src/lib.rs: the 104 bytes of an anchor record. SHA-256 comes from a crate
-- and is a parameter.
pub mod RoundTrip
use jbuu.Base.{
  ℕ, zero, suc, ◌+◌, ◌-◌, ◌<◌, ◌≡◌, refl, arith, Bool, true, false, not, ◌&&◌, ◌||◌, ◌==◌,
  if◌then◌else◌, List, [], ◌∷◌, ◌++◌, length, take, drop, replicate, Option, none, some,
  checked_add,
}
use jbuu.Base.Result.{Result, ok, err, ◌>>=◌, ◌>>◌, fail_if}
use jbuu.Base.Bytes.{Bytes, IsArray, to_be, from_be, bytes_eq}
use jbuu.Anchor.{AnchorPayload, init_payload, intent_payload, commit_payload, tag, AnchorRecord}

-- The digest that the source takes from the crate `sha2`: any function into arrays of 32 bytes.
pub record Sha256 : Type 0 where
  pub digest : Bytes → Bytes
  pub digest-IsArray : (bs : Bytes) → IsArray 32 (digest bs)

abbrev pub anchor_record_len : ℕ
anchor_record_len = 104

abbrev pub prefix_len : ℕ
prefix_len = 72

-- `b"OTPA"`
abbrev pub magic : Bytes
magic = 0x4f ∷ 0x54 ∷ 0x50 ∷ 0x41 ∷ []

abbrev pub anchor_version : ℕ
anchor_version = 2

pub data DecodeReason : Type 0 where
  bad_record_length bad_magic bad_anchor_version bad_flags : DecodeReason
  non_canonical_init non_canonical_intent intent_index non_canonical_commit : DecodeReason
  bad_record_type : DecodeReason

pub data AnchorSpecError : Type 0 where
  decode_failed : DecodeReason → AnchorSpecError
  integrity_check_failed : AnchorSpecError

-- `&buf[a..b]`
abbrev pub slice : ℕ → ℕ → Bytes → Bytes
slice a b buf = take (b - a) (drop a buf)

-- `buf[i]`, for an index in range.
abbrev pub byte_at : ℕ → Bytes → ℕ
byte_at i buf = from_be (slice i (i + 1) buf)

-- The bytes 40 to 72, zero where the record's kind leaves them unset.
unfoldable pub payload_area : AnchorPayload → Bytes
payload_area init_payload = replicate 32 0
payload_area (intent_payload reserved) = to_be 8 reserved ++ replicate 24 0
payload_area (commit_payload hash) = hash

-- The bytes that the digest covers.
unfoldable pub record_prefix : AnchorRecord → Bytes
record_prefix r =
    magic
    ++ (to_be 2 anchor_version
        ++ (tag r.payload
            ∷ 0
            ∷ (r.book_id ++ (to_be 8 r.generation ++ (to_be 8 r.next ++ payload_area r.payload)))))

-- `iter().any(|b| *b != 0)`
unfoldable pub any_set : Bytes → Bool
any_set [] = false
any_set (b ∷ bs) = not (b == 0) || any_set bs

-- `reserved.checked_add(1) == Some(next)`
abbrev pub is_successor : ℕ → Option ℕ → Bool
is_successor next none = false
is_successor next (some v) = v == next

-- The `match buf[6]` of `decode_and_verify`.
unfoldable pub decode_payload_area : ℕ → ℕ → ℕ → Bytes → Result AnchorPayload AnchorSpecError
decode_payload_area kind generation next buf =
    if kind == 0
    then (do
      fail_if (not (generation == 0) || (not (next == 0) || any_set (slice 40 72 buf)))
          (decode_failed non_canonical_init)
      ok init_payload)
    else if kind == 1
    then (do
      fail_if ((next == 0) || any_set (slice 48 72 buf)) (decode_failed non_canonical_intent)
      let reserved = from_be (slice 40 48 buf)
      fail_if (not (is_successor next (checked_add reserved 1))) (decode_failed intent_index)
      ok (intent_payload reserved))
    else if kind == 2
    then (do
      fail_if (next == 0) (decode_failed non_canonical_commit)
      ok (commit_payload (slice 40 72 buf)))
    else err (decode_failed bad_record_type)

module _ (sha : Sha256) where
  open sha use {digest}

  unfoldable pub encoded : AnchorRecord → Bytes
  encoded r = record_prefix r ++ digest (record_prefix r)

  -- `encode_record` appends to `out`.
  unfoldable pub encode_record : AnchorRecord → Bytes → Bytes
  encode_record r out = out ++ encoded r

  unfoldable pub decode_and_verify : Bytes → Result AnchorRecord AnchorSpecError
  decode_and_verify buf = do
    fail_if (not (length buf == anchor_record_len)) (decode_failed bad_record_length)
    fail_if (not (bytes_eq (slice 0 4 buf) magic)) (decode_failed bad_magic)
    fail_if (not (from_be (slice 4 6 buf) == anchor_version)) (decode_failed bad_anchor_version)
    fail_if (not (byte_at 7 buf == 0)) (decode_failed bad_flags)
    fail_if (not (bytes_eq (digest (take prefix_len buf)) (drop prefix_len buf)))
        integrity_check_failed
    let generation = from_be (slice 24 32 buf)
    let next = from_be (slice 32 40 buf)
    payload ← decode_payload_area (byte_at 6 buf) generation next buf
    ok (record {
      book_id = slice 8 24 buf;
      next = next;
      generation = generation;
      payload = payload;
    })
