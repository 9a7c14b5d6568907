-- ===== src/Anchor.antt =====
-- crates/otp-anchor-spec/src/lib.rs: anchor records, their order and their equality.
pub mod Wire
pub mod Decide
mod Tests
use Prim.Native.Nat.{compare, Ordering}
use jbuu.Base.{
  checked_add-fits, ℕ, ◌+◌, ◌<◌, ◌≡◌, refl, ◌↔◌, arith, Bool, true, false, ◌&&◌, ◌==◌, ==_iff,
  Option, none, some, u64_limit,
}
use jbuu.Base.Bytes.{Bytes, bytes_eq, bytes_eq_iff, IsArray}
use jbuu.Types.{segment_next}

-- `SegmentHash` is its 32 bytes.
pub data AnchorPayload : Type 0 where
  init_payload : AnchorPayload
  -- reserved
  intent_payload : ℕ → AnchorPayload
  -- previous_segment_hash
  commit_payload : Bytes → AnchorPayload

-- `AnchorPayload::tag`
abbrev pub tag : AnchorPayload → ℕ
tag init_payload = 0
tag (intent_payload _) = 1
tag (commit_payload _) = 2

pub record AnchorRecord : Type 0 where
  pub book_id : Bytes
  pub next : ℕ
  pub generation : ℕ
  pub payload : AnchorPayload

-- `AnchorRecord::init`
abbrev pub init_record : Bytes → AnchorRecord
init_record book_id = record { book_id = book_id; next = 0; generation = 0; payload = init_payload }

-- `AnchorRecord::intent`: `none` is the panic of `reserved.next()`.
abbrev pub intent_record : Bytes → ℕ → ℕ → Option AnchorRecord
intent_record book_id generation reserved = elim (segment_next reserved) [
  | none ↦ none
  | some next ↦ some (record {
    book_id = book_id;
    next = next;
    generation = generation;
    payload = intent_payload reserved;
  })
]

-- The record that it builds where the number has a successor.
abbrev pub intent_of : Bytes → ℕ → ℕ → AnchorRecord
intent_of book_id generation n = record {
  book_id = book_id;
  next = n + 1;
  generation = generation;
  payload = intent_payload n;
}

pub intent_record-eq :
    (book_id : Bytes) (generation n : ℕ)
    → n + 1 < u64_limit
    → intent_record book_id generation n ≡ some (intent_of book_id generation n)
intent_record-eq book_id generation n h = ground arith

-- `AnchorRecord::commit`
abbrev pub commit_record : Bytes → ℕ → ℕ → Bytes → AnchorRecord
commit_record book_id generation next previous_segment_hash = record {
  book_id = book_id;
  next = next;
  generation = generation;
  payload = commit_payload previous_segment_hash;
}

-- The order of pairs: the second decides where the first are equal.
abbrev then_compare : Ordering → Ordering → Ordering
then_compare Ordering.lt second = Ordering.lt
then_compare Ordering.eq second = second
then_compare Ordering.gt second = Ordering.gt

-- `AnchorRecord::state_cmp`: generation first, then the tag.
unfoldable pub state_cmp : AnchorRecord → AnchorRecord → Ordering
state_cmp a b =
    then_compare (compare a.generation b.generation) (compare (tag a.payload) (tag b.payload))

unfoldable pub payload_eq : AnchorPayload → AnchorPayload → Bool
payload_eq init_payload init_payload = true
payload_eq (intent_payload i) (intent_payload j) = i == j
payload_eq (commit_payload h) (commit_payload k) = bytes_eq h k
payload_eq _ _ = false

-- The derived `==` of records.
unfoldable pub record_eq : AnchorRecord → AnchorRecord → Bool
record_eq a b =
    bytes_eq a.book_id b.book_id
    && (a.next == b.next && (a.generation == b.generation && payload_eq a.payload b.payload))

payload_eq→eq : (a b : AnchorPayload) → payload_eq a b ≡ true → a ≡ b
unfolding payload_eq
payload_eq→eq init_payload init_payload h = refl
payload_eq→eq init_payload (intent_payload j) h = cc
payload_eq→eq init_payload (commit_payload k) h = cc
payload_eq→eq (intent_payload i) init_payload h = cc
payload_eq→eq (intent_payload i) (intent_payload j) h = ground arith
payload_eq→eq (intent_payload i) (commit_payload k) h = cc
payload_eq→eq (commit_payload i) init_payload h = cc
payload_eq→eq (commit_payload i) (intent_payload j) h = cc
payload_eq→eq (commit_payload i) (commit_payload j) h = ground (arith, (bytes_eq_iff i j).0 h)

payload_eq_refl : (a : AnchorPayload) → payload_eq a a ≡ true
unfolding payload_eq
payload_eq_refl init_payload = refl
payload_eq_refl (intent_payload i) = ground arith
payload_eq_refl (commit_payload h) = (bytes_eq_iff h h).1 refl

pub record_eq→eq : (a b : AnchorRecord) → record_eq a b ≡ true → a ≡ b
unfolding record_eq
record_eq→eq a b h =
    ground (arith, bytes_eq_iff a.book_id b.book_id, payload_eq→eq a.payload b.payload)

pub record_eq_refl : (a : AnchorRecord) → record_eq a a ≡ true
unfolding record_eq
record_eq_refl a =
    ground (arith, (bytes_eq_iff a.book_id a.book_id).1 refl, payload_eq_refl a.payload)

-- The ranges of the Rust types, and a payload that is canonical.
abbrev IsTypedPayload : ℕ → ℕ → AnchorPayload → Type 0
IsTypedPayload generation next init_payload = (generation ≡ 0) × (next ≡ 0)
IsTypedPayload generation next (intent_payload reserved) = next ≡ reserved + 1
IsTypedPayload generation next (commit_payload hash) = IsArray 32 hash × (0 < next)

pub record IsTypedRecord (r : AnchorRecord) : Type 0 where
  pub book_id : IsArray 16 r.book_id
  pub next : r.next < u64_limit
  pub generation : r.generation < u64_limit
  pub payload : IsTypedPayload r.generation r.next r.payload
