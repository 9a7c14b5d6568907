-- ===== src/Anchor/Wire/RoundTrip.antt =====
-- `decode_and_verify` after `encode_record` (crates/otp-anchor-spec/src/lib.rs).
use jbuu.Base.{
  ℕ, zero, suc, ◌+◌, ◌<◌, ◌≡◌, refl, sym, ◌∙◌, ap, arith, false, [], ◌∷◌, ◌++◌, length, drop,
  drop-drop, drop-append, take-append, replicate, append_assoc, u64_limit,
}
use jbuu.Base.Result.{ok}
use jbuu.Base.Bytes.{
  Bytes, to_be, from_be, bytes_eq, bytes_eq_iff, length-to_be, from_be-to_be, lengths,
}
use jbuu.Anchor.{
  AnchorPayload, init_payload, intent_payload, commit_payload, tag, AnchorRecord, IsTypedRecord,
  IsTypedPayload,
}
use jbuu.Anchor.Wire.{
  Sha256, anchor_record_len, anchor_version, prefix_len, magic, slice, byte_at, payload_area,
  record_prefix, any_set, decode_payload_area, encoded, encode_record, decode_and_verify,
}

-- A slice that starts behind a known front.
drop_past : (n m : ℕ) (xs ys : Bytes) → length xs ≡ n → drop (n + m) (xs ++ ys) ≡ drop m ys
drop_past n m xs ys h = sym (drop-drop n m (xs ++ ys)) ∙ ap (drop m) (drop-append xs ys n h)

abbrev layout : Bytes → Bytes → Bytes → Bytes → Bytes → Bytes → Bytes
layout head id g n p d = head ++ (id ++ (g ++ (n ++ (p ++ d))))

-- Where the fields of a record stand, for any six parts of the right sizes.
module _ (head id g n p d : Bytes) (hh : length head ≡ 8) (hi : length id ≡ 16) (hg : length g ≡ 8)
    (hn : length n ≡ 8) (hp : length p ≡ 32) where
  slice_id : slice 8 24 (layout head id g n p d) ≡ id
  slice_id = rw (drop-append head (id ++ (g ++ (n ++ (p ++ d)))) 8 hh) (take-append id _ 16 hi)

  drop_24 : drop 24 (layout head id g n p d) ≡ g ++ (n ++ (p ++ d))
  drop_24 = drop_past 8 16 head _ hh ∙ drop-append id _ 16 hi

  drop_32 : drop 32 (layout head id g n p d) ≡ n ++ (p ++ d)
  drop_32 =
      sym (drop-drop 24 8 (layout head id g n p d)) ∙ ap (drop 8) drop_24 ∙ drop-append g _ 8 hg

  drop_40 : drop 40 (layout head id g n p d) ≡ p ++ d
  drop_40 =
      sym (drop-drop 32 8 (layout head id g n p d)) ∙ ap (drop 8) drop_32 ∙ drop-append n _ 8 hn

  slice_g : slice 24 32 (layout head id g n p d) ≡ g
  slice_g = rw drop_24 (take-append g _ 8 hg)

  slice_n : slice 32 40 (layout head id g n p d) ≡ n
  slice_n = rw drop_32 (take-append n _ 8 hn)

  slice_p : slice 40 72 (layout head id g n p d) ≡ p
  slice_p = rw drop_40 (take-append p d 32 hp)

length-payload_area :
    (g n : ℕ) (p : AnchorPayload) → IsTypedPayload g n p → length (payload_area p) ≡ 32
unfolding payload_area
length-payload_area g n init_payload h = refl
length-payload_area g n (intent_payload i) h = omega (lengths, length-to_be 8 i)
length-payload_area g n (commit_payload k) h = h.0.size

abbrev head_of : AnchorRecord → Bytes
head_of r = magic ++ (to_be 2 anchor_version ++ (tag r.payload ∷ 0 ∷ []))

prefix-layout :
    (r : AnchorRecord) (d : Bytes)
    → record_prefix r ++ d
      ≡ layout
          (head_of r)
          r.book_id
          (to_be 8 r.generation)
          (to_be 8 r.next)
          (payload_area r.payload)
          d
unfolding record_prefix
prefix-layout r d = simp append_assoc

module _ (r : AnchorRecord) (h : IsTypedRecord r) where
  length-area : length (payload_area r.payload) ≡ 32
  length-area = length-payload_area r.generation r.next r.payload h.payload

  length-record_prefix : length (record_prefix r) ≡ prefix_len
  unfolding record_prefix
  length-record_prefix = omega (lengths, length-area, h.book_id.size)

  length-head : length (head_of r) ≡ 8
  length-head = omega lengths

  -- What `decode_and_verify` reads where, with any tail.
  module _ (d : Bytes) where
    at_0 : slice 0 4 (record_prefix r ++ d) ≡ magic
    unfolding record_prefix
    at_0 = refl

    at_4 : from_be (slice 4 6 (record_prefix r ++ d)) ≡ anchor_version
    unfolding record_prefix to_be from_be
    at_4 = refl

    at_6 : byte_at 6 (record_prefix r ++ d) ≡ tag r.payload
    unfolding record_prefix to_be from_be
    at_6 = omega arith

    at_7 : byte_at 7 (record_prefix r ++ d) ≡ 0
    unfolding record_prefix to_be from_be
    at_7 = refl

    at_8 : slice 8 24 (record_prefix r ++ d) ≡ r.book_id
    at_8 = rw (prefix-layout r d) (
        slice_id (head_of r) r.book_id (to_be 8 r.generation) (to_be 8 r.next)
          (payload_area r.payload) d length-head h.book_id.size (length-to_be 8 r.generation)
          (length-to_be 8 r.next) length-area)

    at_24 : from_be (slice 24 32 (record_prefix r ++ d)) ≡ r.generation
    at_24 = rw (prefix-layout r d) (
        ap from_be (
          slice_g (head_of r) r.book_id (to_be 8 r.generation) (to_be 8 r.next)
            (payload_area r.payload) d length-head h.book_id.size (length-to_be 8 r.generation)
            (length-to_be 8 r.next) length-area)
        ∙ from_be-to_be 8 r.generation h.generation)

    at_32 : from_be (slice 32 40 (record_prefix r ++ d)) ≡ r.next
    at_32 = rw (prefix-layout r d) (
        ap from_be (
          slice_n (head_of r) r.book_id (to_be 8 r.generation) (to_be 8 r.next)
            (payload_area r.payload) d length-head h.book_id.size (length-to_be 8 r.generation)
            (length-to_be 8 r.next) length-area)
        ∙ from_be-to_be 8 r.next h.next)

    drop_area : drop 40 (record_prefix r ++ d) ≡ payload_area r.payload ++ d
    drop_area = rw (prefix-layout r d) (
        drop_40 (head_of r) r.book_id (to_be 8 r.generation) (to_be 8 r.next)
          (payload_area r.payload) d length-head h.book_id.size (length-to_be 8 r.generation)
          (length-to_be 8 r.next) length-area)

any_set-replicate : (n : ℕ) → any_set (replicate n 0) ≡ false
unfolding any_set
any_set-replicate zero = refl
any_set-replicate (suc n) = any_set-replicate n

-- The payload is read back from its area.
decode_payload_area-payload_area :
    (g n : ℕ) (p : AnchorPayload) (buf d : Bytes)
    → IsTypedPayload g n p
    → n < u64_limit
    → drop 40 buf ≡ payload_area p ++ d
    → decode_payload_area (tag p) g n buf ≡ ok p
unfolding decode_payload_area payload_area any_set
decode_payload_area-payload_area g n init_payload buf d h lt e =
    let clear : any_set (slice 40 72 buf) ≡ false = rw e refl in ground (arith, clear)
decode_payload_area-payload_area g n (intent_payload i) buf d h lt e =
    let zeros : drop 48 buf ≡ replicate 24 0 ++ d =
      sym (drop-drop 40 8 buf)
      ∙ ap (drop 8) (e ∙ append_assoc (to_be 8 i) (replicate 24 0) d)
      ∙ drop-append (to_be 8 i) _ 8 (length-to_be 8 i) in
    let front : slice 40 48 buf ≡ to_be 8 i = rw e (
      rw (append_assoc (to_be 8 i) (replicate 24 0) d)
        (take-append (to_be 8 i) (replicate 24 0 ++ d) 8 (length-to_be 8 i))) in
    let clear : any_set (slice 48 72 buf) ≡ false = rw zeros refl in
    let reserved : from_be (slice 40 48 buf) ≡ i = rw front (from_be-to_be 8 i (omega arith)) in
    ground (arith, clear, reserved)
decode_payload_area-payload_area g n (commit_payload k) buf d h lt e =
    let whole : slice 40 72 buf ≡ k = rw e (take-append k d 32 h.0.size) in ground (arith, whole)

module _ (sha : Sha256) (r : AnchorRecord) where
  -- A record in the ranges of the Rust types whose payload is canonical reads back from its encoding,
  -- whatever the digest function is. Canonical are an init with the pointer and the generation 0, an
  -- intent whose pointer is the successor of its segment, and a commit whose pointer is not 0.
  pub decode_and_verify-encode_record :
      IsTypedRecord r → decode_and_verify sha (encode_record sha r []) ≡ ok r
  unfolding encode_record encoded decode_and_verify bytes_eq
  decode_and_verify-encode_record h =
      let d = sha.digest (record_prefix r) in
      let size : length (record_prefix r ++ d) ≡ anchor_record_len =
        omega (lengths, length-record_prefix r h, sha.digest-IsArray (record_prefix r)) in
      rw (
        size,
        at_0 r h d,
        at_4 r h d,
        at_7 r h d,
        take-append (record_prefix r) d prefix_len (length-record_prefix r h),
        drop-append (record_prefix r) d prefix_len (length-record_prefix r h),
        (bytes_eq_iff d d).1 refl,
        at_24 r h d,
        at_32 r h d,
        at_6 r h d,
        decode_payload_area-payload_area r.generation r.next r.payload (record_prefix r ++ d) d
            h.payload h.next (drop_area r h d),
        at_8 r h d,
      )
