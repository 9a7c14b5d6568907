-- ===== src/Allocator/Reserve.antt =====
-- crates/otp-book/src/allocator.rs, `reserve_range`: everything that a call can leave behind.
use jbuu.Base.{
  append-nil, append_assoc, ℕ, zero, suc, ◌+◌, ◌-◌, ◌≤◌, ◌<◌, ◌≡◌, refl, sym, subst, ◌∙◌, arith,
  u64_limit, true, false, ◌⊎◌, inl, inr, ltb, ◌==◌, [], ◌++◌, checked_add, checked_add-eq-some,
  drop, length,
}
use jbuu.Base.Result.{Result, ok, err}
use jbuu.Base.State.{Action, ◌>>=◌, ◌>>◌, modify, pure, raise_if}
use jbuu.Base.Actions.{Ends, Ends-mono, Ends->>=, Then, Ends-raise_if, Ends-or_raise}
use jbuu.Base.Bytes.{Bytes, IsArray}
use jbuu.Types.{segment_len}
use jbuu.Anchor.{AnchorRecord, IsTypedRecord, commit_record, intent_of}
use jbuu.Anchor.Wire.{Sha256}
use jbuu.Allocator.Interfaces.{
  exhausted, invalid_range, persistence_uncertain, io, Stop, failed, segment_pread, AnchorMedia,
  SegmentReader, IsDurable, Reads,
}
use jbuu.Allocator.Transaction.{
  Core, ReservedRange, persist_pair, persist, read_range, spend_range, reserve_range, halt, stay,
  set_current, next_generation,
}
use jbuu.Allocator.Guards.{
  persist_pair-OneGuards, guards, KeepsTyped, KeepsGuard, IsReady-OneGuards,
  intent_of-IsTypedRecord, commit_record-IsTypedRecord,
}
use jbuu.Allocator.Persist.{boundary_keeps, persist_pair-stored}
use jbuu.Allocator.Steps.{Ends-on_media, Ends-on_reader, Ends-next_generation, Ends-intent}
use jbuu.Allocator.Issue.{BothHold}

module _ (sha : Sha256) {M R : Type 0} (media : AnchorMedia M) (reader : SegmentReader R) where
  -- The read loop changes only the reader, and fails only with `Io`; if it succeeds, it adds to `front`
  -- the segments from `index` on.
  data ReadOutcome (c : Core M R) (n index : ℕ) (front : Bytes) (s : R)
      : Result Bytes Stop → Core M R → Type 0 where
    all_read :
        {bytes : Bytes} {t : R} (more : Bytes)
        → bytes ≡ front ++ more
        → Reads reader n s index more
        → ReadOutcome c n index front s (ok bytes) (record c { reader = t })
    read_failed :
        {t : R} → ReadOutcome c n index front s (err (failed io)) (record c { reader = t })

  one_more :
      (c : Core M R) (n index : ℕ) (front body : Bytes) (s t : R) (r : Result Bytes Stop)
      (d : Core M R)
      → reader.read index s ≡ (ok body, t)
      → ReadOutcome c n (index + 1) (front ++ body) t r d
      → ReadOutcome c (suc n) index front s r d
  one_more c n index front body s t (ok _) d e (all_read more joined reads) =
      all_read (body ++ more) (joined ∙ append_assoc front body more)
        (body, t, more, e, refl, reads)
  one_more c n index front body s t (err _) d e read_failed = read_failed

  read_range-ReadOutcome :
      (n index : ℕ) (bytes : Bytes) (c : Core M R) (s : R)
      → Ends
          (read_range sha media reader n index bytes)
          (record c { reader = s })
          (ReadOutcome c n index bytes s)
  unfolding read_range
  read_range-ReadOutcome zero index bytes c s = all_read [] (sym (append-nil bytes)) refl
  read_range-ReadOutcome (suc n) index bytes c s =
      Ends-on_reader (reader.read index) _ stay _ (record c { reader = s })
        (ReadOutcome c (suc n) index bytes s)
        (λ body t e.
          one_more c n index bytes body s t _ _ e
            (read_range-ReadOutcome n (index + 1) (bytes ++ body) c t))
        (λ x t _. read_failed)

module _ (sha : Sha256) {M R : Type 0} (media : AnchorMedia M) (reader : SegmentReader R)
    (durable : IsDurable media) (n : ℕ) where
  -- The ends of a call on `c` that is not halted: the answer and the core that it leaves.
  pub data ReserveOutcome (c : Core M R) : Result ReservedRange Stop → Core M R → Type 0 where
    reserved :
        {range : ReservedRange} {c' : Core M R}
        → 0 < n
        → c.current.next + n ≤ reader.segment_count c.reader
        → range.base ≡ c.current.next
        → Reads reader n c.reader c.current.next range.bytes
        → c'.current.next ≡ c.current.next + n
        → c'.current.generation ≡ c.current.generation + 1
        → BothHold sha media reader durable c' c'.current
        → c'.halted ≡ false
        → KeepsTyped sha media durable c c'
        → ReserveOutcome c (ok range) c'
    range_wasted :
        {c' : Core M R}
        → 0 < n
        → c'.current ≡ intent_of c.book_id (c.current.generation + 1) (c.current.next + n - 1)
        → BothHold sha media reader durable c' c'.current
        → c'.halted ≡ false
        → KeepsTyped sha media durable c c'
        → ReserveOutcome c (err (failed io)) c'
    range_uncertain :
        {c' : Core M R}
        → c'.halted ≡ true
        → (c'.current ≡ c.current) ⊎ (c'.current.next ≡ c.current.next + n)
        → KeepsGuard sha media durable c c'
        → ReserveOutcome c (err (failed persistence_uncertain)) c'
    range_invalid :
        (n ≡ 0) ⊎ (u64_limit ≤ c.current.next + n) → ReserveOutcome c (err (failed invalid_range)) c
    range_exhausted :
        reader.segment_count c.reader < c.current.next + n
        → ReserveOutcome c (err (failed (exhausted c.current.next))) c

  -- The call behind its guards, with the range inside the book.
  module _ (c : Core M R) (some_segments : 0 < n)
      (inside : c.current.next + n ≤ reader.segment_count c.reader)
      (bound : reader.segment_count c.reader < u64_limit) (live : c.halted ≡ false)
      (fits : c.current.generation + 1 < u64_limit) where
    abbrev range_intent : AnchorRecord
    range_intent = intent_of c.book_id (c.current.generation + 1) (c.current.next + n - 1)

    intent-next : range_intent.next ≡ c.current.next + n
    intent-next = omega arith

    abbrev range_commit : Bytes → AnchorRecord
    range_commit bytes =
        commit_record c.book_id (c.current.generation + 1) (c.current.next + n)
          (sha.digest (drop (length bytes - segment_len) bytes))

    -- What follows the reads.
    abbrev commit_range : Bytes → Action (Core M R) Stop ReservedRange
    commit_range bytes =
        persist sha media reader (range_commit bytes) false
        >> (modify (set_current (range_commit bytes))
            >> pure (record { base = c.current.next; bytes = bytes }))

    abbrev spent : M → Core M R
    spent m = record c { current = range_intent; media = m }

    typed_intent : IsArray 16 c.book_id → IsTypedRecord range_intent
    typed_intent id =
        intent_of-IsTypedRecord c.book_id _ (c.current.next + n - 1) id fits (omega arith)

    typed_commit : (bytes : Bytes) → IsArray 16 c.book_id → IsTypedRecord (range_commit bytes)
    typed_commit bytes id =
        commit_record-IsTypedRecord sha c.book_id _ (c.current.next + n) _ id fits (omega arith)
          (omega arith)

    after_reads :
        (m : M)
        → BothHold sha media reader durable (spent m) range_intent
        → (x : Result Bytes Stop) (t : Core M R)
        → ReadOutcome sha media reader (spent m) n c.current.next [] c.reader x t
        → Then commit_range (ReserveOutcome c) x t
    after_reads m hold (ok bytes) _ (all_read {t = s} more joined reads) =
        Ends-on_media (persist_pair sha media (range_commit bytes) false) _ halt _
          (record (spent m) { reader = s }) (ReserveOutcome c)
          (λ _ u written.
            reserved some_segments inside refl
              (subst (Reads reader n c.reader c.current.next) (sym joined) reads) refl refl
              (persist_pair-stored media durable sha (range_commit bytes) false m written) live
              (λ id. (id, typed_commit bytes id)))
          (λ _ u fails. range_uncertain refl (inr intent-next) (λ floor ready.
            persist_pair-OneGuards sha media durable (range_commit bytes)
              (typed_commit bytes ready.book_id) floor (omega (arith, ready.le)) false m
              (guards sha media durable range_intent (typed_intent ready.book_id) floor
                (omega (arith, ready.le, intent-next)) m hold)
              fails))
    after_reads m hold (err _) _ read_failed =
        range_wasted some_segments refl hold live (λ id. (id, typed_intent id))

    spend_range-ReserveOutcome :
        Ends
          (spend_range sha media reader c n (c.current.next + n) (c.current.generation + 1))
          c
          (ReserveOutcome c)
    unfolding spend_range
    spend_range-ReserveOutcome =
        let Q = ReserveOutcome c in
        Ends-intent c.book_id _ (c.current.next + n - 1) _ c Q (omega arith) (
          Ends-on_media (persist_pair sha media range_intent true) _ halt _ _ Q
            (λ _ m written.
              let hold = persist_pair-stored media durable sha range_intent true c.media written in
              Ends-on_media (media.boundary segment_pread) _ stay _ _ Q
                (λ _ m2 passed.
                  Ends->>= (read_range sha media reader n c.current.next []) commit_range (spent m2)
                    Q
                    (Ends-mono (read_range sha media reader n c.current.next []) (spent m2)
                      (ReadOutcome sha media reader (spent m2) n c.current.next [] c.reader)
                      (Then commit_range Q)
                      (after_reads m2
                        (λ copy. (boundary_keeps media durable _ m m2 _ copy passed).0 ∙ hold copy))
                      (read_range-ReadOutcome sha media reader n c.current.next [] (spent m2)
                        c.reader)))
                (λ _ m2 fails.
                  range_wasted some_segments refl
                    (λ copy. (boundary_keeps media durable _ m m2 _ copy fails).0 ∙ hold copy) live
                    (λ id. (id, typed_intent id))))
            (λ _ m fails. range_uncertain refl (inr intent-next) (λ floor ready.
              persist_pair-OneGuards sha media durable range_intent (typed_intent ready.book_id)
                floor (omega (arith, ready.le, intent-next)) true c.media ready.both fails)))

  -- The guards behind the sum.
  abbrev in_book : Core M R → ℕ → Action (Core M R) Stop ReservedRange
  in_book c new_next =
      raise_if (ltb (reader.segment_count c.reader) new_next) (failed (exhausted c.current.next))
      >> (next_generation c >>= spend_range sha media reader c n new_next)

  in_book-ReserveOutcome :
      (c : Core M R)
      → 0 < n
      → reader.segment_count c.reader < u64_limit
      → c.halted ≡ false
      → Ends (in_book c (c.current.next + n)) c (ReserveOutcome c)
  in_book-ReserveOutcome c some_segments bound live =
      let Q = ReserveOutcome c in
      Ends-raise_if (ltb (reader.segment_count c.reader) (c.current.next + n)) _ _ c Q
        (λ h. range_exhausted (ground arith))
        (λ h.
          Ends-next_generation _ c Q
            (range_uncertain refl (inl refl) (IsReady-OneGuards sha media durable c))
            (λ fits. spend_range-ReserveOutcome c some_segments (ground arith) bound live fits))

  pub reserve_range-ReserveOutcome :
      (c : Core M R)
      → reader.segment_count c.reader < u64_limit
      → c.halted ≡ false
      → Ends (reserve_range sha media reader n) c (ReserveOutcome c)
  unfolding reserve_range
  reserve_range-ReserveOutcome c bound live =
      let Q = ReserveOutcome c in
      Ends-raise_if c.halted _ _ c Q (λ h. absurd cc)
        (λ _.
          Ends-raise_if (n == 0) _ _ c Q (λ h. range_invalid (inl (ground arith)))
            (λ positive.
              Ends-or_raise (checked_add c.current.next n) _ _ c Q
                (λ h. range_invalid (inr (ground arith)))
                (λ v h.
                  subst (λ (u : ℕ). Ends (in_book c u) c Q)
                    (sym (checked_add-eq-some c.current.next n h).0)
                    (in_book-ReserveOutcome c (ground arith) bound live))))
