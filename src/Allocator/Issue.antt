-- ===== src/Allocator/Issue.antt =====
-- crates/otp-book/src/allocator.rs, `issue`: everything that a call can leave behind.
use jbuu.Base.{
  ◌+◌, ◌≤◌, ◌<◌, ◌≡◌, ◌≢◌, refl, ◌∙◌, arith, u64_limit, true, false, ◌⊎◌, inl, inr, leb, leb→le,
  leb_false→lt,
}
use jbuu.Base.Result.{Result, ok, err}
use jbuu.Base.State.{◌>>◌, modify, pure}
use jbuu.Base.Actions.{Ends, Ends-at, Ends-raise_if}
use jbuu.Base.Bytes.{Bytes, IsArray}
use jbuu.Anchor.{AnchorRecord, IsTypedRecord, commit_record, intent_of}
use jbuu.Anchor.Decide.{AnchorCopy}
use jbuu.Anchor.Wire.{Sha256, encoded}
use jbuu.Allocator.Interfaces.{
  panicked, exhausted, persistence_uncertain, io, Stop, failed, segment_pread, AnchorMedia,
  SegmentReader, IsDurable,
}
use jbuu.Allocator.Transaction.{Core, persist_pair, persist, spend, issue, halt, stay, set_current}
use jbuu.Allocator.Guards.{
  persist_pair-OneGuards, guards, KeepsTyped, KeepsGuard, IsReady-OneGuards,
  intent_of-IsTypedRecord, commit_record-IsTypedRecord,
}
use jbuu.Allocator.Persist.{boundary_keeps, persist_pair-stored}
use jbuu.Allocator.Steps.{
  Ends-on_media, Ends-on_reader, Ends-next_generation, Ends-intent, Ends-segment_next,
}

module _ (sha : Sha256) {M R : Type 0} (media : AnchorMedia M) (reader : SegmentReader R)
    (durable : IsDurable media) where
  -- What both copies of the core hold after a crash.
  abbrev pub BothHold : Core M R → AnchorRecord → Type 0
  BothHold c r = (copy : AnchorCopy) → durable.stored c.media copy ≡ encoded sha r

  -- The intent of the next segment.
  abbrev pub next_intent : Core M R → AnchorRecord
  next_intent c = intent_of c.book_id (c.current.generation + 1) c.current.next

  -- The ends of a call on `c` that is not halted: the answer and the core that it leaves.
  pub data IssueOutcome (c : Core M R) : Result Bytes Stop → Core M R → Type 0 where
    issued :
        {body : Bytes} {c' : Core M R}
        → c.current.next < reader.segment_count c.reader
        → reader.read c.current.next c.reader ≡ (ok body, c'.reader)
        → c'.current
          ≡ commit_record c.book_id
              (c.current.generation + 1)
              (c.current.next + 1)
              (sha.digest body)
        → BothHold c' c'.current
        → c'.halted ≡ false
        → KeepsTyped sha media durable c c'
        → IssueOutcome c (ok body) c'
    wasted :
        {c' : Core M R}
        → c.current.next < reader.segment_count c.reader
        → c'.current ≡ next_intent c
        → BothHold c' c'.current
        → c'.halted ≡ false
        → KeepsTyped sha media durable c c'
        → IssueOutcome c (err (failed io)) c'
    uncertain :
        {c' : Core M R}
        → c'.halted ≡ true
        → (c'.current ≡ c.current) ⊎ (c'.current ≡ next_intent c)
        → KeepsGuard sha media durable c c'
        → IssueOutcome c (err (failed persistence_uncertain)) c'
    is_exhausted :
        reader.segment_count c.reader ≤ c.current.next
        → IssueOutcome c (err (failed (exhausted c.current.next))) c

  -- The call behind its guards, with the number of the segment in range.
  module _ (c : Core M R) (next : c.current.next < reader.segment_count c.reader)
      (bound : reader.segment_count c.reader < u64_limit) (live : c.halted ≡ false)
      (fits : c.current.generation + 1 < u64_limit) where
    abbrev Committed : Bytes → AnchorRecord
    Committed body =
        commit_record c.book_id (c.current.generation + 1) (c.current.next + 1) (sha.digest body)

    typed_intent : IsArray 16 c.book_id → IsTypedRecord (next_intent c)
    typed_intent id = intent_of-IsTypedRecord c.book_id _ c.current.next id fits (omega arith)

    typed_commit : (body : Bytes) → IsArray 16 c.book_id → IsTypedRecord (Committed body)
    typed_commit body id =
        commit_record-IsTypedRecord sha c.book_id _ (c.current.next + 1) body id fits (omega arith)
          (omega arith)

    -- After the segment has been read.
    commit-IssueOutcome :
        (body : Bytes) (m : M) (s : R)
        → ((copy : AnchorCopy) → durable.stored m copy ≡ encoded sha (next_intent c))
        → reader.read c.current.next c.reader ≡ (ok body, s)
        → Ends
            (persist sha media reader (Committed body) false
              >> (modify (set_current (Committed body)) >> pure body))
            (record c { current = next_intent c; media = m; reader = s })
            (IssueOutcome c)
    commit-IssueOutcome body m s hold e =
        Ends-on_media (persist_pair sha media (Committed body) false) _ halt _ _ (IssueOutcome c)
          (λ _ t written.
            issued next e refl
              (persist_pair-stored media durable sha (Committed body) false m written) live
              (λ id. (id, typed_commit body id)))
          (λ _ t fails. uncertain refl (inr refl) (λ floor ready.
            persist_pair-OneGuards sha media durable (Committed body)
              (typed_commit body ready.book_id) floor (omega (arith, ready.le)) false m
              (guards sha media durable (next_intent c) (typed_intent ready.book_id) floor
                (omega (arith, ready.le)) m hold)
              fails))

    spend-IssueOutcome :
        Ends (spend sha media reader c (c.current.generation + 1)) c (IssueOutcome c)
    unfolding spend
    spend-IssueOutcome =
        let Q = IssueOutcome c in
        let intent = next_intent c in
        Ends-intent c.book_id _ c.current.next _ c Q (omega arith) (
          Ends-on_media (persist_pair sha media intent true) _ halt _ _ Q
            (λ _ m written.
              let hold = persist_pair-stored media durable sha intent true c.media written in
              Ends-on_media (media.boundary segment_pread) _ stay _ _ Q
                (λ _ m2 passed.
                  Ends-on_reader (reader.read c.current.next) _ stay _ _ Q
                    (λ body s e. Ends-segment_next c.current.next _ _ Q (omega arith) (
                      commit-IssueOutcome body m2 s
                        (λ copy. (boundary_keeps media durable _ m m2 _ copy passed).0 ∙ hold copy)
                        e))
                    (λ _ s e.
                      wasted next refl
                        (λ copy. (boundary_keeps media durable _ m m2 _ copy passed).0 ∙ hold copy)
                        live (λ id. (id, typed_intent id))))
                (λ _ m2 fails.
                  wasted next refl
                    (λ copy. (boundary_keeps media durable _ m m2 _ copy fails).0 ∙ hold copy) live
                    (λ id. (id, typed_intent id))))
            (λ _ m fails. uncertain refl (inr refl) (λ floor ready.
              persist_pair-OneGuards sha media durable intent (typed_intent ready.book_id) floor
                (omega (arith, ready.le)) true c.media ready.both fails)))

  pub issue-IssueOutcome :
      (c : Core M R)
      → reader.segment_count c.reader < u64_limit
      → c.halted ≡ false
      → Ends (issue sha media reader) c (IssueOutcome c)
  unfolding issue
  issue-IssueOutcome c bound live =
      let Q = IssueOutcome c in
      Ends-raise_if c.halted (failed persistence_uncertain) _ c Q (λ h. absurd cc)
        (λ _.
          Ends-raise_if (leb (reader.segment_count c.reader) c.current.next)
            (failed (exhausted c.current.next)) _ c Q (λ h. is_exhausted (leb→le _ _ h))
            (λ h.
              Ends-next_generation _ c Q
                (uncertain refl (inl refl) (IsReady-OneGuards sha media durable c))
                (λ fits. spend-IssueOutcome c (leb_false→lt h) bound live fits)))

  -- A call on a live core that answers a segment, on a durable medium and where the number of segments
  -- is a u64, has read it at the pointer, inside the book, has left the pointer on the next segment,
  -- and both copies hold the commit that binds its digest.
  pub issue_commits :
      (c c' : Core M R) (body : Bytes)
      → reader.segment_count c.reader < u64_limit
      → c.halted ≡ false
      → issue sha media reader c ≡ (ok body, c')
      → (c.current.next < reader.segment_count c.reader)
        × (reader.read c.current.next c.reader ≡ (ok body, c'.reader))
        × (c'.current
            ≡ commit_record c.book_id
                (c.current.generation + 1)
                (c.current.next + 1)
                (sha.digest body))
        × BothHold c' c'.current
  issue_commits c c' body bound live e =
      split
        (Ends-at (issue sha media reader) c (IssueOutcome c) e (issue-IssueOutcome c bound live))
    where
      split :
          IssueOutcome c (ok body) c'
          → (c.current.next < reader.segment_count c.reader)
            × (reader.read c.current.next c.reader ≡ (ok body, c'.reader))
            × (c'.current
                ≡ commit_record c.book_id
                    (c.current.generation + 1)
                    (c.current.next + 1)
                    (sha.digest body))
            × BothHold c' c'.current
      split (issued inside read commit hold _ _) = (inside, read, commit, hold)

  -- A call on a live core that fails, on a durable medium and where the number of segments is a u64,
  -- does not panic; with `Io` the segment at the pointer is spent, since both copies hold the intent,
  -- whose pointer is the next segment, and the core is live; with `PersistenceUncertain` it halts.
  pub issue_wastes :
      (c c' : Core M R) (stop : Stop)
      → reader.segment_count c.reader < u64_limit
      → c.halted ≡ false
      → issue sha media reader c ≡ (err stop, c')
      → (stop ≢ panicked)
        × (stop ≡ failed io
            → (c'.current ≡ next_intent c) × BothHold c' c'.current × (c'.halted ≡ false))
        × (stop ≡ failed persistence_uncertain → c'.halted ≡ true)
  issue_wastes c c' stop bound live e =
      split c'
        (Ends-at (issue sha media reader) c (IssueOutcome c) e (issue-IssueOutcome c bound live))
    where
      split :
          {stop : Stop} (d : Core M R)
          → IssueOutcome c (err stop) d
          → (stop ≢ panicked)
            × (stop ≡ failed io
                → (d.current ≡ next_intent c) × BothHold d d.current × (d.halted ≡ false))
            × (stop ≡ failed persistence_uncertain → d.halted ≡ true)
      split d (wasted _ i hold live _) = ((λ h. cc), (λ _. (i, hold, live)), (λ h. absurd cc))
      split d (uncertain h _ _) = ((λ h. cc), (λ h. absurd cc), (λ _. h))
      split _ (is_exhausted _) = ((λ h. cc), (λ h. absurd cc), (λ h. absurd cc))
