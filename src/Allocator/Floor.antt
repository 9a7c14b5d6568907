-- ===== src/Allocator/Floor.antt =====
-- crates/otp-book/src/allocator.rs: what the copies guard over a sequence of calls.
use jbuu.Base.{
  ℕ, ◌+◌, ◌≤◌, ◌<◌, ◌≡◌, refl, sym, ap, subst, arith, u64_limit, true, false, Bool-cases, inl, inr,
  List, [], ◌∷◌, ◌++◌, none, some,
}
use jbuu.Base.Result.{Result}
use jbuu.Base.Bytes.{Bytes, IsArray}
use jbuu.Anchor.{AnchorRecord, IsTypedRecord}
use jbuu.Anchor.Decide.{copy_a}
use jbuu.Anchor.Wire.{Sha256}
use jbuu.Allocator.Interfaces.{Stop, AnchorMedia, SegmentReader, IsDurable}
use jbuu.Allocator.Transaction.{Core, ReservedRange}
use jbuu.Allocator.Guards.{OneGuards, IsReady, guards}
use jbuu.Allocator.Issue.{
  BothHold, IssueOutcome, issued, wasted, uncertain, is_exhausted, issue-IssueOutcome,
}
use jbuu.Allocator.Reserve.{
  ReserveOutcome, reserved, range_wasted, range_uncertain, range_invalid, range_exhausted,
  reserve_range-ReserveOutcome,
}
use jbuu.Allocator.OneTime.{
  Call, issue_call, reserve_call, Handed, Handing, handed_issue, handed_range, put, call, run,
  Increasing, halted_stays,
}

-- The end of what has been handed out.
abbrev floor_after : {R : Type 0} → ℕ → Handed R → ℕ
floor_after floor none = floor
floor_after floor (some h) = h.base + h.count

abbrev pub floor_of : {R : Type 0} → ℕ → List (Handing R) → ℕ
floor_of floor [] = floor
floor_of floor (h ∷ hs) = floor_of (h.base + h.count) hs

floor_of-put :
    {R : Type 0} (floor : ℕ) (h : Handed R) (hs : List (Handing R))
    → floor_of floor (put h hs) ≡ floor_of (floor_after floor h) hs
floor_of-put floor none hs = refl
floor_of-put floor (some h) hs = refl

pub Increasing-append :
    {R : Type 0} (reader : SegmentReader R) (floor : ℕ) (hs gs : List (Handing R))
    → Increasing reader floor hs
    → Increasing reader (floor_of floor hs) gs
    → Increasing reader floor (hs ++ gs)
Increasing-append reader floor [] gs h k = k
Increasing-append reader floor (x ∷ hs) gs h k =
    (h.0, h.1, Increasing-append reader (x.base + x.count) hs gs h.2 k)

module _ (sha : Sha256) {M R : Type 0} (media : AnchorMedia M) (reader : SegmentReader R) where
  -- The core after a sequence of calls.
  unfoldable pub run_core : List Call → Core M R → Core M R
  run_core [] c = c
  run_core (x ∷ xs) c = run_core xs (call sha media reader x c).1

module _ (sha : Sha256) {M R : Type 0} (media : AnchorMedia M) (reader : SegmentReader R)
    (durable : IsDurable media) (bound : (s : R) → reader.segment_count s < u64_limit) where
  -- What was handed out lies before the floor, which a copy guards, and both do in a live core.
  pub record IsSafe (floor : ℕ) (c : Core M R) : Type 0 where
    pub one : OneGuards sha media durable floor c.media
    pub live : c.halted ≡ false → IsReady sha media durable floor c

  pub IsReady-IsSafe :
      (floor : ℕ) (c : Core M R) → IsReady sha media durable floor c → IsSafe floor c
  IsReady-IsSafe floor c ready = record { one = (copy_a, ready.both copy_a); live = λ _. ready }

  -- A live core whose record is on both copies.
  held-IsSafe :
      (floor : ℕ) (c : Core M R)
      → floor ≤ c.current.next
      → BothHold sha media reader durable c c.current
      → IsArray 16 c.book_id × IsTypedRecord c.current
      → IsSafe floor c
  held-IsSafe floor c le hold typed = IsReady-IsSafe floor c (record {
    book_id = typed.0;
    both = guards sha media durable c.current typed.1 floor le c.media hold;
    le = le;
  })

  halted-IsSafe :
      (floor : ℕ) (c : Core M R)
      → c.halted ≡ true
      → OneGuards sha media durable floor c.media
      → IsSafe floor c
  halted-IsSafe floor c h one = record { one = one; live = λ live. absurd cc }

  IssueOutcome-IsSafe :
      (floor : ℕ) (c : Core M R) (r : Result Bytes Stop) (c' : Core M R)
      → IsReady sha media durable floor c
      → IssueOutcome sha media reader durable c r c'
      → IsSafe (floor_after floor (handed_issue c r)) c'
  IssueOutcome-IsSafe floor c _ c' ready (issued _ _ e hold _ typed) =
      held-IsSafe (c.current.next + 1) c' (omega (arith, ap (λ (x : AnchorRecord). x.next) e)) hold
        (typed ready.book_id)
  IssueOutcome-IsSafe floor c _ c' ready (wasted _ e hold _ typed) =
      held-IsSafe floor c' (omega (arith, ready.le, ap (λ (x : AnchorRecord). x.next) e)) hold
        (typed ready.book_id)
  IssueOutcome-IsSafe floor c _ c' ready (uncertain h _ kept) =
      halted-IsSafe floor c' h (kept floor ready)
  IssueOutcome-IsSafe floor c _ _ ready (is_exhausted _) = IsReady-IsSafe floor c ready

  ReserveOutcome-IsSafe :
      (floor n : ℕ) (c : Core M R) (r : Result ReservedRange Stop) (c' : Core M R)
      → IsReady sha media durable floor c
      → ReserveOutcome sha media reader durable n c r c'
      → IsSafe (floor_after floor (handed_range n c r)) c'
  ReserveOutcome-IsSafe floor n c _ c' ready (reserved {range = range} _ _ b _ e _ hold _ typed) =
      held-IsSafe (range.base + n) c' (omega (arith, b, e)) hold (typed ready.book_id)
  ReserveOutcome-IsSafe floor n c _ c' ready (range_wasted _ e hold _ typed) =
      held-IsSafe floor c' (omega (arith, ready.le, ap (λ (x : AnchorRecord). x.next) e)) hold
        (typed ready.book_id)
  ReserveOutcome-IsSafe floor n c _ c' ready (range_uncertain h _ kept) =
      halted-IsSafe floor c' h (kept floor ready)
  ReserveOutcome-IsSafe floor n c _ _ ready (range_invalid _) = IsReady-IsSafe floor c ready
  ReserveOutcome-IsSafe floor n c _ _ ready (range_exhausted _) = IsReady-IsSafe floor c ready

  call-IsSafe :
      (x : Call) (floor : ℕ) (c : Core M R)
      → IsSafe floor c
      → (let (h, c') = call sha media reader x c in IsSafe (floor_after floor h) c')
  unfolding call
  call-IsSafe issue_call floor c safe = elim (Bool-cases c.halted) [
    | inl h ↦
        subst
          (λ (p : Result Bytes Stop × Core M R).
            IsSafe (floor_after floor (handed_issue c p.0)) p.1)
          (sym (halted_stays sha media reader c 0 h).0) safe
    | inr live ↦
        IssueOutcome-IsSafe floor c _ _ (safe.live live)
          (issue-IssueOutcome sha media reader durable c (bound c.reader) live)
  ]
  call-IsSafe (reserve_call n) floor c safe = elim (Bool-cases c.halted) [
    | inl h ↦
        subst
          (λ (p : Result ReservedRange Stop × Core M R).
            IsSafe (floor_after floor (handed_range n c p.0)) p.1)
          (sym (halted_stays sha media reader c n h).1) safe
    | inr live ↦
        ReserveOutcome-IsSafe floor n c _ _ (safe.live live)
          (reserve_range-ReserveOutcome sha media reader durable n c (bound c.reader) live)
  ]

  pub run-IsSafe :
      (xs : List Call) (floor : ℕ) (c : Core M R)
      → IsSafe floor c
      → IsSafe (floor_of floor (run sha media reader xs c)) (run_core sha media reader xs c)
  unfolding run run_core
  run-IsSafe [] floor c safe = safe
  run-IsSafe (x ∷ xs) floor c safe =
      let w = call sha media reader x c in
      subst (λ (k : ℕ). IsSafe k (run_core sha media reader xs w.1))
        (sym (floor_of-put floor w.0 (run sha media reader xs w.1)))
        (run-IsSafe xs (floor_after floor w.0) w.1 (call-IsSafe x floor c safe))
