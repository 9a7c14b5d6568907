-- ===== src/Allocator/OneTime.antt =====
-- crates/otp-book/src/allocator.rs: the promise of the allocator over any sequence of calls, that
-- no segment is handed out twice.
use jbuu.Base.{
  append-nil, ℕ, ◌+◌, ◌≤◌, ◌<◌, ◌≡◌, refl, sym, subst, arith, ap, u64_limit, true, Bool-cases, inl,
  inr, List, [], ◌∷◌, Option, none, some,
}
use jbuu.Base.Result.{Result, ok, err}
use jbuu.Base.Actions.{raise_if-true}
use jbuu.Base.Bytes.{Bytes}
use jbuu.Anchor.{AnchorRecord}
use jbuu.Anchor.Wire.{Sha256}
use jbuu.Allocator.Interfaces.{
  persistence_uncertain, Stop, failed, AnchorMedia, SegmentReader, IsDurable, Reads,
}
use jbuu.Allocator.Transaction.{Core, ReservedRange, issue, reserve_range}
use jbuu.Allocator.Issue.{IssueOutcome, issued, wasted, uncertain, is_exhausted, issue-IssueOutcome}
use jbuu.Allocator.Reserve.{
  ReserveOutcome, reserved, range_wasted, range_uncertain, range_invalid, range_exhausted,
  reserve_range-ReserveOutcome,
}

module _ (sha : Sha256) {M R : Type 0} (media : AnchorMedia M) (reader : SegmentReader R) where
  -- A core that has halted answers every call with the same error and does nothing.
  pub halted_stays :
      (c : Core M R) (n : ℕ)
      → c.halted ≡ true
      → (issue sha media reader c ≡ (err (failed persistence_uncertain), c))
        × (reserve_range sha media reader n c ≡ (err (failed persistence_uncertain), c))
  unfolding issue reserve_range
  halted_stays c n h = (raise_if-true c.halted _ _ c h, raise_if-true c.halted _ _ c h)

-- The calls of a client.
pub data Call : Type 0 where
  issue_call : Call
  reserve_call : ℕ → Call

-- What an answer hands out: the bytes, the number of the first segment and how many there are, and the
-- reader that the call has found.
pub record Handing (R : Type 0) : Type 0 where
  pub base : ℕ
  pub count : ℕ
  pub bytes : Bytes
  pub source : R

abbrev pub Handed : Type 0 → Type 0
Handed R = Option (Handing R)

module _ {M R : Type 0} where
  abbrev pub handed_range : ℕ → Core M R → Result ReservedRange Stop → Handed R
  handed_range n c (ok range) =
      some (record { base = range.base; count = n; bytes = range.bytes; source = c.reader })
  handed_range n c (err _) = none

  abbrev pub handed_issue : Core M R → Result Bytes Stop → Handed R
  handed_issue c (ok body) =
      some (record { base = c.current.next; count = 1; bytes = body; source = c.reader })
  handed_issue c (err _) = none

abbrev pub put : {R : Type 0} → Handed R → List (Handing R) → List (Handing R)
put none hs = hs
put (some h) hs = h ∷ hs

module _ {R : Type 0} (reader : SegmentReader R) where
  -- The bytes handed out are those of the segments that the reader has answered, in their order.
  abbrev pub IsRead : Handing R → Type 0
  IsRead h = Reads reader h.count h.source h.base h.bytes

  -- What is handed out is exactly what the pointer passes over; it never goes back.
  abbrev Moves : {M : Type 0} → Core M R → Handed R → Core M R → Type 0
  Moves c none c' = c.current.next ≤ c'.current.next
  Moves c (some h) c' = (h.base ≡ c.current.next) × IsRead h × (c'.current.next ≡ h.base + h.count)

module _ (sha : Sha256) {M R : Type 0} (media : AnchorMedia M) (reader : SegmentReader R) where
  unfoldable pub call : Call → Core M R → Handed R × Core M R
  call issue_call c = let (r, c') = issue sha media reader c in (handed_issue c r, c')
  call (reserve_call n) c =
      let (r, c') = reserve_range sha media reader n c in (handed_range n c r, c')

  -- What a sequence of calls hands out.
  unfoldable pub run : List Call → Core M R → List (Handing R)
  run [] c = []
  run (x ∷ xs) c = let (h, c') = call x c in put h (run xs c')

module _ {R : Type 0} (reader : SegmentReader R) where
  -- Ranges that start at `start` or later, each behind the one before, with the bytes of exactly the
  -- segments in them.
  abbrev pub Increasing : ℕ → List (Handing R) → Type 0
  Increasing start [] = Unit {0}
  Increasing start (h ∷ hs) = (start ≤ h.base) × IsRead reader h × Increasing (h.base + h.count) hs

  pub Increasing-le : {m n : ℕ} (hs : List (Handing R)) → m ≤ n → Increasing n hs → Increasing m hs
  Increasing-le [] le h = tt
  Increasing-le (k ∷ hs) le h = (omega (arith, h.0), h.1, h.2)

module _ (sha : Sha256) {M R : Type 0} (media : AnchorMedia M) (reader : SegmentReader R)
    (durable : IsDurable media) (bound : (s : R) → reader.segment_count s < u64_limit) where
  IssueOutcome-Moves :
      (c : Core M R) (r : Result Bytes Stop) (c' : Core M R)
      → IssueOutcome sha media reader durable c r c'
      → Moves reader c (handed_issue c r) c'
  IssueOutcome-Moves c _ c' (issued {body = body} _ read e _ _ _) =
      (refl, (body, _, [], read, sym (append-nil body), refl), ap (λ (x : AnchorRecord). x.next) e)
  IssueOutcome-Moves c _ c' (wasted _ e _ _ _) = omega (arith, ap (λ (x : AnchorRecord). x.next) e)
  IssueOutcome-Moves c _ c' (uncertain _ (inl e) _) =
      omega (arith, ap (λ (x : AnchorRecord). x.next) e)
  IssueOutcome-Moves c _ c' (uncertain _ (inr e) _) =
      omega (arith, ap (λ (x : AnchorRecord). x.next) e)
  IssueOutcome-Moves c _ _ (is_exhausted _) = omega arith

  ReserveOutcome-Moves :
      (n : ℕ) (c : Core M R) (r : Result ReservedRange Stop) (c' : Core M R)
      → ReserveOutcome sha media reader durable n c r c'
      → Moves reader c (handed_range n c r) c'
  ReserveOutcome-Moves n c _ c' (reserved {range = range} _ _ b reads e _ _ _ _) =
      (b, subst (λ (x : ℕ). Reads reader n c.reader x range.bytes) (sym b) reads, omega arith)
  ReserveOutcome-Moves n c _ c' (range_wasted _ e _ _ _) =
      omega (arith, ap (λ (x : AnchorRecord). x.next) e)
  ReserveOutcome-Moves n c _ c' (range_uncertain _ (inl e) _) =
      omega (arith, ap (λ (x : AnchorRecord). x.next) e)
  ReserveOutcome-Moves n c _ c' (range_uncertain _ (inr e) _) = omega arith
  ReserveOutcome-Moves n c _ _ (range_invalid _) = omega arith
  ReserveOutcome-Moves n c _ _ (range_exhausted _) = omega arith

  call-Moves :
      (x : Call) (c : Core M R) → (let (h, c') = call sha media reader x c in Moves reader c h c')
  unfolding call
  call-Moves issue_call c = elim (Bool-cases c.halted) [
    | inl h ↦
        let same : c.current.next ≤ c.current.next = omega arith in
        subst (λ (p : Result Bytes Stop × Core M R). Moves reader c (handed_issue c p.0) p.1)
          (sym (halted_stays sha media reader c 0 h).0) same
    | inr live ↦
        IssueOutcome-Moves c _ _
          (issue-IssueOutcome sha media reader durable c (bound c.reader) live)
  ]
  call-Moves (reserve_call n) c = elim (Bool-cases c.halted) [
    | inl h ↦
        let same : c.current.next ≤ c.current.next = omega arith in
        subst
          (λ (p : Result ReservedRange Stop × Core M R). Moves reader c (handed_range n c p.0) p.1)
          (sym (halted_stays sha media reader c n h).1) same
    | inr live ↦
        ReserveOutcome-Moves n c _ _
          (reserve_range-ReserveOutcome sha media reader durable n c (bound c.reader) live)
  ]

  -- On a durable medium and where the number of segments is a u64, what any sequence of calls hands
  -- out starts at the pointer or later, each range starts behind the one before, and the bytes of each
  -- are those that the reader answers for exactly the segments of the range, in their order: no
  -- segment is handed out twice, whatever fails in between.
  pub run-Increasing :
      (xs : List Call) (c : Core M R) → Increasing reader c.current.next (run sha media reader xs c)
  unfolding run
  run-Increasing [] c = tt
  run-Increasing (x ∷ xs) c =
      let w = call sha media reader x c in hand w.0 w.1 (call-Moves x c) (run-Increasing xs w.1)
    where
      hand :
          (h : Handed R) (c' : Core M R)
          → Moves reader c h c'
          → Increasing reader c'.current.next (run sha media reader xs c')
          → Increasing reader c.current.next (put h (run sha media reader xs c'))
      hand none c' le rest = Increasing-le reader _ le rest
      hand (some h) c' (b, reads, e) rest = (
        omega arith,
        reads,
        subst (λ (k : ℕ). Increasing reader k (run sha media reader xs c')) e rest,
      )
