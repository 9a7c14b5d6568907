-- ===== src/Allocator/Guards.antt =====
-- crates/otp-book/src/allocator.rs, `persist_pair`: what a crash in it leaves for the next start.
use jbuu.Base.{ℕ, ◌+◌, ◌≤◌, ◌<◌, ◌≡◌, ◌∙◌, arith, Bool, u64_limit}
use jbuu.Base.Result.{Result, ok, err}
use jbuu.Base.Actions.{Post, Ends, Ends-at, Ends->>=, Ends-mono, Then}
use jbuu.Base.Bytes.{Bytes, IsArray}
use jbuu.Anchor.{AnchorRecord, IsTypedRecord, intent_of, commit_record}
use jbuu.Anchor.Decide.{AnchorCopy, copy_a, copy_b}
use jbuu.Anchor.Wire.{Sha256, encoded}
use jbuu.Allocator.Interfaces.{MediaError, AnchorMedia, IsDurable}
use jbuu.Allocator.Transaction.{Core, points_a, points_b, persist_copy, persist_pair}
use jbuu.Allocator.Persist.{Persisted, persist_copy-Persisted}

module _ (sha : Sha256) {M : Type 0} (media : AnchorMedia M) (durable : IsDurable media) where
  open durable use {stored}

  -- A copy that stores a record of the Rust types with its pointer at `floor` or above.
  abbrev pub Guard : ℕ → M → AnchorCopy → Type 0
  Guard floor m copy =
      (x : AnchorRecord) × IsTypedRecord x × (stored m copy ≡ encoded sha x) × (floor ≤ x.next)

  abbrev pub BothGuard : ℕ → M → Type 0
  BothGuard floor m = (copy : AnchorCopy) → Guard floor m copy

  abbrev pub OneGuards : ℕ → M → Type 0
  OneGuards floor m = (copy : AnchorCopy) × Guard floor m copy

  Guard-moved :
      (floor : ℕ) (m t : M) (copy : AnchorCopy)
      → stored t copy ≡ stored m copy
      → Guard floor m copy
      → Guard floor t copy
  Guard-moved floor m t copy e (x, typed, h, le) = (x, typed, e ∙ h, le)

  pub BothGuard-moved :
      (floor : ℕ) (m t : M)
      → ((copy : AnchorCopy) → stored t copy ≡ stored m copy)
      → BothGuard floor m
      → BothGuard floor t
  BothGuard-moved floor m t e both copy = Guard-moved floor m t copy (e copy) (both copy)

  module _ (r : AnchorRecord) (typed : IsTypedRecord r) (floor : ℕ) (le : floor ≤ r.next) where
    pub guards : (t : M) → ((copy : AnchorCopy) → stored t copy ≡ encoded sha r) → BothGuard floor t
    guards t h copy = (r, typed, h copy, le)

    abbrev FailGuards : Post M MediaError (Unit {0})
    FailGuards (ok _) t = Unit {0}
    FailGuards (err _) t = OneGuards floor t

    second :
        (u : M)
        → stored u copy_a ≡ encoded sha r
        → (x : Result (Unit {0}) MediaError) (t : M)
        → Persisted media durable sha r copy_b (stored u copy_a) x t
        → FailGuards x t
    second u h (ok _) t _ = tt
    second u h (err _) t same = (copy_a, (r, typed, same ∙ h, le))

    first :
        (intent : Bool) (m : M)
        → BothGuard floor m
        → (x : Result (Unit {0}) MediaError) (t : M)
        → Persisted media durable sha r copy_a (stored m copy_b) x t
        → Then (λ _. persist_copy sha media r copy_b (points_b intent)) FailGuards x t
    first intent m both (ok _) t h =
        Ends-mono (persist_copy sha media r copy_b (points_b intent)) t
          (Persisted media durable sha r copy_b (stored t copy_a)) FailGuards (second t h.0)
          (persist_copy-Persisted media durable sha r copy_b (points_b intent) t)
    first intent m both (err _) t same = (copy_b, Guard-moved floor m t copy_b same (both copy_b))

    persist_pair-FailGuards :
        (intent : Bool) (m : M)
        → BothGuard floor m
        → Ends (persist_pair sha media r intent) m FailGuards
    unfolding persist_pair
    persist_pair-FailGuards intent m both =
        Ends->>= (persist_copy sha media r copy_a (points_a intent)) _ m FailGuards (
          Ends-mono (persist_copy sha media r copy_a (points_a intent)) m
            (Persisted media durable sha r copy_a (stored m copy_b)) (Then _ FailGuards)
            (first intent m both)
            (persist_copy-Persisted media durable sha r copy_a (points_a intent) m))

    -- A pair of writes that fails leaves one copy that guards the floor: the other one may be torn.
    pub persist_pair-OneGuards :
        (intent : Bool) (m : M) {e : MediaError} {t : M}
        → BothGuard floor m
        → persist_pair sha media r intent m ≡ (err e, t)
        → OneGuards floor t
    persist_pair-OneGuards intent m both e =
        Ends-at (persist_pair sha media r intent) m FailGuards e
          (persist_pair-FailGuards intent m both)

module _ (sha : Sha256) {M R : Type 0} (media : AnchorMedia M) (durable : IsDurable media) where
  -- A core whose copies both guard the floor, at or before its pointer.
  pub record IsReady (floor : ℕ) (c : Core M R) : Type 0 where
    pub book_id : IsArray 16 c.book_id
    pub both : BothGuard sha media durable floor c.media
    pub le : floor ≤ c.current.next

  -- What a call that leaves the core live keeps.
  abbrev pub KeepsTyped : Core M R → Core M R → Type 0
  KeepsTyped c c' = IsArray 16 c.book_id → IsArray 16 c'.book_id × IsTypedRecord c'.current

  -- What a call that halts the core leaves on the medium.
  abbrev pub KeepsGuard : Core M R → Core M R → Type 0
  KeepsGuard c c' = (floor : ℕ) → IsReady floor c → OneGuards sha media durable floor c'.media

  pub IsReady-OneGuards : (c : Core M R) → KeepsGuard c c
  IsReady-OneGuards c floor ready = (copy_a, ready.both copy_a)

pub intent_of-IsTypedRecord :
    (book_id : Bytes) (generation n : ℕ)
    → IsArray 16 book_id
    → generation < u64_limit
    → n + 1 < u64_limit
    → IsTypedRecord (intent_of book_id generation n)
intent_of-IsTypedRecord book_id generation n id g h = record {
  book_id = id;
  next = h;
  generation = g;
  payload = omega arith;
}

pub commit_record-IsTypedRecord :
    (sha : Sha256) (book_id : Bytes) (generation next : ℕ) (body : Bytes)
    → IsArray 16 book_id
    → generation < u64_limit
    → next < u64_limit
    → 0 < next
    → IsTypedRecord (commit_record book_id generation next (sha.digest body))
commit_record-IsTypedRecord sha book_id generation next body id g h positive = record {
  book_id = id;
  next = h;
  generation = g;
  payload = (sha.digest-IsArray body, positive);
}
