-- ===== src/Allocator/Transaction.antt =====
-- crates/otp-book/src/allocator.rs: `persist_pair`, `issue` and `reserve_range`.
use jbuu.Base.{
  ℕ, zero, suc, ◌+◌, ◌-◌, Bool, true, false, ◌==◌, leb, ltb, [], ◌++◌, drop, length, checked_add,
}
use jbuu.Base.State.{Action, pure, or_raise, on_error, ◌>>=◌, ◌>>◌, raise_if, get, modify}
use jbuu.Base.Bytes.{Bytes}
use jbuu.Types.{segment_next, segment_len}
use jbuu.Anchor.{AnchorRecord, intent_record, commit_record}
use jbuu.Anchor.Decide.{AnchorCopy, copy_a, copy_b}
use jbuu.Anchor.Wire.{Sha256, encode_record}
use jbuu.Allocator.Interfaces.{
  exhausted, persistence_uncertain, io, invalid_range, Stop, failed, panicked, MediaError, Boundary,
  intent_a_write_start, intent_a_write_complete, intent_a_fsync_start, intent_a_fsync_return,
  intent_b_write_start, intent_b_write_complete, intent_b_fsync_start, intent_b_fsync_return,
  segment_pread, final_a_write_start, final_a_write_complete, final_a_fsync_start,
  final_a_fsync_return, final_b_write_start, final_b_write_complete, final_b_fsync_start,
  final_b_fsync_return, AnchorMedia, SegmentReader,
}

-- `TransactionCore`
pub record Core (M R : Type 0) : Type 0 where
  pub media : M
  pub reader : R
  pub book_id : Bytes
  pub current : AnchorRecord
  pub halted : Bool

-- `ReservedRange`
pub record ReservedRange : Type 0 where
  pub base : ℕ
  pub bytes : Bytes

-- The four boundaries around one copy: before and after its write, before and after its fsync.
abbrev pub Points : Type 0
Points = Boundary × Boundary × Boundary × Boundary

abbrev pub points_a : Bool → Points
points_a true =
    (intent_a_write_start, intent_a_write_complete, intent_a_fsync_start, intent_a_fsync_return)
points_a false =
    (final_a_write_start, final_a_write_complete, final_a_fsync_start, final_a_fsync_return)

abbrev pub points_b : Bool → Points
points_b true =
    (intent_b_write_start, intent_b_write_complete, intent_b_fsync_start, intent_b_fsync_return)
points_b false =
    (final_b_write_start, final_b_write_complete, final_b_fsync_start, final_b_fsync_return)

module _ (sha : Sha256) {M : Type 0} (media : AnchorMedia M) where
  -- The body of the loop of `persist_pair`.
  unfoldable pub persist_copy : AnchorRecord → AnchorCopy → Points → Action M MediaError (Unit {0})
  persist_copy r copy points = do
    media.boundary points.0
    media.write copy (encode_record sha r [])
    media.boundary points.1
    media.boundary points.2
    media.sync copy
    media.boundary points.3

  unfoldable pub persist_pair : AnchorRecord → Bool → Action M MediaError (Unit {0})
  persist_pair r intent = do
    persist_copy r copy_a (points_a intent)
    persist_copy r copy_b (points_b intent)

-- An action of a part of the core.
module _ {M R E A : Type 0} where
  abbrev pub on_media : Action M E A → Action (Core M R) E A
  on_media f c = let (r, m) = f c.media in (r, record c { media = m })

  abbrev pub on_reader : Action R E A → Action (Core M R) E A
  on_reader f c = let (r, s) = f c.reader in (r, record c { reader = s })

module _ {M R : Type 0} where
  -- `self.halted = true`
  abbrev pub halt : Core M R → Core M R
  halt c = record c { halted = true }

  abbrev pub set_current : AnchorRecord → Core M R → Core M R
  set_current r c = record c { current = r }

  abbrev pub stay : Core M R → Core M R
  stay c = c

  -- `checked_add(1).ok_or_else(…)`, which halts the core.
  abbrev pub next_generation : Core M R → Action (Core M R) Stop ℕ
  next_generation c =
      on_error (or_raise (checked_add c.current.generation 1) tt) (failed persistence_uncertain)
        halt

module _ (sha : Sha256) {M R : Type 0} (media : AnchorMedia M) (reader : SegmentReader R) where
  -- `if self.persist_pair(…).is_err() { self.halted = true; return Err(PersistenceUncertain) }`
  abbrev pub persist : AnchorRecord → Bool → Action (Core M R) Stop (Unit {0})
  persist r intent =
      on_error (on_media (persist_pair sha media r intent)) (failed persistence_uncertain) halt

  -- `TransactionCore::issue` from the intent on.
  unfoldable pub spend : Core M R → ℕ → Action (Core M R) Stop Bytes
  spend c generation = do
    let index = c.current.next
    intent ← or_raise (intent_record c.book_id generation index) panicked
    modify (set_current intent)
    persist intent true
    on_error (on_media (media.boundary segment_pread)) (failed io) stay
    body ← on_error (on_reader (reader.read index)) (failed io) stay
    next ← or_raise (segment_next index) panicked
    let commit = commit_record c.book_id generation next (sha.digest body)
    persist commit false
    modify (set_current commit)
    pure body

  -- `TransactionCore::issue`
  unfoldable pub issue : Action (Core M R) Stop Bytes
  issue = do
    c ← get
    raise_if c.halted (failed persistence_uncertain)
    let index = c.current.next
    raise_if (leb (reader.segment_count c.reader) index) (failed (exhausted index))
    generation ← next_generation c
    spend c generation

  -- The read loop of `reserve_range`: `n` segments from `index` on, behind `bytes`.
  unfoldable pub read_range : ℕ → ℕ → Bytes → Action (Core M R) Stop Bytes
  read_range zero index bytes = pure bytes
  read_range (suc n) index bytes = do
    body ← on_error (on_reader (reader.read index)) (failed io) stay
    read_range n (index + 1) (bytes ++ body)

  -- `TransactionCore::reserve_range` from the intent on.
  unfoldable pub spend_range : Core M R → ℕ → ℕ → ℕ → Action (Core M R) Stop ReservedRange
  spend_range c n new_next generation = do
    let base = c.current.next
    intent ← or_raise (intent_record c.book_id generation (new_next - 1)) panicked
    modify (set_current intent)
    persist intent true
    on_error (on_media (media.boundary segment_pread)) (failed io) stay
    bytes ← read_range n base []
    let hash = sha.digest (drop (length bytes - segment_len) bytes)
    let commit = commit_record c.book_id generation new_next hash
    persist commit false
    modify (set_current commit)
    pure (record { base = base; bytes = bytes })

  -- `TransactionCore::reserve_range`; `usize` has the width of u64, so that `try_from` succeeds.
  unfoldable pub reserve_range : ℕ → Action (Core M R) Stop ReservedRange
  reserve_range n = do
    c ← get
    raise_if c.halted (failed persistence_uncertain)
    raise_if (n == 0) (failed invalid_range)
    let base = c.current.next
    new_next ← or_raise (checked_add base n) (failed invalid_range)
    raise_if (ltb (reader.segment_count c.reader) new_next) (failed (exhausted base))
    generation ← next_generation c
    spend_range c n new_next generation
