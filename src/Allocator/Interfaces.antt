-- ===== src/Allocator/Interfaces.antt =====
-- crates/otp-book/src/allocator.rs: the traits, the errors and the boundaries of a transaction.
use jbuu.Base.{ℕ, zero, suc, ◌+◌, ◌≡◌, [], ◌++◌}
use jbuu.Base.Result.{ok}
use jbuu.Base.State.{Action}
use jbuu.Base.Bytes.{Bytes}
use jbuu.Anchor.Decide.{AnchorCopy, exchange_copy}

pub data IssueError : Type 0 where
  exhausted : ℕ → IssueError
  lock_unavailable persistence_uncertain anchor_corrupt wrong_book_id io invalid_range : IssueError

-- How a call stops early: with an error, or by a panic of the arithmetic.
pub data Stop : Type 0 where
  failed : IssueError → Stop
  panicked : Stop

pub data MediaError : Type 0 where
  media_io persistence no_space short_write : MediaError

pub data Boundary : Type 0 where
  intent_a_write_start intent_a_write_complete intent_a_fsync_start intent_a_fsync_return : Boundary
  intent_b_write_start intent_b_write_complete intent_b_fsync_start intent_b_fsync_return : Boundary
  segment_pread : Boundary
  final_a_write_start final_a_write_complete final_a_fsync_start final_a_fsync_return : Boundary
  final_b_write_start final_b_write_complete final_b_fsync_start final_b_fsync_return : Boundary

-- `trait AnchorMedia`, for a medium whose state is an `M`.
pub record AnchorMedia (M : Type 0) : Type 0 where
  pub read : AnchorCopy → Action M MediaError Bytes
  pub write : AnchorCopy → Bytes → Action M MediaError (Unit {0})
  pub sync : AnchorCopy → Action M MediaError (Unit {0})
  pub boundary : Boundary → Action M MediaError (Unit {0})

-- `trait SegmentReader`
pub record SegmentReader (R : Type 0) : Type 0 where
  pub segment_count : R → ℕ
  pub read : ℕ → Action R MediaError Bytes

-- The bytes are those that the reader answers, in this order, for `n` segments from `base` on.
abbrev pub Reads : {R : Type 0} → SegmentReader R → ℕ → R → ℕ → Bytes → Type 0
Reads reader zero s base bytes = bytes ≡ []
Reads reader (suc n) s base bytes =
    (body : Bytes) × (t : _) × (rest : Bytes) × (reader.read base s ≡ (ok body, t))
    × (bytes ≡ body ++ rest)
    × Reads reader n t (base + 1) rest

-- What the allocator relies on of files and of fsync: `stored` is what a copy holds after a
-- crash, `pending` what was last written to it. A write that succeeds is pending, a sync that
-- succeeds stores what is pending, and neither touches the other copy; reads and boundaries change
-- neither, and a read that succeeds answers what was last written.
pub record IsDurable {M : Type 0} (media : AnchorMedia M) : Type 0 where
  pub stored : M → AnchorCopy → Bytes
  pub pending : M → AnchorCopy → Bytes
  pub write_pending :
      (c : AnchorCopy) (bs : Bytes) (m m' : M)
      → media.write c bs m ≡ (ok tt, m')
      → pending m' c ≡ bs
  pub write_other :
      (c : AnchorCopy) (bs : Bytes) (m : M)
      → stored (media.write c bs m).1 (exchange_copy c) ≡ stored m (exchange_copy c)
  pub sync_stored :
      (c : AnchorCopy) (m m' : M) → media.sync c m ≡ (ok tt, m') → stored m' c ≡ pending m c
  pub sync_other :
      (c : AnchorCopy) (m : M)
      → stored (media.sync c m).1 (exchange_copy c) ≡ stored m (exchange_copy c)
  pub boundary_stored :
      (b : Boundary) (m : M) (c : AnchorCopy) → stored (media.boundary b m).1 c ≡ stored m c
  pub boundary_pending :
      (b : Boundary) (m : M) (c : AnchorCopy) → pending (media.boundary b m).1 c ≡ pending m c
  pub read_stored :
      (c : AnchorCopy) (m : M) (c' : AnchorCopy) → stored (media.read c m).1 c' ≡ stored m c'
  pub read_pending :
      (c : AnchorCopy) (m : M) (c' : AnchorCopy) → pending (media.read c m).1 c' ≡ pending m c'
  pub read_answers :
      (c : AnchorCopy) (m m' : M) (bs : Bytes) → media.read c m ≡ (ok bs, m') → bs ≡ pending m c
