-- ===== src/Allocator/Open.antt =====
-- crates/otp-book/src/allocator.rs, `TransactionCore::open`: the start of the allocator, with its checks
-- and the repair of a stale copy. The state is the medium and the reader.
use jbuu.Base.{
  ℕ, ◌-◌, ◌≡◌, refl, ap, sym, subst, arith, ◌⊎◌, false, not, ◌||◌, leb, ltb, if◌then◌else◌, Option,
  none, some, [],
}
use jbuu.Base.Result.{Result, ok, err}
use jbuu.Base.State.{Action, pure, get, or_raise, on_error, raise_if, ◌>>=◌, ◌>>◌}
use jbuu.Base.Bytes.{Bytes, bytes_eq, bytes_eq_iff}
use jbuu.Base.Actions.{Post, Ends, Ends-at, Ends-step, Ends-raise_if, Ends-or_raise}
use jbuu.Anchor.{
  AnchorRecord, AnchorPayload, init_payload, intent_payload, commit_payload, record_eq,
}
use jbuu.Anchor.Decide.{
  AnchorCopy, copy_a, copy_b, RecoveryDecision, consistent, adopt_higher, quarantine_corrupt,
  cannot_prove_safe, both_unreadable, decide, adopted, Dominates, decide_never_lowers,
}
use jbuu.Anchor.Wire.{Sha256, encode_record, decode_and_verify}
use jbuu.Allocator.Interfaces.{
  IssueError, anchor_corrupt, wrong_book_id, persistence_uncertain, MediaError, AnchorMedia,
  SegmentReader,
}
use jbuu.Allocator.Transaction.{Core}

-- `map_err` on a result that changes no state.
abbrev pub from_result : {S E F A : Type 0} → Result A E → F → Action S F A
from_result (ok a) f s = (ok a, s)
from_result (err _) f s = (err f, s)

module _ {M R E A : Type 0} where
  abbrev on_first : Action M E A → Action (M × R) E A
  on_first f (m, s) = let (r, m') = f m in (r, (m', s))

  abbrev on_second : Action R E A → Action (M × R) E A
  on_second f (m, s) = let (r, s') = f s in (r, (m, s'))

abbrev same : {S : Type 0} → S → S
same s = s

-- The record that the start goes on with, and the copy to repair.
abbrev pub reconciled : RecoveryDecision → Option (AnchorRecord × Option AnchorCopy)
reconciled (consistent r) = some (r, none)
reconciled (adopt_higher r stale) = some (r, some stale)
reconciled (quarantine_corrupt _ _) = none
reconciled (cannot_prove_safe _) = none
reconciled both_unreadable = none

-- `checked_sub(1)`
abbrev pub checked_pred : ℕ → Option ℕ
checked_pred n = if leb 1 n then some (n - 1) else none

module _ (sha : Sha256) {M : Type 0} (media : AnchorMedia M) where
  unfoldable pub read_record : AnchorCopy → Action M IssueError AnchorRecord
  read_record copy = do
    bytes ← on_error (media.read copy) anchor_corrupt same
    from_result (decode_and_verify sha bytes) anchor_corrupt

  unfoldable pub persist_one : AnchorCopy → AnchorRecord → Action M MediaError (Unit {0})
  persist_one copy r = do media.write copy (encode_record sha r []); media.sync copy

module _ (sha : Sha256) {M R : Type 0} (media : AnchorMedia M) (reader : SegmentReader R) where
  -- A commit binds the digest of the segment before its pointer.
  unfoldable pub check_commit : AnchorPayload → ℕ → Action (M × R) IssueError (Unit {0})
  check_commit init_payload next = pure tt
  check_commit (intent_payload _) next = pure tt
  check_commit (commit_payload hash) next = do
    prior ← or_raise (checked_pred next) anchor_corrupt
    body ← on_second (on_error (reader.read prior) anchor_corrupt same)
    raise_if (not (bytes_eq (sha.digest body) hash)) anchor_corrupt

  unfoldable pub repair : Option AnchorCopy → AnchorRecord → Action (M × R) IssueError (Unit {0})
  repair none current = pure tt
  repair (some copy) current = do
    on_first (on_error (persist_one sha media copy current) persistence_uncertain same)
    repaired ← on_first (read_record sha media copy)
    raise_if (not (record_eq repaired current)) persistence_uncertain

  -- `TransactionCore::open`
  unfoldable pub open_core : Bytes → Action (M × R) IssueError (Core M R)
  open_core book_id = do
    a ← on_first (read_record sha media copy_a)
    b ← on_first (read_record sha media copy_b)
    raise_if (not (bytes_eq a.book_id book_id) || not (bytes_eq b.book_id book_id)) wrong_book_id
    (current, stale) ← or_raise (reconciled (decide (ok a) (ok b))) anchor_corrupt
    parts ← get
    raise_if (ltb (reader.segment_count parts.1) current.next) anchor_corrupt
    check_commit current.payload current.next
    repair stale current
    final ← get
    pure (record {
      media = final.0;
      reader = final.1;
      book_id = book_id;
      current = current;
      halted = false;
    })

abbrev first_of : Option (AnchorRecord × Option AnchorCopy) → Option AnchorRecord
first_of none = none
first_of (some w) = some w.0

adopted-reconciled :
    (d : RecoveryDecision) {w : AnchorRecord × Option AnchorCopy}
    → reconciled d ≡ some w
    → adopted d ≡ some w.0
adopted-reconciled (consistent r) h =
    ap (λ (o : Option (AnchorRecord × Option AnchorCopy)). first_of o) h
adopted-reconciled (adopt_higher r stale) h =
    ap (λ (o : Option (AnchorRecord × Option AnchorCopy)). first_of o) h
adopted-reconciled (quarantine_corrupt _ _) h = absurd cc
adopted-reconciled (cannot_prove_safe _) h = absurd cc
adopted-reconciled both_unreadable h = absurd cc

both_books :
    (x y book_id : Bytes)
    → not (bytes_eq x book_id) || not (bytes_eq y book_id) ≡ false
    → (x ≡ book_id) × (y ≡ book_id)
both_books x y book_id h = ground (arith, bytes_eq_iff x book_id, bytes_eq_iff y book_id)

-- What a start that succeeds goes on with: both copies are read and of this book, and the record is
-- one of them and behind neither.
pub record Adopts (sha : Sha256) {M R : Type 0} (media : AnchorMedia M) (book_id : Bytes) (m : M)
    (core : Core M R) : Type 0 where
  pub a : AnchorRecord
  pub b : AnchorRecord
  pub read_a : (read_record sha media copy_a m).0 ≡ ok a
  pub read_b : (read_record sha media copy_b (read_record sha media copy_a m).1).0 ≡ ok b
  pub book_a : a.book_id ≡ book_id
  pub book_b : b.book_id ≡ book_id
  pub one_of : (core.current ≡ a) ⊎ (core.current ≡ b)
  pub over_a : Dominates core.current a
  pub over_b : Dominates core.current b
  pub live : core.halted ≡ false

module _ (sha : Sha256) {M R : Type 0} (media : AnchorMedia M) (reader : SegmentReader R) where
  abbrev OkAdopts : Bytes → M → Post (M × R) IssueError (Core M R)
  OkAdopts book_id m (ok core) t = Adopts sha media book_id m core
  OkAdopts book_id m (err _) t = Unit {0}

  on_first-ok :
      {A : Type 0} (f : Action M IssueError A) (m : M) (s : R) (a : A) (t : M × R)
      → on_first f (m, s) ≡ (ok a, t)
      → ((f m).0 ≡ ok a) × ((f m).1 ≡ t.0)
  on_first-ok {A = A} f m s a t e = (
    ap (λ (p : Result A IssueError × (M × R)). p.0) e,
    ap (λ (p : Result A IssueError × (M × R)). p.1.0) e,
  )

  open_core-OkAdopts :
      (book_id : Bytes) (m : M) (s : R)
      → Ends (open_core sha media reader book_id) (m, s) (OkAdopts book_id m)
  unfolding open_core
  open_core-OkAdopts book_id m s =
      let Q = OkAdopts book_id m in
      Ends-step (on_first (read_record sha media copy_a)) _ (m, s) Q
        (λ a t ea.
          Ends-step (on_first (read_record sha media copy_b)) _ t Q
            (λ b u eb.
              Ends-raise_if (not (bytes_eq a.book_id book_id) || not (bytes_eq b.book_id book_id))
                wrong_book_id _ u Q (λ _. tt)
                (λ books.
                  Ends-or_raise (reconciled (decide (ok a) (ok b))) anchor_corrupt _ u Q (λ _. tt)
                    (λ w ew.
                      Ends-raise_if (ltb (reader.segment_count u.1) w.0.next) anchor_corrupt _ u Q
                        (λ _. tt)
                        (λ _.
                          Ends-step (check_commit sha media reader w.0.payload w.0.next) _ u Q
                            (λ _ v _.
                              Ends-step (repair sha media reader w.1 w.0) _ v Q
                                (λ _ x _.
                                  let (one, over_a, over_b) =
                                    decide_never_lowers a b w.0 (adopted-reconciled _ ew) in
                                  let (ra, rt) =
                                    on_first-ok (read_record sha media copy_a) m s a t ea in
                                  let (rb, _) =
                                    on_first-ok (read_record sha media copy_b) t.0 t.1 b u eb in
                                  record {
                                    a = a;
                                    b = b;
                                    read_a = ra;
                                    read_b =
                                        subst (λ (n : M). (read_record sha media copy_b n).0 ≡ ok b)
                                          (sym rt) rb;
                                    book_a = (both_books a.book_id b.book_id book_id books).0;
                                    book_b = (both_books a.book_id b.book_id book_id books).1;
                                    one_of = one;
                                    over_a = over_a;
                                    over_b = over_b;
                                    live = refl;
                                  })
                                (λ _ _ _. tt))
                            (λ _ _ _. tt)))))
            (λ _ _ _. tt))
        (λ _ _ _. tt)

  -- A start that succeeds has read both copies as records of the book, and its core is live and goes
  -- on with one of them, which is behind neither in its pointer or its generation.
  pub open_core-Adopts :
      (book_id : Bytes) (m : M) (s : R) (core : Core M R) (t : M × R)
      → open_core sha media reader book_id (m, s) ≡ (ok core, t)
      → Adopts sha media book_id m core
  open_core-Adopts book_id m s core t e =
      Ends-at (open_core sha media reader book_id) (m, s) (OkAdopts book_id m) e
        (open_core-OkAdopts book_id m s)
