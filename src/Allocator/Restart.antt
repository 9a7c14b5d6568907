-- ===== src/Allocator/Restart.antt =====
-- crates/otp-book/src/allocator.rs: calls, a crash and a start (`TransactionCore::open`) behind it.
use jbuu.Base.{ℕ, ◌≤◌, ◌<◌, ◌≡◌, refl, sym, ap, ◌∙◌, arith, u64_limit, List, ◌++◌}
use jbuu.Base.Result.{Result, ok, err}
use jbuu.Base.Bytes.{Bytes}
use jbuu.Anchor.{AnchorRecord}
use jbuu.Anchor.Decide.{AnchorCopy, copy_a, copy_b}
use jbuu.Anchor.Wire.{Sha256, encode_record, decode_and_verify, AnchorSpecError}
use jbuu.Base.State.{continue_with, map_error}
use jbuu.Anchor.Wire.RoundTrip.{decode_and_verify-encode_record}
use jbuu.Allocator.Interfaces.{anchor_corrupt, MediaError, AnchorMedia, SegmentReader, IsDurable}
use jbuu.Allocator.Transaction.{Core}
use jbuu.Allocator.Guards.{Guard, OneGuards, IsReady}
use jbuu.Allocator.OneTime.{Call, run, Increasing, run-Increasing, Increasing-le}
use jbuu.Allocator.Floor.{run_core, floor_of, Increasing-append, IsReady-IsSafe, run-IsSafe}
use jbuu.Allocator.Open.{from_result, read_record, open_core, open_core-Adopts}

module _ {S E F A : Type 0} where
  from_result-ok :
      (x : Result A E) (f : F) (s : S) (a : A) → (from_result x f s).0 ≡ ok a → x ≡ ok a
  from_result-ok (ok b) f s a h = let e : b ≡ a = cc in ap (λ (y : A). ok y) e
  from_result-ok (err _) f s a h = absurd cc

  from_result-state : (x : Result A E) (f : F) (s : S) → (from_result x f s).1 ≡ s
  from_result-state (ok b) f s = refl
  from_result-state (err _) f s = refl

same_next :
    {x r : AnchorRecord}
    → ◌≡◌ {A = Result AnchorRecord AnchorSpecError} (ok x) (ok r)
    → x.next ≡ r.next
same_next {x} {r} h = let e : x ≡ r = cc in ap (λ (y : AnchorRecord). y.next) e

module _ (sha : Sha256) {M : Type 0} (media : AnchorMedia M) (durable : IsDurable media) where
  -- What a record is read of, and that reading leaves what the other copy would answer.
  read_record-pending :
      (copy : AnchorCopy) (m : M) (r : AnchorRecord)
      → (read_record sha media copy m).0 ≡ ok r
      → decode_and_verify sha (durable.pending m copy) ≡ ok r
  unfolding read_record
  read_record-pending copy m r h = by_read (media.read copy m) refl h
    where
      by_read :
          (p : Result Bytes MediaError × M)
          → media.read copy m ≡ p
          → (continue_with
              (λ bytes. from_result (decode_and_verify sha bytes) anchor_corrupt)
              (map_error anchor_corrupt (λ s. s) p)).0
            ≡ ok r
          → decode_and_verify sha (durable.pending m copy) ≡ ok r
      by_read (ok bs, t) e k =
          ap (decode_and_verify sha) (sym (durable.read_answers copy m t bs e))
          ∙ from_result-ok (decode_and_verify sha bs) anchor_corrupt t r k
      by_read (err x, t) e k = absurd cc

  read_record-keeps :
      (copy other : AnchorCopy) (m : M)
      → durable.pending (read_record sha media copy m).1 other ≡ durable.pending m other
  unfolding read_record
  read_record-keeps copy other m = by_read (media.read copy m) (durable.read_pending copy m other)
    where
      by_read :
          (p : Result Bytes MediaError × M)
          → durable.pending p.1 other ≡ durable.pending m other
          → durable.pending
              (continue_with
                (λ bytes. from_result (decode_and_verify sha bytes) anchor_corrupt)
                (map_error anchor_corrupt (λ s. s) p)).1
              other
            ≡ durable.pending m other
      by_read (ok bs, t) h =
          ap (λ (u : M). durable.pending u other)
            (from_result-state (decode_and_verify sha bs) anchor_corrupt t)
          ∙ h
      by_read (err x, t) h = h

  -- A copy that guards the floor is read as a record that is not below it.
  guarded-read :
      (floor : ℕ) (before after : M) (copy : AnchorCopy) (r : AnchorRecord)
      → Guard sha media durable floor before copy
      → durable.pending after copy ≡ durable.stored before copy
      → decode_and_verify sha (durable.pending after copy) ≡ ok r
      → floor ≤ r.next
  unfolding encode_record
  guarded-read floor before after copy r (x, typed, e, le) kept read = omega (
    arith,
    le,
    same_next (
        sym (decode_and_verify-encode_record sha x typed)
        ∙ ap (decode_and_verify sha) (sym (kept ∙ e))
        ∙ read),
  )

  -- What a crash leaves: a read answers what was stored.
  pub record IsRestart {R : Type 0} (c : Core M R) (m : M) : Type 0 where
    pub answers : (copy : AnchorCopy) → durable.pending m copy ≡ durable.stored c.media copy

module _ (sha : Sha256) {M R : Type 0} (media : AnchorMedia M) (reader : SegmentReader R)
    (durable : IsDurable media) where
  -- A start behind a crash goes on with a record that is not below what a copy guards.
  open_core-le :
      (floor : ℕ) (c : Core M R) (m : M) (s : R) (book_id : Bytes) (core : Core M R) (t : M × R)
      → OneGuards sha media durable floor c.media
      → IsRestart sha media durable c m
      → open_core sha media reader book_id (m, s) ≡ (ok core, t)
      → floor ≤ core.current.next
  open_core-le floor c m s book_id core t (copy_a, guard) crash e =
      let found = open_core-Adopts sha media reader book_id m s core t e in
      omega (
        arith,
        guarded-read sha media durable floor c.media m copy_a found.a guard (crash.answers copy_a)
            (read_record-pending sha media durable copy_a m found.a found.read_a),
        found.over_a.next,
      )
  open_core-le floor c m s book_id core t (copy_b, guard) crash e =
      let found = open_core-Adopts sha media reader book_id m s core t e in
      let u = (read_record sha media copy_a m).1 in
      omega (
        arith,
        guarded-read sha media durable floor c.media u copy_b found.b guard
            (read_record-keeps sha media durable copy_a copy_b m ∙ crash.answers copy_b)
            (read_record-pending sha media durable copy_b u found.b found.read_b),
        found.over_b.next,
      )

  -- A core whose two copies store records with its pointer or a higher one is called any number of
  -- times; each call may fail at any access of the medium. Then it crashes: the medium is as reads
  -- answer what was stored, and of a copy whose write has failed anything may be stored. If a start
  -- with that medium succeeds, then what its calls hand out lies behind all that was handed out before
  -- the crash, and before and behind it the bytes are those that the reader answers for exactly the
  -- segments of a range, so that no segment is handed out twice. The medium is durable, and the number of
  -- segments a u64.
  pub run-restart-Increasing :
      (bound : (s : R) → reader.segment_count s < u64_limit)
      → (xs ys : List Call) (c : Core M R) (m : M) (s : R) (book_id : Bytes) (core : Core M R)
        (t : M × R)
      → IsReady sha media durable c.current.next c
      → IsRestart sha media durable (run_core sha media reader xs c) m
      → open_core sha media reader book_id (m, s) ≡ (ok core, t)
      → Increasing reader c.current.next (run sha media reader xs c ++ run sha media reader ys core)
  run-restart-Increasing bound xs ys c m s book_id core t ready crash e =
      let hs = run sha media reader xs c in
      let safe =
        run-IsSafe sha media reader durable bound xs c.current.next c
          (IsReady-IsSafe sha media reader durable bound c.current.next c ready) in
      Increasing-append reader c.current.next hs (run sha media reader ys core)
        (run-Increasing sha media reader durable bound xs c)
        (Increasing-le reader (run sha media reader ys core)
          (open_core-le (floor_of c.current.next hs) (run_core sha media reader xs c) m s book_id
            core t safe.one crash e)
          (run-Increasing sha media reader durable bound ys core))
