-- ===== src/Allocator/Tests.antt =====
-- Runs of the allocator (crates/otp-book/src/allocator.rs) on a small disk.
use jbuu.Base.{ℕ, ◌++◌, ◌≡◌, ◌≢◌, refl, sym, ap, ◌<◌, arith, false, true, [], ◌∷◌, replicate}
use jbuu.Base.Result.{Result, ok, err}
use jbuu.Base.State.{Action}
use jbuu.Base.Bytes.{Bytes}
use jbuu.Anchor.{init_record, commit_record}
use jbuu.Anchor.Decide.{AnchorCopy, copy_a, copy_b, exchange_copy}
use jbuu.Anchor.Wire.{Sha256}
use jbuu.Allocator.Interfaces.{
  MediaError, media_io, Boundary, segment_pread, AnchorMedia, SegmentReader, IsDurable, failed, io,
  panicked, persistence_uncertain,
}
use jbuu.Allocator.Transaction.{
  Core, persist_copy, persist_pair, spend, issue, read_range, spend_range, reserve_range,
}
use jbuu.Allocator.Open.{read_record, check_commit, repair, open_core, Adopts, open_core-Adopts}
use jbuu.Anchor.{state_cmp, record_eq, payload_eq}
use jbuu.Anchor.Decide.{decide, decide_order}
use jbuu.Base.Bytes.{bytes_eq, to_be, from_be}
use jbuu.Anchor.Wire.{
  encode_record, encoded, record_prefix, payload_area, decode_and_verify, decode_payload_area,
  any_set,
}
use jbuu.Allocator.Issue.{BothHold, next_intent, issue_commits, issue_wastes}
use jbuu.Allocator.OneTime.{
  Handing, issue_call, reserve_call, call, run, Increasing, run-Increasing,
}

pub record Disk : Type 0 where
  pub stored_a : Bytes
  pub stored_b : Bytes
  pub pending_a : Bytes
  pub pending_b : Bytes

abbrev pub disk_stored : Disk → AnchorCopy → Bytes
disk_stored d copy_a = d.stored_a
disk_stored d copy_b = d.stored_b

abbrev pub disk_pending : Disk → AnchorCopy → Bytes
disk_pending d copy_a = d.pending_a
disk_pending d copy_b = d.pending_b

abbrev disk_write : AnchorCopy → Bytes → Action Disk MediaError (Unit {0})
disk_write copy_a bs d = (ok tt, record d { pending_a = bs })
disk_write copy_b bs d = (ok tt, record d { pending_b = bs })

abbrev disk_sync : AnchorCopy → Action Disk MediaError (Unit {0})
disk_sync copy_a d = (ok tt, record d { stored_a = d.pending_a })
disk_sync copy_b d = (ok tt, record d { stored_b = d.pending_b })

abbrev at_boundary : Result (Unit {0}) MediaError → Boundary → Result (Unit {0}) MediaError
at_boundary fault segment_pread = fault
at_boundary fault _ = ok tt

-- The disk, with the answer of the boundary before a segment is read.
abbrev pub disk : Result (Unit {0}) MediaError → AnchorMedia Disk
disk fault = record {
  read = λ c d. (ok (disk_pending d c), d);
  write = disk_write;
  sync = disk_sync;
  boundary = λ b d. (at_boundary fault b, d);
}

pub write_pending :
    (c : AnchorCopy) (bs : Bytes) (m m' : Disk)
    → disk_write c bs m ≡ (ok tt, m')
    → disk_pending m' c ≡ bs
write_pending copy_a bs m m' e =
    ap (λ (p : Result (Unit {0}) MediaError × Disk). p.1.pending_a) (sym e)
write_pending copy_b bs m m' e =
    ap (λ (p : Result (Unit {0}) MediaError × Disk). p.1.pending_b) (sym e)

pub write_other :
    (c : AnchorCopy) (bs : Bytes) (m : Disk)
    → disk_stored (disk_write c bs m).1 (exchange_copy c) ≡ disk_stored m (exchange_copy c)
write_other copy_a bs m = refl
write_other copy_b bs m = refl

pub sync_stored :
    (c : AnchorCopy) (m m' : Disk)
    → disk_sync c m ≡ (ok tt, m')
    → disk_stored m' c ≡ disk_pending m c
sync_stored copy_a m m' e = ap (λ (p : Result (Unit {0}) MediaError × Disk). p.1.stored_a) (sym e)
sync_stored copy_b m m' e = ap (λ (p : Result (Unit {0}) MediaError × Disk). p.1.stored_b) (sym e)

pub sync_other :
    (c : AnchorCopy) (m : Disk)
    → disk_stored (disk_sync c m).1 (exchange_copy c) ≡ disk_stored m (exchange_copy c)
sync_other copy_a m = refl
sync_other copy_b m = refl

abbrev pub disk-IsDurable : (fault : Result (Unit {0}) MediaError) → IsDurable (disk fault)
disk-IsDurable fault = record {
  stored = disk_stored;
  pending = disk_pending;
  write_pending = write_pending;
  write_other = write_other;
  sync_stored = sync_stored;
  sync_other = sync_other;
  boundary_stored = λ b m c. refl;
  boundary_pending = λ b m c. refl;
  read_stored = λ c m c'. refl;
  read_pending = λ c m c'. refl;
  read_answers = λ c m m' bs e.
      ap (λ (r : Result Bytes MediaError). elim r [ ok v ↦ v | err _ ↦ [] ])
        (ap (λ (p : Result Bytes MediaError × Disk). p.0) (sym e));
}

-- A book of three segments, whose reader keeps no state.
abbrev pub three_segments : SegmentReader (Unit {0})
three_segments = record { segment_count = λ s. 3; read = λ i s. (ok (replicate 64 i), s) }

abbrev pub flat : Sha256
flat = record {
  digest = λ _. replicate 32 5;
  digest-IsArray = λ _. record { size = refl; bytes = ground arith };
}

abbrev pub book : Bytes
book = replicate 16 9

abbrev pub fresh : Core Disk (Unit {0})
fresh = record {
  media = record { stored_a = []; stored_b = []; pending_a = []; pending_b = [] };
  reader = tt;
  book_id = book;
  current = init_record book;
  halted = false;
}

abbrev pub well : AnchorMedia Disk
well = disk (ok tt)

abbrev faulty : AnchorMedia Disk
faulty = disk (err media_io)

abbrev pub handing : ℕ → ℕ → Bytes → Handing (Unit {0})
handing base count bytes = record { base = base; count = count; bytes = bytes; source = tt }

run-mixed :
    run flat well three_segments
      (issue_call ∷ reserve_call 0 ∷ reserve_call 2 ∷ issue_call ∷ [])
      fresh
    ≡ handing 0 1 (replicate 64 0) ∷ handing 1 2 (replicate 64 1 ++ replicate 64 2) ∷ []
unfolding run call issue spend reserve_range spend_range read_range persist_pair persist_copy
run-mixed = refl

run-Increasing_example :
    Increasing three_segments 0
      (run flat well three_segments (issue_call ∷ reserve_call 2 ∷ issue_call ∷ []) fresh)
run-Increasing_example =
    run-Increasing flat well three_segments (disk-IsDurable (ok tt)) (λ s. ground arith)
      (issue_call ∷ reserve_call 2 ∷ issue_call ∷ []) fresh

abbrev after_issue : Core Disk (Unit {0})
after_issue = (issue flat well three_segments fresh).1

issue-fresh : issue flat well three_segments fresh ≡ (ok (replicate 64 0), after_issue)
unfolding issue spend persist_pair persist_copy
issue-fresh = refl

issue_commits_example :
    (0 < 3)
    × (three_segments.read 0 tt ≡ (ok (replicate 64 0), after_issue.reader))
    × (after_issue.current ≡ commit_record book 1 1 (replicate 32 5))
    × BothHold flat well three_segments (disk-IsDurable (ok tt)) after_issue after_issue.current
issue_commits_example =
    issue_commits flat well three_segments (disk-IsDurable (ok tt)) fresh after_issue
      (replicate 64 0) (ground arith) refl issue-fresh

abbrev after_fault : Core Disk (Unit {0})
after_fault = (issue flat faulty three_segments fresh).1

issue-faulty : issue flat faulty three_segments fresh ≡ (err (failed io), after_fault)
unfolding issue spend persist_pair persist_copy
issue-faulty = refl

issue_wastes_example :
    (failed io ≢ panicked)
    × (failed io ≡ failed io
        → (after_fault.current
            ≡ next_intent flat faulty three_segments (disk-IsDurable (err media_io)) fresh)
          × BothHold flat faulty three_segments
              (disk-IsDurable (err media_io))
              after_fault
              after_fault.current
          × (after_fault.halted ≡ false))
    × (failed io ≡ failed persistence_uncertain → after_fault.halted ≡ true)
issue_wastes_example =
    issue_wastes flat faulty three_segments (disk-IsDurable (err media_io)) fresh after_fault
      (failed io) (ground arith) refl issue-faulty

-- A start on a disk whose copies both hold the first record.
abbrev first_bytes : Bytes
first_bytes = encode_record flat (init_record book) []

abbrev pub formatted : Disk
formatted = record {
  stored_a = first_bytes;
  stored_b = first_bytes;
  pending_a = first_bytes;
  pending_b = first_bytes;
}

abbrev pub started : Core Disk (Unit {0})
started = record fresh { media = formatted }

open_core-formatted :
    open_core flat well three_segments book (formatted, tt) ≡ (ok started, (formatted, tt))
unfolding open_core read_record check_commit repair encode_record encoded record_prefix payload_area
    decode_and_verify decode_payload_area any_set decide decide_order state_cmp record_eq payload_eq
    bytes_eq to_be from_be
open_core-formatted = refl

open_core-Adopts_example : Adopts flat well book formatted started
open_core-Adopts_example =
    open_core-Adopts flat well three_segments book formatted tt started (formatted, tt)
      open_core-formatted
