-- ===== src/Allocator/CrashTests.antt =====
-- Two calls, a crash, and a start on what is stored (crates/otp-book/src/allocator.rs).
use jbuu.Base.{◌≡◌, refl, arith, List, ◌++◌, [], ◌∷◌, replicate, false}
use jbuu.Base.Result.{ok}
use jbuu.Base.Bytes.{Bytes, bytes_eq, to_be, from_be}
use jbuu.Anchor.{IsTypedRecord, init_record, commit_record, state_cmp, record_eq, payload_eq}
use jbuu.Anchor.Decide.{copy_a, copy_b, decide, decide_order}
use jbuu.Anchor.Wire.{
  encode_record, encoded, record_prefix, payload_area, decode_and_verify, decode_payload_area,
  any_set,
}
use jbuu.Allocator.Transaction.{
  Core, persist_copy, persist_pair, spend, issue, read_range, spend_range, reserve_range,
}
use jbuu.Allocator.Guards.{BothGuard, IsReady}
use jbuu.Allocator.Open.{read_record, check_commit, repair, open_core}
use jbuu.Allocator.OneTime.{Call, issue_call, reserve_call, call, run, Increasing}
use jbuu.Allocator.Floor.{run_core}
use jbuu.Allocator.Restart.{IsRestart, run-restart-Increasing}
use jbuu.Allocator.Tests.{
  Disk, disk-IsDurable, three_segments, flat, book, well, formatted, started, handing,
}

first-IsTypedRecord : IsTypedRecord (init_record book)
first-IsTypedRecord = record {
  book_id = record { size = refl; bytes = ground arith };
  next = ground arith;
  generation = ground arith;
  payload = (refl, refl);
}

formatted-BothGuard : BothGuard flat well (disk-IsDurable (ok tt)) 0 formatted
unfolding encode_record
formatted-BothGuard copy_a = (init_record book, first-IsTypedRecord, refl, ground arith)
formatted-BothGuard copy_b = (init_record book, first-IsTypedRecord, refl, ground arith)

started-IsReady : IsReady flat well (disk-IsDurable (ok tt)) 0 started
unfolding encode_record
started-IsReady = record {
  book_id = record { size = refl; bytes = ground arith };
  both = formatted-BothGuard;
  le = ground arith;
}

abbrev before_crash : List Call
before_crash = issue_call ∷ reserve_call 1 ∷ []

abbrev last_bytes : Bytes
last_bytes = encode_record flat (commit_record book 2 2 (replicate 32 5)) []

abbrev crashed : Disk
crashed = record {
  stored_a = last_bytes;
  stored_b = last_bytes;
  pending_a = last_bytes;
  pending_b = last_bytes;
}

abbrev restarted : Core Disk (Unit {0})
restarted = record {
  media = crashed;
  reader = tt;
  book_id = book;
  current = commit_record book 2 2 (replicate 32 5);
  halted = false;
}

crashed-IsRestart :
    IsRestart flat well
      (disk-IsDurable (ok tt))
      (run_core flat well three_segments before_crash started)
      crashed
unfolding run_core call issue spend reserve_range spend_range read_range persist_pair persist_copy
    encode_record
crashed-IsRestart = record { answers = λ copy. elim copy [ copy_a ↦ refl | copy_b ↦ refl ] }

open_core-crashed :
    open_core flat well three_segments book (crashed, tt) ≡ (ok restarted, (crashed, tt))
unfolding open_core read_record check_commit repair encode_record encoded record_prefix payload_area
    decode_and_verify decode_payload_area any_set decide decide_order state_cmp record_eq payload_eq
    bytes_eq to_be from_be
open_core-crashed = refl

run-restart-Increasing_example : Increasing three_segments 0 (
    run flat well three_segments before_crash started
    ++ run flat well three_segments (issue_call ∷ []) restarted)
run-restart-Increasing_example =
    run-restart-Increasing flat well three_segments (disk-IsDurable (ok tt)) (λ s. ground arith)
      before_crash (issue_call ∷ []) started crashed tt book restarted (crashed, tt) started-IsReady
      crashed-IsRestart open_core-crashed

run-restarted :
    run flat well three_segments (issue_call ∷ issue_call ∷ []) restarted
    ≡ handing 2 1 (replicate 64 2) ∷ []
unfolding run call issue spend persist_pair persist_copy
run-restarted = refl
