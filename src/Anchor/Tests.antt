-- ===== src/Anchor/Tests.antt =====
-- Runs of the anchor records (crates/otp-anchor-spec) at small inputs.
use jbuu.Base.{◌≡◌, refl, ap, ◌⊎◌, arith, [], replicate}
use jbuu.Base.Result.{ok, err}
use jbuu.Base.Bytes.{Bytes, bytes_eq}
use jbuu.Anchor.{AnchorRecord, commit_record, intent_payload, IsTypedRecord, state_cmp}
use jbuu.Anchor.Decide.{
  corrupt, decide, decide_order, adopted, Dominates, adopt_higher, copy_a, quarantine_corrupt,
  anchor_a_invalid, decide_never_lowers,
}
use jbuu.Anchor.Wire.{Sha256, encode_record, decode_and_verify, decode_failed, bad_record_length}
use jbuu.Anchor.Wire.RoundTrip.{decode_and_verify-encode_record}

abbrev book : Bytes
book = replicate 16 9

-- A digest that is constant.
abbrev flat : Sha256
flat = record {
  digest = λ _. replicate 32 5;
  digest-IsArray = λ _. record { size = refl; bytes = ground arith };
}

abbrev older : AnchorRecord
older = commit_record book 1 3 (replicate 32 0)

abbrev newer : AnchorRecord
newer = record { book_id = book; next = 4; generation = 2; payload = intent_payload 3 }

decide-newer : decide (ok older) (ok newer) ≡ adopt_higher newer copy_a
unfolding decide decide_order state_cmp bytes_eq
decide-newer = refl

decide-corrupt : decide (err corrupt) (ok newer) ≡ quarantine_corrupt copy_a anchor_a_invalid
unfolding decide
decide-corrupt = refl

decode-empty : decode_and_verify flat [] ≡ err (decode_failed bad_record_length)
unfolding decode_and_verify
decode-empty = refl

newer-IsTyped : IsTypedRecord newer
newer-IsTyped = record {
  book_id = record { size = refl; bytes = ground arith };
  next = ground arith;
  generation = ground arith;
  payload = refl;
}

decode_and_verify-encode_record_example :
    decode_and_verify flat (encode_record flat newer []) ≡ ok newer
decode_and_verify-encode_record_example = decode_and_verify-encode_record flat newer newer-IsTyped

decide_never_lowers_example :
    ((newer ≡ older) ⊎ (newer ≡ newer)) × Dominates newer older × Dominates newer newer
decide_never_lowers_example = decide_never_lowers older newer newer (ap adopted decide-newer)
