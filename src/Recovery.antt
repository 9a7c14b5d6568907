-- ===== src/Recovery.antt =====
-- crates/otp-recovery/src/lib.rs: the recovery of the two anchor copies at a start. The stores are
-- records of actions on a state that both share, and the check of the book is an argument.
use jbuu.Base.{ℕ, Bool, true, false, not, ◌&&◌, ltb, Option, none, some, List, [], ◌∷◌}
use jbuu.Base.Result.{Result, ok, err}
use jbuu.Base.State.{Action, pure, raise, raise_if, on_error, ◌>>=◌, ◌>>◌}
use jbuu.Anchor.{
  AnchorRecord, AnchorPayload, init_payload, intent_payload, commit_payload, record_eq,
}
use jbuu.Anchor.Decide.{
  AnchorCopy, copy_a, copy_b, ReadFailure, corrupt, Reason, RecoveryDecision, consistent,
  adopt_higher, quarantine_corrupt, cannot_prove_safe, both_unreadable, decide,
}
pub mod Adoption
mod Tests

-- The reasons of a quarantine: those of `decide`, and two of this file.
pub data RecoveryReason : Type 0 where
  decided : Reason → RecoveryReason
  both_anchors_unreadable book_anchor_mismatch : RecoveryReason

pub data RecoveryWarning : Type 0 where
  stale_copy_repaired corrupt_copy_quarantined : AnchorCopy → RecoveryWarning
  dual_rollback_undetectable : RecoveryWarning

pub record RecoveryReport : Type 0 where
  pub adopted : AnchorRecord
  pub repaired : Option AnchorCopy
  pub quarantined : List AnchorCopy
  pub warnings : List RecoveryWarning

pub data RecoveryError : Type 0 where
  both_copies_unreadable store rollback_blocked : RecoveryError
  not_provably_safe : RecoveryReason → RecoveryError
  quarantined : Option AnchorCopy → RecoveryReason → RecoveryError

-- `trait AnchorStore` of crates/otp-anchor-spec/src/lib.rs, one for each copy, with errors `E`.
pub record AnchorStores (S E : Type 0) : Type 0 where
  pub read_verified : AnchorCopy → Action S E AnchorRecord
  pub write_full_and_sync : AnchorCopy → AnchorRecord → Action S E (Unit {0})
  pub sync_parent_if_created : AnchorCopy → Action S E (Unit {0})

-- The match on the decision: the record to go on with and the copy that is behind.
abbrev pub adopted_or_error :
    RecoveryDecision → Result (AnchorRecord × Option AnchorCopy) RecoveryError
adopted_or_error (consistent r) = ok (r, none)
adopted_or_error (adopt_higher r stale) = ok (r, some stale)
adopted_or_error (quarantine_corrupt copy reason) = err (quarantined (some copy) (decided reason))
adopted_or_error both_unreadable = err (quarantined none both_anchors_unreadable)
adopted_or_error (cannot_prove_safe reason) = err (quarantined none (decided reason))

-- `watermark.is_some_and(|floor| adopted.generation < floor)`
abbrev pub below_watermark : Option ℕ → AnchorRecord → Bool
below_watermark none r = false
below_watermark (some floor) r = ltb r.generation floor

-- `matches!(adopted.payload, AnchorPayload::Commit { .. })`
abbrev pub is_commit : AnchorPayload → Bool
is_commit init_payload = false
is_commit (intent_payload _) = false
is_commit (commit_payload _) = true

abbrev pub repair_warning : Option AnchorCopy → List RecoveryWarning
repair_warning none = []
repair_warning (some copy) = stale_copy_repaired copy ∷ []

abbrev pub report_of : AnchorRecord → Option AnchorCopy → RecoveryReport
report_of r stale = record {
  adopted = r;
  repaired = stale;
  quarantined = [];
  warnings = dual_rollback_undetectable ∷ repair_warning stale;
}

module _ {S : Type 0} where
  abbrev pub from_result : {A E : Type 0} → Result A E → Action S E A
  from_result r s = (r, s)

  -- A read whose error is an answer.
  abbrev pub attempt : {A E F : Type 0} → Action S E A → Action S F (Result A E)
  attempt m s = let (r, t) = m s in (ok r, t)

abbrev pub as_corrupt : {E : Type 0} → Result AnchorRecord E → Result AnchorRecord ReadFailure
as_corrupt (ok r) = ok r
as_corrupt (err _) = err corrupt

module _ {S E : Type 0} (stores : AnchorStores S E) where
  abbrev pub to_store : {A : Type 0} → Action S E A → Action S RecoveryError A
  to_store m = on_error m store (λ s. s)

  -- The repair of the copy that is behind, and its proof by reading.
  unfoldable pub repair_copy : AnchorRecord → AnchorCopy → Action S RecoveryError (Unit {0})
  repair_copy adopted copy = do
    to_store (stores.write_full_and_sync copy adopted)
    to_store (stores.sync_parent_if_created copy)
    seen ← to_store (stores.read_verified copy)
    raise_if (not (record_eq seen adopted)) store

  abbrev pub repair_stale : AnchorRecord → Option AnchorCopy → Action S RecoveryError (Unit {0})
  repair_stale adopted none = pure tt
  repair_stale adopted (some copy) = repair_copy adopted copy

  -- What follows the decision.
  unfoldable pub go_on :
      Option ℕ
      → (AnchorRecord → Bool)
      → AnchorRecord
      → Option AnchorCopy
      → Action S RecoveryError RecoveryReport
  go_on watermark verify_commit adopted stale = do
    raise_if (below_watermark watermark adopted) rollback_blocked
    raise_if (is_commit adopted.payload && not (verify_commit adopted))
        (quarantined none book_anchor_mismatch)
    repair_stale adopted stale
    pure (report_of adopted stale)

  unfoldable pub recover_with_options :
      Option ℕ → (AnchorRecord → Bool) → Action S RecoveryError RecoveryReport
  recover_with_options watermark verify_commit = do
    ra ← attempt (stores.read_verified copy_a)
    rb ← attempt (stores.read_verified copy_b)
    (adopted, stale) ← from_result (adopted_or_error (decide (as_corrupt ra) (as_corrupt rb)))
    go_on watermark verify_commit adopted stale

  -- `recover`
  unfoldable pub recover : Action S RecoveryError RecoveryReport
  recover = recover_with_options none (λ _. true)
