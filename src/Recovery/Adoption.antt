-- ===== src/Recovery/Adoption.antt =====
-- crates/otp-recovery/src/lib.rs: what a recovery that succeeds has adopted, and what it leaves.
use jbuu.Base.{
  ℕ, ◌≤◌, ◌≡◌, refl, sym, subst, ap, ap₂, ◌∙◌, arith, ◌⊎◌, inl, inr, Bool, true, false, not, ◌&&◌,
  Option, none, some,
}
use jbuu.Base.Result.{Result, ok, err}
use jbuu.Base.State.{Action, raise_if, map_error, pure, continue_with, ◌>>=◌, ◌>>◌}
use jbuu.Base.Actions.{Post, Ends, Ends-at, Ends-raise_if}
use jbuu.Anchor.{AnchorRecord, record_eq, record_eq→eq}
use jbuu.Anchor.Decide.{
  AnchorCopy, copy_a, copy_b, RecoveryDecision, consistent, adopt_higher, quarantine_corrupt,
  cannot_prove_safe, both_unreadable, decide, decide_never_lowers, Dominates,
}
use jbuu.Anchor.Decide as Decide
use jbuu.Recovery.{
  RecoveryReport, RecoveryReason, RecoveryError, store, AnchorStores, adopted_or_error,
  below_watermark, is_commit, report_of, repair_copy, repair_stale, go_on, rollback_blocked,
  quarantined, book_anchor_mismatch, recover_with_options, from_result, as_corrupt, to_store,
}

-- What a success means: both copies were read, the report carries the decision on them, the record
-- adopted is one of the two and behind neither, the watermark does not lie above it, a commit was
-- verified against the book, and the copy that was behind reads back as the record adopted.
pub record Recovers {S E : Type 0} (stores : AnchorStores S E) (watermark : Option ℕ)
    (verify : AnchorRecord → Bool) (s : S) (report : RecoveryReport) (t : S) : Type 0 where
  pub a : AnchorRecord
  pub b : AnchorRecord
  pub read_a : (stores.read_verified copy_a s).0 ≡ ok a
  pub read_b : (stores.read_verified copy_b (stores.read_verified copy_a s).1).0 ≡ ok b
  pub decided : adopted_or_error (decide (ok a) (ok b)) ≡ ok (report.adopted, report.repaired)
  pub one_of : (report.adopted ≡ a) ⊎ (report.adopted ≡ b)
  pub over_a : Dominates report.adopted a
  pub over_b : Dominates report.adopted b
  pub watermark_kept : (floor : ℕ) → watermark ≡ some floor → floor ≤ report.adopted.generation
  pub verified : is_commit report.adopted.payload ≡ true → verify report.adopted ≡ true
  pub repaired :
      (copy : AnchorCopy)
      → report.repaired ≡ some copy
      → (u : S) × (stores.read_verified copy u ≡ (ok report.adopted, t))

adopted_or_error-adopted :
    (d : RecoveryDecision) (r : AnchorRecord) (c : Option AnchorCopy)
    → adopted_or_error d ≡ ok (r, c)
    → Decide.adopted d ≡ some r
adopted_or_error-adopted (consistent _) r c h = ground arith
adopted_or_error-adopted (adopt_higher _ _) r c h = ground arith
adopted_or_error-adopted (quarantine_corrupt _ _) r c h = absurd cc
adopted_or_error-adopted both_unreadable r c h = absurd cc
adopted_or_error-adopted (cannot_prove_safe _) r c h = absurd cc

watermark_passed :
    (w : Option ℕ) (r : AnchorRecord) (floor : ℕ)
    → below_watermark w r ≡ false
    → w ≡ some floor
    → floor ≤ r.generation
watermark_passed none r floor h e = absurd cc
watermark_passed (some n) r floor h e = ground arith

-- Two reads of which one fails leave nothing to adopt.
both_read :
    {E : Type 0} (x y : Result AnchorRecord E) (r : AnchorRecord) (c : Option AnchorCopy)
    → adopted_or_error (decide (as_corrupt x) (as_corrupt y)) ≡ ok (r, c)
    → (a : AnchorRecord) × (b : AnchorRecord) × (x ≡ ok a) × (y ≡ ok b)
unfolding decide
both_read (ok a) (ok b) r c h = (a, b, refl, refl)
both_read (ok _) (err _) r c h = absurd cc
both_read (err _) (ok _) r c h = absurd cc
both_read (err _) (err _) r c h = absurd cc

verified_commit : (b v : Bool) → b ≡ true → b && not v ≡ false → v ≡ true
verified_commit true true h g = refl
verified_commit true false h g = absurd cc
verified_commit false v h g = absurd cc

not-false : (b : Bool) → not b ≡ false → b ≡ true
not-false true h = refl
not-false false h = absurd cc

module _ {S E : Type 0} (stores : AnchorStores S E) where
  abbrev Proven : AnchorRecord → AnchorCopy → Post S RecoveryError (Unit {0})
  Proven r copy (ok _) t = (u : S) × (stores.read_verified copy u ≡ (ok r, t))
  Proven r copy (err _) t = Unit {0}

  Ends-to_store :
      {A B : Type 0} (m : Action S E A) (f : A → Action S RecoveryError B) (s : S)
      (Q : Post S RecoveryError B)
      → ((t : S) → Q (err store) t)
      → ((a : A) (t : S) → m s ≡ (ok a, t) → Ends (f a) t Q)
      → Ends (to_store stores m >>= f) s Q
  Ends-to_store {A = A} m f s Q fails passes = by_run (m s) refl
    where
      by_run :
          (p : Result A E × S)
          → m s ≡ p
          → (let q = continue_with f (map_error store (λ u. u) p) in Q q.0 q.1)
      by_run (ok a, t) e = passes a t e
      by_run (err x, t) e = fails t

  last_check :
      (b : Bool) (r : AnchorRecord) (copy : AnchorCopy) (t : S)
      → (b ≡ false → (u : S) × (stores.read_verified copy u ≡ (ok r, t)))
      → Ends (raise_if b store) t (Proven r copy)
  last_check true r copy t proven = tt
  last_check false r copy t proven = proven refl

  repair_copy-Proven :
      (r : AnchorRecord) (copy : AnchorCopy) (s : S)
      → Ends (repair_copy stores r copy) s (Proven r copy)
  unfolding repair_copy
  repair_copy-Proven r copy s =
      let Q = Proven r copy in
      Ends-to_store (stores.write_full_and_sync copy r) _ s Q (λ _. tt)
        (λ _ s1 _.
          Ends-to_store (stores.sync_parent_if_created copy) _ s1 Q (λ _. tt)
            (λ _ s2 _.
              Ends-to_store (stores.read_verified copy) _ s2 Q (λ _. tt)
                (λ seen t e. last_check (not (record_eq seen r)) r copy t (λ h.
                  let same = record_eq→eq seen r (not-false _ h) in
                  (s2, e ∙ ap (λ (x : AnchorRecord). (ok x, t)) same)))))

  abbrev OkRecovers : Option ℕ → (AnchorRecord → Bool) → S → Post S RecoveryError RecoveryReport
  OkRecovers w verify s (ok report) t = Recovers stores w verify s report t
  OkRecovers w verify s (err _) t = Unit {0}

  -- The repair and the report.
  finish :
      (w : Option ℕ) (verify : AnchorRecord → Bool) (s s' : S) (r : AnchorRecord)
      (c : Option AnchorCopy)
      → ((t : S)
          → ((copy : AnchorCopy)
              → c ≡ some copy
              → (u : S) × (stores.read_verified copy u ≡ (ok r, t)))
          → Recovers stores w verify s (report_of r c) t)
      → Ends (repair_stale stores r c >> pure (report_of r c)) s' (OkRecovers w verify s)
  finish w verify s s' r none done = done s' (λ copy h. absurd cc)
  finish w verify s s' r (some copy) done =
      Ends-cases-of (repair_copy stores r copy s') (repair_copy-Proven r copy s')
    where
      Ends-cases-of :
          (p : Result (Unit {0}) RecoveryError × S)
          → Proven r copy p.0 p.1
          → (let q = continue_with (λ _. pure (report_of r (some copy))) p in
              OkRecovers w verify s q.0 q.1)
      Ends-cases-of (ok _, t) proven = done t (λ x h.
          subst (λ (y : AnchorCopy). (u : S) × (stores.read_verified y u ≡ (ok r, t)))
            (let i : copy ≡ x = cc in i) proven)
      Ends-cases-of (err _, t) proven = tt

  go_on-OkRecovers :
      (w : Option ℕ) (verify : AnchorRecord → Bool) (s s' : S) (a b r : AnchorRecord)
      (c : Option AnchorCopy)
      → (stores.read_verified copy_a s).0 ≡ ok a
      → (stores.read_verified copy_b (stores.read_verified copy_a s).1).0 ≡ ok b
      → adopted_or_error (decide (ok a) (ok b)) ≡ ok (r, c)
      → Ends (go_on stores w verify r c) s' (OkRecovers w verify s)
  unfolding go_on
  go_on-OkRecovers w verify s s' a b r c ea eb e =
      let Q = OkRecovers w verify s in
      let (one, over_a, over_b) = decide_never_lowers a b r (adopted_or_error-adopted _ r c e) in
      Ends-raise_if (below_watermark w r) rollback_blocked _ s' Q (λ _. tt)
        (λ above.
          Ends-raise_if (is_commit r.payload && not (verify r))
            (quarantined none book_anchor_mismatch) _ s' Q (λ _. tt)
            (λ good. finish w verify s s' r c (λ t proven. record {
              a = a;
              b = b;
              read_a = ea;
              read_b = eb;
              decided = e;
              one_of = one;
              over_a = over_a;
              over_b = over_b;
              watermark_kept = λ floor h. watermark_passed w r floor above h;
              verified = λ h. verified_commit _ _ h good;
              repaired = proven;
            })))

  by_decision :
      (w : Option ℕ) (verify : AnchorRecord → Bool) (s s' : S) (x y : Result AnchorRecord E)
      → (stores.read_verified copy_a s).0 ≡ x
      → (stores.read_verified copy_b (stores.read_verified copy_a s).1).0 ≡ y
      → (z : Result (AnchorRecord × Option AnchorCopy) RecoveryError)
      → adopted_or_error (decide (as_corrupt x) (as_corrupt y)) ≡ z
      → Ends
          (from_result z
            >>= (λ (p : AnchorRecord × Option AnchorCopy). go_on stores w verify p.0 p.1))
          s'
          (OkRecovers w verify s)
  by_decision w verify s s' x y ex ey (err _) e = tt
  by_decision w verify s s' x y ex ey (ok (r, c)) e =
      let (a, b, ea, eb) = both_read x y r c e in
      go_on-OkRecovers w verify s s' a b r c (ex ∙ ea) (ey ∙ eb) (
        ap₂
          (λ (u v : Result AnchorRecord E). adopted_or_error (decide (as_corrupt u) (as_corrupt v)))
          (sym ea) (sym eb)
        ∙ e)

  -- A recovery that succeeds, with or without a watermark, has read both copies and adopted what
  -- `decide` says of them: one of the two, of the same book and behind neither in pointer or
  -- generation, not below the watermark, and verified against the book where it is a commit. The copy
  -- that was behind reads back as the adopted record, after which nothing else is done.
  pub recover_with_options-Recovers :
      (w : Option ℕ) (verify : AnchorRecord → Bool) (s t : S) (report : RecoveryReport)
      → recover_with_options stores w verify s ≡ (ok report, t)
      → Recovers stores w verify s report t
  unfolding recover_with_options
  recover_with_options-Recovers w verify s t report e =
      Ends-at (recover_with_options stores w verify) s (OkRecovers w verify s) e
        (by_decision w verify s _ _ _ refl refl _ refl)

  -- The state after both reads.
  abbrev pub after_reads : S → S
  after_reads s = (stores.read_verified copy_b (stores.read_verified copy_a s).1).1

  abbrev pub IsQuarantined : Result RecoveryReport RecoveryError → Type 0
  IsQuarantined r =
      (copy : Option AnchorCopy) × (why : RecoveryReason) × (r ≡ err (quarantined copy why))

  unread :
      (w : Option ℕ) (verify : AnchorRecord → Bool) (s' : S) (x y : Result AnchorRecord E)
      → ((e : E) × (x ≡ err e)) ⊎ ((e : E) × (y ≡ err e))
      → (let p =
            (from_result (adopted_or_error (decide (as_corrupt x) (as_corrupt y)))
                >>= (λ (q : AnchorRecord × Option AnchorCopy). go_on stores w verify q.0 q.1))
              s' in
          IsQuarantined p.0 × (p.1 ≡ s'))
  unfolding decide
  unread w verify s' (ok a) (ok b) (inl (e, h)) = absurd cc
  unread w verify s' (ok a) (ok b) (inr (e, h)) = absurd cc
  unread w verify s' (ok a) (err _) _ = ((_, _, refl), refl)
  unread w verify s' (err _) (ok b) _ = ((_, _, refl), refl)
  unread w verify s' (err _) (err _) _ = ((_, _, refl), refl)

  -- Where one of the copies cannot be read, the recovery ends in a quarantine, and it does nothing but
  -- the two reads: no copy is repaired from the other one.
  pub recover_with_options-unread :
      (w : Option ℕ) (verify : AnchorRecord → Bool) (s : S)
      → ((e : E) × ((stores.read_verified copy_a s).0 ≡ err e))
        ⊎ ((e : E) × ((stores.read_verified copy_b (stores.read_verified copy_a s).1).0 ≡ err e))
      → IsQuarantined (recover_with_options stores w verify s).0
        × ((recover_with_options stores w verify s).1 ≡ after_reads s)
  unfolding recover_with_options
  recover_with_options-unread w verify s h = unread w verify (after_reads s) _ _ h
