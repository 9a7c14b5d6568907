-- ===== src/Allocator/Steps.antt =====
-- crates/otp-book/src/allocator.rs: the rules of Base/Actions for the parts of the core.
use jbuu.Base.{
  subst, sym, checked_add-eq-some, checked_add-fits, ℕ, ◌+◌, ◌<◌, ◌≡◌, refl, u64_limit, Option,
  none, some, checked_add,
}
use jbuu.Base.Result.{Result, ok, err}
use jbuu.Base.State.{Action, or_raise, on_error, ◌>>=◌}
use jbuu.Base.Actions.{Post, Ends}
use jbuu.Base.Bytes.{Bytes}
use jbuu.Anchor.{AnchorRecord, intent_of, intent_record, intent_record-eq}
use jbuu.Types.{segment_next}
use jbuu.Allocator.Interfaces.{persistence_uncertain, Stop, failed, panicked}
use jbuu.Allocator.Transaction.{Core, on_media, on_reader, halt, next_generation}

module _ {M R E F A B : Type 0} where
  pub Ends-on_media :
      (f : Action M E A) (e : F) (leave : Core M R → Core M R) (k : A → Action (Core M R) F B)
      (c : Core M R) (Q : Post (Core M R) F B)
      → ((a : A) (m : M) → f c.media ≡ (ok a, m) → Ends (k a) (record c { media = m }) Q)
      → ((x : E) (m : M) → f c.media ≡ (err x, m) → Q (err e) (leave (record c { media = m })))
      → Ends (on_error (on_media f) e leave >>= k) c Q
  Ends-on_media f e leave k c Q succeeds fails = split (f c.media) succeeds fails
    where
      split :
          (p : Result A E × M)
          → ((a : A) (m : M) → p ≡ (ok a, m) → Ends (k a) (record c { media = m }) Q)
          → ((x : E) (m : M) → p ≡ (err x, m) → Q (err e) (leave (record c { media = m })))
          → Ends (on_error (on_media (λ _. p)) e leave >>= k) c Q
      split (ok a, m) succeeds fails = succeeds a m refl
      split (err x, m) succeeds fails = fails x m refl

  pub Ends-on_reader :
      (f : Action R E A) (e : F) (leave : Core M R → Core M R) (k : A → Action (Core M R) F B)
      (c : Core M R) (Q : Post (Core M R) F B)
      → ((a : A) (m : R) → f c.reader ≡ (ok a, m) → Ends (k a) (record c { reader = m }) Q)
      → ((x : E) (m : R) → f c.reader ≡ (err x, m) → Q (err e) (leave (record c { reader = m })))
      → Ends (on_error (on_reader f) e leave >>= k) c Q
  Ends-on_reader f e leave k c Q succeeds fails = split (f c.reader) succeeds fails
    where
      split :
          (p : Result A E × R)
          → ((a : A) (m : R) → p ≡ (ok a, m) → Ends (k a) (record c { reader = m }) Q)
          → ((x : E) (m : R) → p ≡ (err x, m) → Q (err e) (leave (record c { reader = m })))
          → Ends (on_error (on_reader (λ _. p)) e leave >>= k) c Q
      split (ok a, m) succeeds fails = succeeds a m refl
      split (err x, m) succeeds fails = fails x m refl

module _ {M R B : Type 0} where
  pub Ends-next_generation :
      (k : ℕ → Action (Core M R) Stop B) (c : Core M R) (Q : Post (Core M R) Stop B)
      → Q (err (failed persistence_uncertain)) (halt c)
      → (c.current.generation + 1 < u64_limit → Ends (k (c.current.generation + 1)) c Q)
      → Ends (next_generation c >>= k) c Q
  Ends-next_generation k c Q fails succeeds = split (checked_add c.current.generation 1) (λ a e.
      let (same, fits) = checked_add-eq-some c.current.generation 1 e in
      subst (λ (g : ℕ). Ends (k g) c Q) (sym same) (succeeds fits))
    where
      split :
          (o : Option ℕ)
          → ((a : ℕ) → o ≡ some a → Ends (k a) c Q)
          → Ends (on_error (or_raise o tt) (failed persistence_uncertain) halt >>= k) c Q
      split none passes = fails
      split (some a) passes = passes a refl

  -- The intent of a segment of the book, whose number has a successor.
  pub Ends-intent :
      (book_id : Bytes) (generation n : ℕ) (k : AnchorRecord → Action (Core M R) Stop B)
      (c : Core M R) (Q : Post (Core M R) Stop B)
      → n + 1 < u64_limit
      → Ends (k (intent_of book_id generation n)) c Q
      → Ends (or_raise (intent_record book_id generation n) panicked >>= k) c Q
  Ends-intent book_id generation n k c Q h ends =
      subst (λ (o : Option AnchorRecord). Ends (or_raise o panicked >>= k) c Q)
        (sym (intent_record-eq book_id generation n h)) ends

  pub Ends-segment_next :
      (n : ℕ) (k : ℕ → Action (Core M R) Stop B) (c : Core M R) (Q : Post (Core M R) Stop B)
      → n + 1 < u64_limit
      → Ends (k (n + 1)) c Q
      → Ends (or_raise (segment_next n) panicked >>= k) c Q
  Ends-segment_next n k c Q h ends =
      subst (λ (o : Option ℕ). Ends (or_raise o panicked >>= k) c Q) (sym (checked_add-fits n 1 h))
        ends
