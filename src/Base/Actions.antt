-- ===== src/Base/Actions.antt =====
-- Rules for the actions of Base/State: a postcondition of the answer and of the state left, for
-- the runs that succeed and for those that fail.
use mathlib.Core.Path.{◌≡◌, refl, subst}
use mathlib.Core.Bool.{Bool, true, false}
use mathlib.Core.Option.{Option, none, some}
use jbuu.Base.Result.{Result, ok, err}
use jbuu.Base.State.{Action, continue_with, or_raise, raise_if, ◌>>=◌, ◌>>◌}

abbrev pub Post : Type 0 → Type 0 → Type 0 → Type 1
Post S E A = Result A E → S → Type 0

module _ {S E A : Type 0} where
  -- The run of `m` from `s` ends in the postcondition.
  abbrev pub Ends : Action S E A → S → Post S E A → Type 0
  Ends m s Q = Q (m s).0 (m s).1

  pub Ends-mono :
      (m : Action S E A) (s : S) (P Q : Post S E A)
      → ((r : Result A E) (t : S) → P r t → Q r t)
      → Ends m s P
      → Ends m s Q
  Ends-mono m s P Q f h = f (m s).0 (m s).1 h

  pub Ends-at :
      (m : Action S E A) (s : S) (Q : Post S E A) {r : Result A E} {t : S}
      → m s ≡ (r, t)
      → Ends m s Q
      → Q r t
  Ends-at m s Q e h = subst (λ (p : Result A E × S). Q p.0 p.1) e h

  Ends-split :
      (p : Result A E × S) (Q : Post S E A)
      → ((a : A) (t : S) → p ≡ (ok a, t) → Q (ok a) t)
      → ((e : E) (t : S) → p ≡ (err e, t) → Q (err e) t)
      → Q p.0 p.1
  Ends-split (ok a, t) Q succeeds fails = succeeds a t refl
  Ends-split (err e, t) Q succeeds fails = fails e t refl

  pub Ends-cases :
      (m : Action S E A) (s : S) (Q : Post S E A)
      → ((a : A) (t : S) → m s ≡ (ok a, t) → Q (ok a) t)
      → ((e : E) (t : S) → m s ≡ (err e, t) → Q (err e) t)
      → Ends m s Q
  Ends-cases m s Q succeeds fails = Ends-split (m s) Q succeeds fails

module _ {S E A B : Type 0} where
  -- What the first of two actions has to end in.
  abbrev pub Then : (A → Action S E B) → Post S E B → Post S E A
  Then f Q (ok a) t = Ends (f a) t Q
  Then f Q (err e) t = Q (err e) t

  Then-split :
      (f : A → Action S E B) (Q : Post S E B) (p : Result A E × S)
      → Then f Q p.0 p.1
      → Q (continue_with f p).0 (continue_with f p).1
  Then-split f Q (ok a, t) h = h
  Then-split f Q (err e, t) h = h

  pub Ends->>= :
      (m : Action S E A) (f : A → Action S E B) (s : S) (Q : Post S E B)
      → Ends m s (Then f Q)
      → Ends (m >>= f) s Q
  Ends->>= m f s Q h = Then-split f Q (m s) h

  -- `?` by the two answers of its action.
  pub Ends-step :
      (m : Action S E A) (f : A → Action S E B) (s : S) (Q : Post S E B)
      → ((a : A) (t : S) → m s ≡ (ok a, t) → Ends (f a) t Q)
      → ((e : E) (t : S) → m s ≡ (err e, t) → Q (err e) t)
      → Ends (m >>= f) s Q
  Ends-step m f s Q succeeds fails = Ends->>= m f s Q (Ends-cases m s (Then f Q) succeeds fails)

-- Two actions and a third, put together the other way.
pub Ends-assoc :
    {S E A B C : Type 0} (m : Action S E A) (f : A → Action S E B) (g : B → Action S E C) (s : S)
    (Q : Post S E C)
    → Ends (m >>= (λ a. f a >>= g)) s Q
    → Ends ((m >>= f) >>= g) s Q
Ends-assoc {S} {E} {A} {B} {C} m f g s Q h = by_run (m s) h
  where
    by_run :
        (p : Result A E × S)
        → (let q = continue_with (λ a. f a >>= g) p in Q q.0 q.1)
        → (let q = continue_with g (continue_with f p) in Q q.0 q.1)
    by_run (ok a, t) k = k
    by_run (err e, t) k = k

module _ {S E B : Type 0} where
  pub Ends-raise_if :
      (b : Bool) (e : E) (k : Action S E B) (s : S) (Q : Post S E B)
      → (b ≡ true → Q (err e) s)
      → (b ≡ false → Ends k s Q)
      → Ends (raise_if b e >> k) s Q
  Ends-raise_if true e k s Q raises passes = raises refl
  Ends-raise_if false e k s Q raises passes = passes refl

  -- A guard that fails.
  pub raise_if-true :
      (b : Bool) (e : E) (k : Action S E B) (s : S) → b ≡ true → (raise_if b e >> k) s ≡ (err e, s)
  raise_if-true true e k s h = refl
  raise_if-true false e k s h = absurd cc

  pub Ends-or_raise :
      {A : Type 0} (o : Option A) (e : E) (f : A → Action S E B) (s : S) (Q : Post S E B)
      → (o ≡ none → Q (err e) s)
      → ((a : A) → o ≡ some a → Ends (f a) s Q)
      → Ends (or_raise o e >>= f) s Q
  Ends-or_raise none e f s Q raises passes = raises refl
  Ends-or_raise (some a) e f s Q raises passes = passes a refl
