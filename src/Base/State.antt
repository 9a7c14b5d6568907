-- ===== src/Base/State.antt =====
-- State passing with errors: an action answers a result and the state it leaves, also on an error.
use mathlib.Core.Bool.{Bool, true, false}
use mathlib.Core.Option.{Option, none, some}
use jbuu.Base.Result.{Result, ok, err}

abbrev pub Action : Type 0 → Type 0 → Type 0 → Type 0
Action S E A = S → Result A E × S

module _ {S E A : Type 0} where
  abbrev pub pure : A → Action S E A
  pure a s = (ok a, s)

  abbrev pub raise : E → Action S E A
  raise e s = (err e, s)

  abbrev pub or_raise : Option A → E → Action S E A
  or_raise none e s = (err e, s)
  or_raise (some a) e s = (ok a, s)

-- `map_err`, with a change of the state on the error path.
abbrev pub map_error : {S E F A : Type 0} → F → (S → S) → Result A E × S → Result A F × S
map_error f leave (ok a, s) = (ok a, s)
map_error f leave (err _, s) = (err f, leave s)

abbrev pub on_error : {S E F A : Type 0} → Action S E A → F → (S → S) → Action S F A
on_error m f leave s = map_error f leave (m s)

-- `?` and what follows it.
abbrev pub continue_with : {S E A B : Type 0} → (A → Action S E B) → Result A E × S → Result B E × S
continue_with f (ok a, s) = f a s
continue_with f (err e, s) = (err e, s)

infixl 5 ◌>>=◌ ◌>>◌
abbrev pub ◌>>=◌ : {S E A B : Type 0} → Action S E A → (A → Action S E B) → Action S E B
◌>>=◌ m f s = continue_with f (m s)

abbrev pub ◌>>◌ : {S E A B : Type 0} → Action S E A → Action S E B → Action S E B
m >> k = m >>= λ _. k

module _ {S E : Type 0} where
  abbrev pub raise_if : Bool → E → Action S E (Unit {0})
  raise_if true e s = (err e, s)
  raise_if false e s = (ok tt, s)

  abbrev pub get : Action S E S
  get s = (ok s, s)

  abbrev pub modify : (S → S) → Action S E (Unit {0})
  modify f s = (ok tt, f s)
