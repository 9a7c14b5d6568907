-- ===== src/Lease/Fencing.antt =====
-- crates/otp-terminal/src/lease.rs: the promise of the fencing tokens over any sequence of calls.
use jbuu.Base.{
  ℕ, ◌+◌, ◌≡◌, refl, subst, arith, true, Option, none, some, List, [], ◌∷◌, checked_add,
  checked_add-eq-some,
}
use jbuu.Base.Result.{Result, ok, err}
use jbuu.Lease.{
  Lease, LeaseError, busy, active_holder, grant, acquire_unless, acquire, is_stale, heartbeat,
  is_current, with_write_gate, drop_grant,
}

pub data Event : Type 0 where
  -- now, connection
  acquire_event : ℕ → ℕ → Event
  -- now, token
  heartbeat_event : ℕ → ℕ → Event
  write_event : ℕ → ℕ → Event
  drop_event : ℕ → Event

-- What an event lets happen: a token is granted, or a write with a token passes the gate.
pub data Effect : Type 0 where
  granted : ℕ → Effect
  written : ℕ → Effect
  no_effect : Effect

abbrev granted_token : Result ℕ LeaseError → Effect
granted_token (ok t) = granted t
granted_token (err _) = no_effect

abbrev written_token : Result ℕ LeaseError → Effect
written_token (ok t) = written t
written_token (err _) = no_effect

unfoldable pub step : ℕ → Event → Lease → Effect × Lease
step timeout (acquire_event now conn) l =
    let (r, l') = acquire timeout now conn l in (granted_token r, l')
step timeout (heartbeat_event now token) l = (no_effect, (heartbeat timeout now token l).1)
step timeout (write_event now token) l =
    (written_token (with_write_gate timeout now token l (ok token)), l)
step timeout (drop_event token) l = (no_effect, drop_grant token l)

unfoldable pub run : ℕ → List Event → Lease → List Effect
run timeout [] l = []
run timeout (x ∷ xs) l = let (e, l') = step timeout x l in e ∷ run timeout xs l'

-- The effects in the time of token `n`: a grant opens the time of the next token, and a write is one
-- of the token of its time.
abbrev pub Fenced : ℕ → List Effect → Type 0
Fenced n [] = Unit {0}
Fenced n (granted t ∷ es) = (t ≡ n + 1) × Fenced t es
Fenced n (written t ∷ es) = (t ≡ n) × Fenced n es
Fenced n (no_effect ∷ es) = Fenced n es

-- One step, as `Fenced` sees it.
abbrev Fits : Lease → Effect → Lease → Type 0
Fits l (granted t) l' = (t ≡ l.token + 1) × (l'.token ≡ t)
Fits l (written t) l' = (t ≡ l.token) × (l'.token ≡ l.token)
Fits l no_effect l' = l'.token ≡ l.token

grant-Fits :
    (now conn : ℕ) (l : Lease) (o : Option ℕ)
    → checked_add l.token 1 ≡ o
    → Fits l (granted_token (grant o now conn l).0) (grant o now conn l).1
grant-Fits now conn l none h = refl
grant-Fits now conn l (some t) h = ((checked_add-eq-some l.token 1 h).0, refl)

acquire_unless-Fits :
    (o : Option ℕ) (now conn : ℕ) (l : Lease)
    → Fits l (granted_token (acquire_unless o now conn l).0) (acquire_unless o now conn l).1
acquire_unless-Fits (some h) now conn l = refl
acquire_unless-Fits none now conn l = grant-Fits now conn l _ refl

step-Fits : (timeout : ℕ) (x : Event) (l : Lease) → Fits l (step timeout x l).0 (step timeout x l).1
unfolding step acquire heartbeat with_write_gate is_stale drop_grant
step-Fits timeout (acquire_event now conn) l =
    acquire_unless-Fits (active_holder timeout now l) now conn l
step-Fits timeout (heartbeat_event now token) l = ground arith
step-Fits timeout (write_event now token) l = ground arith
step-Fits timeout (drop_event token) l = ground arith

-- Over any sequence of calls, each grant is of the next token and every write that passes the gate
-- carries the token that was granted last: once a newer token is granted, an older one writes no more.
pub run-Fenced : (timeout : ℕ) (xs : List Event) (l : Lease) → Fenced l.token (run timeout xs l)
unfolding run
run-Fenced timeout [] l = tt
run-Fenced timeout (x ∷ xs) l =
    let w = step timeout x l in fenced w.0 w.1 (step-Fits timeout x l) (run-Fenced timeout xs w.1)
  where
    fenced :
        (e : Effect) (l' : Lease)
        → Fits l e l'
        → Fenced l'.token (run timeout xs l')
        → Fenced l.token (e ∷ run timeout xs l')
    fenced (granted t) l' (e, f) rest = (e, subst (λ (n : ℕ). Fenced n (run timeout xs l')) f rest)
    fenced (written t) l' (e, f) rest = (e, subst (λ (n : ℕ). Fenced n (run timeout xs l')) f rest)
    fenced no_effect l' f rest = subst (λ (n : ℕ). Fenced n (run timeout xs l')) f rest

-- While there is a holder and the token is current, no connection gets the lease, and nothing changes.
acquire_busy :
    (timeout now conn h : ℕ) (l : Lease)
    → l.holder ≡ some h
    → is_current timeout now l.token l ≡ true
    → acquire timeout now conn l ≡ (err (busy h l.token), l)
unfolding acquire active_holder is_current
acquire_busy timeout now conn h l has current = ground arith
