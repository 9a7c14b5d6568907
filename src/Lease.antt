-- ===== src/Lease.antt =====
-- crates/otp-terminal/src/lease.rs: the write lease of a terminal and its fencing tokens. Each method
-- runs under the lock, so that it is one step on the state; the clock is an argument.
pub mod Fencing
mod Tests
use jbuu.Base.{
  ℕ, ◌-◌, ◌≡◌, Bool, true, false, not, ◌&&◌, ◌||◌, ◌==◌, ltb, Option, none, some, if◌then◌else◌,
  checked_add,
}
use jbuu.Base.Result.{Result, ok, err}

-- `LeaseInner`
pub record Lease : Type 0 where
  pub token : ℕ
  pub holder : Option ℕ
  pub last_seen : ℕ
  pub abandoned : Bool

pub data LeaseError : Type 0 where
  -- holder, token
  busy : ℕ → ℕ → LeaseError
  stale_writer : LeaseError
  -- the `expect` on the 2^64th grant
  token_overflow : LeaseError

-- `LeaseManager::new`; the timeout, which it asserts to be positive, is an argument of the methods.
abbrev pub new : ℕ → Lease
new now = record { token = 0; holder = none; last_seen = now; abandoned = true }

-- `LeaseManager::is_expired`; `elapsed` is 0 where the clock is behind.
abbrev pub is_expired : ℕ → ℕ → Lease → Bool
is_expired timeout now l = ltb timeout (now - l.last_seen)

-- The holder that an `acquire` has to leave alone.
unfoldable pub active_holder : ℕ → ℕ → Lease → Option ℕ
active_holder timeout now l = elim l.holder [
  | none ↦ none
  | some h ↦ if not l.abandoned && not (is_expired timeout now l) then some h else none
]

-- The grant, with the token after the last one.
abbrev pub grant : Option ℕ → ℕ → ℕ → Lease → Result ℕ LeaseError × Lease
grant none now conn l = (err token_overflow, l)
grant (some token) now conn l =
    (ok token, record { token = token; holder = some conn; last_seen = now; abandoned = false })

abbrev pub acquire_unless : Option ℕ → ℕ → ℕ → Lease → Result ℕ LeaseError × Lease
acquire_unless (some h) now conn l = (err (busy h l.token), l)
acquire_unless none now conn l = grant (checked_add l.token 1) now conn l

-- `LeaseManager::acquire`
unfoldable pub acquire : ℕ → ℕ → ℕ → Lease → Result ℕ LeaseError × Lease
acquire timeout now conn l = acquire_unless (active_holder timeout now l) now conn l

-- The test of `heartbeat` and of `with_write_gate`.
unfoldable pub is_stale : ℕ → ℕ → ℕ → Lease → Bool
is_stale timeout now token l = not (l.token == token) || (l.abandoned || is_expired timeout now l)

-- `LeaseManager::heartbeat`
unfoldable pub heartbeat : ℕ → ℕ → ℕ → Lease → Result (Unit {0}) LeaseError × Lease
heartbeat timeout now token l =
    if is_stale timeout now token l
    then (err stale_writer, l)
    else (ok tt, record l { last_seen = now })

-- `LeaseManager::is_current`
unfoldable pub is_current : ℕ → ℕ → ℕ → Lease → Bool
is_current timeout now token l =
    (l.token == token) && (not l.abandoned && not (is_expired timeout now l))

-- `LeaseManager::with_write_gate`: the action runs only behind the test.
unfoldable pub with_write_gate :
    {A : Type 0} → ℕ → ℕ → ℕ → Lease → Result A LeaseError → Result A LeaseError
with_write_gate timeout now token l action =
    if is_stale timeout now token l then err stale_writer else action

-- `LeaseGrant::drop`
unfoldable pub drop_grant : ℕ → Lease → Lease
drop_grant token l =
    if (l.token == token) && not l.abandoned then record l { abandoned = true } else l
