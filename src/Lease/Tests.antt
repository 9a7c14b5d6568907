-- ===== src/Lease/Tests.antt =====
-- Runs of the write lease (crates/otp-terminal/src/lease.rs).
use jbuu.Base.{◌≡◌, refl, some, true, false, List, [], ◌∷◌}
use jbuu.Lease.{Lease, new, active_holder, acquire, is_stale, is_current, with_write_gate}
use jbuu.Lease.Fencing.{
  Event, acquire_event, write_event, granted, written, no_effect, step, run, Fenced, run-Fenced,
}

-- With a timeout of 10: the second connection takes over after 11, and the first is fenced.
abbrev script : List Event
script =
    acquire_event 0 7
    ∷ write_event 1 1
    ∷ acquire_event 5 8
    ∷ acquire_event 11 8
    ∷ write_event 12 1
    ∷ write_event 12 2
    ∷ []

run-script :
    run 10 script (new 0)
    ≡ granted 1 ∷ written 1 ∷ no_effect ∷ granted 2 ∷ no_effect ∷ written 2 ∷ []
unfolding run step acquire active_holder with_write_gate is_stale
run-script = refl

run-Fenced_example : Fenced 0 (run 10 script (new 0))
run-Fenced_example = run-Fenced 10 script (new 0)

abbrev held : Lease
held = record { token = 3; holder = some 7; last_seen = 20; abandoned = false }

held-current : is_current 10 25 3 held ≡ true
unfolding is_current
held-current = refl
