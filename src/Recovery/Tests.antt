-- ===== src/Recovery/Tests.antt =====
-- Recoveries (crates/otp-recovery) over two records in memory.
use jbuu.Base.{ℕ, ◌≡◌, refl, Option, none, some, true, [], ◌∷◌, inr}
use jbuu.Base.Result.{Result, ok, err}
use jbuu.Base.Bytes.{bytes_eq}
use jbuu.Anchor.{AnchorRecord, init_payload, record_eq, payload_eq, state_cmp}
use jbuu.Anchor.Decide.{AnchorCopy, copy_a, copy_b, decide, decide_order}
use jbuu.Recovery.{AnchorStores, report_of, repair_copy, go_on, recover_with_options}
use jbuu.Recovery.Adoption.{
  Recovers, IsQuarantined, recover_with_options-Recovers, recover_with_options-unread,
}

-- What the copies A and B hold, if they can be read.
abbrev Memory : Type 0
Memory = Option AnchorRecord × Option AnchorRecord

abbrev answer_of : Option AnchorRecord → Result AnchorRecord (Unit {0})
answer_of none = err tt
answer_of (some r) = ok r

abbrev read_copy : AnchorCopy → Memory → Result AnchorRecord (Unit {0}) × Memory
read_copy copy_a m = (answer_of m.0, m)
read_copy copy_b m = (answer_of m.1, m)

abbrev write_copy : AnchorCopy → AnchorRecord → Memory → Result (Unit {0}) (Unit {0}) × Memory
write_copy copy_a r m = (ok tt, (some r, m.1))
write_copy copy_b r m = (ok tt, (m.0, some r))

abbrev memory : AnchorStores Memory (Unit {0})
memory = record {
  read_verified = read_copy;
  write_full_and_sync = write_copy;
  sync_parent_if_created = λ copy m. (ok tt, m);
}

abbrev at_pointer : ℕ → AnchorRecord
at_pointer n = record { generation = n; next = n; book_id = 1 ∷ []; payload = init_payload }

abbrev apart : Memory
apart = (some (at_pointer 3), some (at_pointer 5))

recovers-apart :
    recover_with_options memory (some 4) (λ _. true) apart
    ≡ (ok (report_of (at_pointer 5) (some copy_a)), (some (at_pointer 5), some (at_pointer 5)))
unfolding recover_with_options go_on repair_copy decide decide_order state_cmp bytes_eq record_eq
    payload_eq
recovers-apart = refl

recover_with_options-Recovers_example :
    Recovers memory
      (some 4)
      (λ _. true)
      apart
      (report_of (at_pointer 5) (some copy_a))
      (some (at_pointer 5), some (at_pointer 5))
recover_with_options-Recovers_example =
    recover_with_options-Recovers memory (some 4) (λ _. true) apart _ _ recovers-apart

abbrev torn : Memory
torn = (some (at_pointer 3), none)

recover_with_options-unread_example :
    IsQuarantined memory (recover_with_options memory none (λ _. true) torn).0
    × ((recover_with_options memory none (λ _. true) torn).1 ≡ torn)
recover_with_options-unread_example =
    recover_with_options-unread memory none (λ _. true) torn (inr (tt, refl))
