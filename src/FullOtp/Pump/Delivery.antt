-- ===== src/FullOtp/Pump/Delivery.antt =====
-- crates/otp-fullotp/src/pump.rs: two pumps in step, and the stream that the receiver takes for a
-- record.
pub mod Records
use jbuu.Base.{
  ℕ, ◌+◌, ◌%◌, ◌≡◌, ◌≤◌, ◌<◌, refl, sym, subst, ap, ◌∙◌, ◌⊎◌, inl, inr, arith, Bool, true, false,
  not, ◌&&◌, ◌==◌, if◌then◌else◌, Option, none, some, List, length, take, min, checked_add,
  checked_add-eq-some, u64_limit,
}
use jbuu.Base.Result.{Result, ok, err}
use jbuu.Base.State.{Action, continue_with, ◌>>=◌}
use jbuu.Base.Actions.{Post, Ends, Ends-at, Ends-raise_if}
use jbuu.Base.Bytes.{Bytes}
use jbuu.Types.{
  Direction, client_to_server, server_to_client, Role, client, role_eq, opposite, send_direction,
  direction_eq,
}
use jbuu.Session.State.{Both, at}
use jbuu.FullOtp.{OtpDataRecord, encode_otp, decode_otp}
use jbuu.FullOtp.Error.{OtpError, wrong_direction, wrong_bundle, closed, SendError, Stop, fails}
use jbuu.FullOtp.Pad.{PadStream, below_low_water}
use jbuu.FullOtp.Pad.Burning.{behind}
use jbuu.FullOtp.Record.{open_record}
use jbuu.FullOtp.Record.RoundTrip.{
  sealed, expected_of, IsTypedStream, TagSize, decode_otp-sealed, open_record-seal_record,
  text_size,
}
use jbuu.FullOtp.Pump.{
  DirPlane, FullOtpPump, SendOutcome, sent, Received, current_of, next_of, with_plane, is_some,
  next_ready_for_send, switch, switch_to, switched, is_bundle, count_consumed, on_current, or_fail,
  reject_if, follow, advance_recv, send, receive,
}
use jbuu.FullOtp.Pump.Invariant.{
  IsLive, IsWell, IsWellAs, IsPlane-of, current_of-with_plane, refresh_ack_state-kept,
  switched-IsLive, Follows,
}
use jbuu.FullOtp.Pump.Sending.{
  InPlace, InPlace-IsLive, Sends, send-SendEnds, chunk, chunk_len, chunk_fits, after_send,
  record_of,
}
use jbuu.FullOtp.Pump.Receiving.{recv_way, expectation, after_receive}
use jbuu.FullOtp.Pump.Receiving.Branches.{Ends-reject_if}

-- The receiver is open and in step with the sender: it reads the other way, expects the number that is
-- sent next, holds the same stream, and the same next one where the sender may switch to it.
pub record InSync (p q : FullOtpPump) : Type 0 where
  pub opened : q.is_closed ≡ false
  pub way : recv_way q ≡ send_direction p.role
  pub number : q.recv_seq ≡ p.send_seq
  pub stream : current_of (recv_way q) q ≡ current_of (send_direction p.role) p
  pub next :
      next_ready_for_send (send_direction p.role) p ≡ true
      → next_of (recv_way q) q ≡ next_of (send_direction p.role) p

-- The run of two actions where the first one succeeds.
pub Ends-run :
    {S E A B : Type 0} (m : Action S E A) (f : A → Action S E B) (s : S) (Q : Post S E B) {a : A}
    {t : S}
    → m s ≡ (ok a, t)
    → Ends (f a) t Q
    → Ends (m >>= f) s Q
Ends-run {S} {E} {A} m f s Q e h =
    subst (λ (x : Result A E × S). Q (continue_with f x).0 (continue_with f x).1) (sym e) h

follow-stays :
    (d : Direction) (id : ℕ) (q : FullOtpPump)
    → (id == ((current_of d q).bundle_id + 1) % u64_limit) ≡ false
    → follow d id q ≡ (ok tt, q)
follow-stays d id q h = rw h refl

follow-switches :
    (d : Direction) (id : ℕ) (q : FullOtpPump) (n : PadStream)
    → (id == ((current_of d q).bundle_id + 1) % u64_limit) ≡ true
    → next_of d q ≡ some n
    → (n.bundle_id == id) ≡ true
    → follow d id q ≡ (ok tt, switched d n q)
follow-switches d id q n h e same = rw h (
    subst
      (λ (o : Option PadStream).
        continue_with (λ (_ : Unit {0}). switch d)
          (reject_if (not (is_bundle o id)) (fails wrong_bundle) q)
        ≡ (ok tt, switched d n q))
      (sym e)
      (rw same (
        subst (λ (o : Option PadStream). switch_to {E = OtpError} o d q ≡ (ok tt, switched d n q))
          (sym e) refl)))

-- The bases of the streams that the pump may send from are u64.
abbrev pub IsTypedSide : FullOtpPump → Type 0
IsTypedSide p =
    let d = send_direction p.role in
    ((current_of d p).base_segment < u64_limit)
    × ((n : PadStream) → next_of d p ≡ some n → n.base_segment < u64_limit)

-- The pump of the receiver for a record that the sender takes from `P`.
pub record Placed (p q P Q : FullOtpPump) : Type 0 where
  pub follows : follow (recv_way q) (current_of (send_direction p.role) P).bundle_id q ≡ (ok tt, Q)
  pub stream : current_of (recv_way q) Q ≡ current_of (send_direction p.role) P
  pub role : Q.role ≡ q.role
  pub number : Q.recv_seq ≡ q.recv_seq
  pub opened : Q.is_closed ≡ q.is_closed
  pub sender_role : P.role ≡ p.role
  pub base : (current_of (send_direction p.role) P).base_segment < u64_limit
  pub next_base :
      (n : PadStream) → next_of (send_direction p.role) P ≡ some n → n.base_segment < u64_limit
  pub next :
      next_ready_for_send (send_direction p.role) P ≡ true
      → next_of (recv_way q) Q ≡ next_of (send_direction p.role) P

pub bundle_room :
    (limit : ℕ) (s : PadStream) (o : Option PadStream) → Follows limit s o → s.bundle_id + 1 ≤ limit
bundle_room limit s none h = omega arith
bundle_room limit s (some n) h = omega arith

-- A switch, of either side.
switched_parts :
    (d : Direction) (n : PadStream) (p : FullOtpPump)
    → (current_of d (switched d n p) ≡ n) × (next_of d (switched d n p) ≡ none)
switched_parts d n p =
    let planes = (refresh_ack_state-kept (with_plane d n none p)).0 in
    let (here, gone) = current_of-with_plane d n none p in
    (
      ap (λ (x : Both DirPlane). (at d x).current) planes ∙ here,
      ap (λ (x : Both DirPlane). (at d x).next) planes ∙ gone,
    )

not_ready : (o : Option PadStream) (b : Bool) → o ≡ none → (is_some o && b) ≡ true → ⊥
not_ready none b e h = absurd cc
not_ready (some n) b e h = absurd cc

module _ (p q : FullOtpPump) (h : IsLive p) (sync : InSync p q) (typed : IsTypedSide p) where
  abbrev pub out : Direction
  out = send_direction p.role

  abbrev pub way_in : Direction
  way_in = recv_way q

  pub Placed-stays : Placed p q p q
  Placed-stays =
      let x = current_of out p in
      let room = bundle_room p.next_bundle_id x (next_of out p) (IsPlane-of out p h).follows in
      let few = h.room in
      record {
        follows = follow-stays way_in x.bundle_id q (
            subst (λ (s : PadStream). (x.bundle_id == (s.bundle_id + 1) % u64_limit) ≡ false)
              (sym sync.stream) (ground arith));
        stream = sync.stream;
        role = refl;
        number = refl;
        opened = refl;
        sender_role = refl;
        base = typed.0;
        next_base = typed.1;
        next = sync.next;
      }

  pub Placed-switched :
      (n : PadStream)
      → next_of out p ≡ some n
      → next_ready_for_send out p ≡ true
      → Placed p q (switched out n p) (switched way_in n q)
  Placed-switched n e ready =
      let (here, gone) = switched_parts out n p in
      let (there, _) = switched_parts way_in n q in
      let (_, sender_role, _, _, _, _) = refresh_ack_state-kept (with_plane out n none p) in
      let (_, role, _, number, _, opened) = refresh_ack_state-kept (with_plane way_in n none q) in
      let follows : Follows p.next_bundle_id (current_of out p) (some n) =
        subst (Follows p.next_bundle_id (current_of out p)) e (IsPlane-of out p h).follows in
      let few = h.room in
      record {
        follows =
            subst (λ (x : PadStream). follow way_in x.bundle_id q ≡ (ok tt, switched way_in n q))
              (sym here)
              (follow-switches way_in n.bundle_id q n
                (subst (λ (s : PadStream). (n.bundle_id == (s.bundle_id + 1) % u64_limit) ≡ true)
                  (sym sync.stream)
                  (next_named (current_of out p) n follows.1 (omega (arith, follows.2))))
                (sync.next ready ∙ e) (ground arith));
        stream = there ∙ sym here;
        role = role;
        number = number;
        opened = opened;
        sender_role = sender_role;
        base = subst (λ (x : PadStream). x.base_segment < u64_limit) (sym here) (typed.1 n e);
        next_base = λ m f. let g = sym gone ∙ f in absurd cc;
        next = λ r. absurd (not_ready _ _ gone r);
      }
    where
      next_named :
          (x n : PadStream)
          → x.bundle_id + 1 ≡ n.bundle_id
          → n.bundle_id < u64_limit
          → (n.bundle_id == (x.bundle_id + 1) % u64_limit) ≡ true
      next_named x n e room = ground arith
