-- ===== src/FullOtp/Pump/Delivery/Records.antt =====
-- crates/otp-fullotp/src/pump.rs: what `receive` makes of a record of `send`.
use jbuu.Base.{
  ℕ, ◌≡◌, ◌<◌, refl, sym, subst, ap, ◌∙◌, inl, inr, arith, Bool, true, false, not, ◌&&◌,
  if◌then◌else◌, Option, some, length, take, checked_add, checked_add-eq-some, u64_limit,
}
use jbuu.Base.Result.{Result, ok}
use jbuu.Base.Actions.{Post, Ends, Ends-at, Ends-raise_if}
use jbuu.Base.Bytes.{Bytes}
use jbuu.Types.{Direction, Role, client, role_eq, opposite, send_direction, direction_eq}
use jbuu.FullOtp.{OtpDataRecord, encode_otp, decode_otp}
use jbuu.FullOtp.Error.{OtpError, wrong_direction, closed, Stop, fails}
use jbuu.FullOtp.Pad.{PadStream, below_low_water}
use jbuu.FullOtp.Pad.Burning.{behind}
use jbuu.FullOtp.Record.{OpenExpectation, open_record}
use jbuu.FullOtp.Record.RoundTrip.{
  expected_of, IsTypedStream, TagSize, decode_otp-sealed, open_record-seal_record,
  direction_eq_refl,
}
use jbuu.FullOtp.Pump.{
  FullOtpPump, sent, Received, current_of, next_of, is_some, next_ready_for_send, switched, follow,
  send, receive,
}
use jbuu.FullOtp.Pump.Invariant.{IsLive, IsWell, IsWellAs, IsPlane-of, current_of-with_plane}
use jbuu.FullOtp.Pump.Sending.{
  InPlace, InPlace-IsLive, Sends, SendEnds, send-SendEnds, chunk, chunk_fits, after_send,
}
use jbuu.FullOtp.Pump.Delivery.{
  InSync, IsTypedSide, Placed, Placed-stays, Placed-switched, Ends-run, bundle_room,
}
use jbuu.FullOtp.Pump.Receiving.{recv_way, expectation, after_receive}
use jbuu.FullOtp.Pump.Receiving.Branches.{Ends-reject_if}

pair_path : {A B : Type 0} {a c : A} {b e : B} → a ≡ c → b ≡ e → ◌≡◌ {A = A × B} (a, b) (c, e)
pair_path f g = λ i. (f i, g i)

module _ (poly1305 : Bytes → Bytes → Bytes) where
  abbrev Answers :
      Result Received (Stop OtpError) → FullOtpPump → Post FullOtpPump (Stop OtpError) Received
  Answers x u y v = (y ≡ x) × (v ≡ u)

  -- The way of a frame through `receive` that is not refused.
  receive_through :
      (frame : Bytes) (q Q : FullOtpPump) (r : OtpDataRecord) (plain : Bytes) (s : PadStream)
      (n : ℕ)
      → q.is_closed ≡ false
      → decode_otp frame ≡ ok r
      → direction_eq r.direction (recv_way q) ≡ true
      → follow (recv_way q) r.bundle_id q ≡ (ok tt, Q)
      → open_record poly1305 (expectation (recv_way q) Q) frame (current_of (recv_way q) Q)
        ≡ (ok plain, s)
      → checked_add Q.recv_seq 1 ≡ some n
      → let u = after_receive (recv_way q) (length r.ciphertext) n s Q in
        Ends (receive poly1305 frame) q (
          Answers
            (ok (record {
              plaintext = plain;
              need_pad = below_low_water (current_of (recv_way q) u);
            }))
            u)
  unfolding receive
  receive_through frame q Q r plain s n opened decoded way follows opens next =
      let d = recv_way q in
      let u = after_receive d (length r.ciphertext) n s Q in
      let P =
        Answers (ok (record { plaintext = plain; need_pad = below_low_water (current_of d u) }))
          u in
      Ends-raise_if q.is_closed (fails closed) _ q P (λ e. absurd cc)
        (λ _. rw decoded (
          Ends-reject_if (not (direction_eq r.direction d)) (fails wrong_direction) _ q P
            (λ e. absurd cc)
            (λ _. Ends-run (follow d r.bundle_id) _ q P follows (rw (opens, next) (refl, refl)))))

  -- A record that is delivered: the part of the text that it holds comes out, and the pumps are in step
  -- again.
  pub record Delivers (text : Bytes) (l : ℕ) (r : OtpDataRecord) (q t : FullOtpPump) : Type 0 where
    pub received : Received
    pub left : FullOtpPump
    pub runs : receive poly1305 (encode_otp r) q ≡ (ok received, left)
    pub plaintext : received.plaintext ≡ take l text
    pub sync : InSync t left
    pub typed : IsTypedSide t

  in_place :
      (p q P : FullOtpPump)
      → IsLive p
      → InSync p q
      → IsTypedSide p
      → InPlace p P
      → (Q : FullOtpPump) × Placed p q P Q
  in_place p q P h sync typed (inl (e, _)) =
      (q, subst (λ (x : FullOtpPump). Placed p q x q) (sym e) (Placed-stays p q h sync typed))
  in_place p q P h sync typed (inr (n, e, _, ready, f)) = (
    switched (recv_way q) n q,
    subst (λ (x : FullOtpPump). Placed p q x (switched (recv_way q) n q)) (sym f)
        (Placed-switched p q h sync typed n e ready),
  )

  module _ (p q : FullOtpPump) (text : Bytes) (r : OtpDataRecord) (l : ℕ) (t : FullOtpPump)
      (law : TagSize poly1305) (h : IsLive p) (sync : InSync p q) (s : Sends poly1305 p text r l t)
      (Q : FullOtpPump) (placed : Placed p q s.pump Q) where
    abbrev d : Direction
    d = send_direction p.role

    abbrev stream : PadStream
    stream = current_of d s.pump

    abbrev part : Bytes
    part = chunk d text s.pump

    abbrev behind_part : PadStream
    behind_part = behind (length part) stream

    abbrev receiver : FullOtpPump
    receiver = after_receive (recv_way q) (length r.ciphertext) s.number behind_part Q

    abbrev sender : FullOtpPump
    sender = after_send d text s.number s.pump

    opens_and_decodes :
        (open_record poly1305 (expected_of d p.send_seq stream) (encode_otp r) stream
          ≡ (ok part, behind_part))
        × (decode_otp (encode_otp r) ≡ ok r)
    opens_and_decodes =
        let (live, room, _, _) = InPlace-IsLive p s.pump h s.in_place in
        let (_, filled, fit, _) = chunk_fits d text s.pump s.some_text room in
        let plane = IsPlane-of d s.pump live in
        let few = live.room in
        let ranges : IsTypedStream stream = record {
          bundle_id = omega (arith, bundle_room _ stream (next_of d s.pump) plane.follows);
          base_segment = placed.base;
        } in
        let below : p.send_seq < u64_limit =
          omega (arith, (checked_add-eq-some p.send_seq 1 s.next_number).1) in
        subst
          (λ (x : OtpDataRecord).
            (open_record poly1305 (expected_of d p.send_seq stream) (encode_otp x) stream
              ≡ (ok part, behind_part))
            × (decode_otp (encode_otp x) ≡ ok x))
          (sym s.record_sent)
          (
            (open_record-seal_record poly1305 d p.send_seq part stream law ranges plane.spent below
                filled fit).1,
            decode_otp-sealed poly1305 d p.send_seq part stream law ranges plane.spent below filled
                fit,
          )

    number_kept : Q.recv_seq ≡ p.send_seq
    number_kept = placed.number ∙ sync.number

    expects : expectation (recv_way q) Q ≡ expected_of d p.send_seq stream
    expects =
        ap (λ (x : Direction). expected_of x Q.recv_seq (current_of (recv_way q) Q)) sync.way
        ∙ ap (λ (m : ℕ). expected_of d m (current_of (recv_way q) Q)) number_kept
        ∙ ap (λ (c : PadStream). expected_of d p.send_seq c) placed.stream

    opens :
        open_record poly1305 (expectation (recv_way q) Q) (encode_otp r) (current_of (recv_way q) Q)
        ≡ (ok part, behind_part)
    opens =
        ap
          (λ (x : OpenExpectation).
            open_record poly1305 x (encode_otp r) (current_of (recv_way q) Q))
          expects
        ∙ ap
            (λ (c : PadStream).
              open_record poly1305 (expected_of d p.send_seq stream) (encode_otp r) c)
            placed.stream
        ∙ opens_and_decodes.0

    same_way : direction_eq r.direction (recv_way q) ≡ true
    same_way =
        ap (λ (x : OtpDataRecord). direction_eq x.direction (recv_way q)) s.record_sent
        ∙ ap (direction_eq d) sync.way
        ∙ direction_eq_refl d

    same_bundle : r.bundle_id ≡ stream.bundle_id
    same_bundle = ap (λ (x : OtpDataRecord). x.bundle_id) s.record_sent

    sender_way : send_direction sender.role ≡ d
    sender_way = ap send_direction placed.sender_role

    receiver_way : recv_way receiver ≡ recv_way q
    receiver_way = ap (λ (x : Role). opposite (send_direction x)) placed.role

    sender_plane : (current_of d sender ≡ behind_part) × (next_of d sender ≡ next_of d s.pump)
    sender_plane = current_of-with_plane d behind_part (next_of d s.pump) s.pump

    receiver_plane :
        (current_of (recv_way q) receiver ≡ behind_part)
        × (next_of (recv_way q) receiver ≡ next_of (recv_way q) Q)
    receiver_plane = current_of-with_plane (recv_way q) behind_part (next_of (recv_way q) Q) Q

    ready_before : next_ready_for_send d sender ≡ true → next_ready_for_send d s.pump ≡ true
    ready_before ready =
        subst
          (λ (o : Option PadStream).
            (is_some o && (if role_eq s.pump.role client then true else s.pump.next_acked)) ≡ true)
          sender_plane.1 ready

    in_sync : InSync sender receiver
    in_sync = record {
      opened = placed.opened ∙ sync.opened;
      way = receiver_way ∙ sync.way ∙ sym sender_way;
      number = refl;
      stream =
          ap (λ (x : Direction). current_of x receiver) receiver_way
          ∙ receiver_plane.0
          ∙ sym sender_plane.0
          ∙ sym (ap (λ (x : Direction). current_of x sender) sender_way);
      next = λ ready.
          ap (λ (x : Direction). next_of x receiver) receiver_way
          ∙ receiver_plane.1
          ∙ placed.next (
              ready_before
                (ap (λ (x : Direction). next_ready_for_send x sender) (sym sender_way) ∙ ready))
          ∙ sym sender_plane.1
          ∙ sym (ap (λ (x : Direction). next_of x sender) sender_way);
    }

    still_typed : IsTypedSide sender
    still_typed =
        subst
          (λ (x : Direction).
            ((current_of x sender).base_segment < u64_limit)
            × ((n : PadStream) → next_of x sender ≡ some n → n.base_segment < u64_limit))
          (sym sender_way)
          (
            subst (λ (c : PadStream). c.base_segment < u64_limit) (sym sender_plane.0) placed.base,
            λ n e. placed.next_base n (sym sender_plane.1 ∙ e),
          )

    delivers : Delivers text l r q t
    delivers =
        let (answer, left) =
          receive_through (encode_otp r) q Q r part behind_part s.number sync.opened
            opens_and_decodes.1 same_way
            (ap (λ (i : ℕ). follow (recv_way q) i q) same_bundle ∙ placed.follows) opens
            (ap (λ (m : ℕ). checked_add m 1) number_kept ∙ s.next_number) in
        record {
          received = record {
            plaintext = part;
            need_pad = below_low_water (current_of (recv_way q) receiver);
          };
          left = receiver;
          runs = pair_path answer left;
          plaintext = ap (λ (k : ℕ). take k text) (sym s.size);
          sync = subst (λ (x : FullOtpPump). InSync x receiver) (sym s.left) in_sync;
          typed = subst IsTypedSide (sym s.left) still_typed;
        }

  -- Where the sender is well and in step with a receiver, the bases of its streams are u64 and tags have
  -- 16 bytes: what it answers to `send` is received, also where the record is the first of the next
  -- bundle; the receiver gives out just the part of the text that the sender says it took, and the pumps
  -- are in step again.
  pub receive-send :
      (p q : FullOtpPump) (text : Bytes) {r : OtpDataRecord} {l : ℕ} {need : Bool} {t : FullOtpPump}
      → TagSize poly1305
      → IsWell p
      → InSync p q
      → IsTypedSide p
      → send poly1305 text p ≡ (ok (sent r l need), t)
      → Delivers text l r q t
  receive-send p q text {r} {l} {t} law well sync typed e =
      let s : Sends poly1305 p text r l t =
        Ends-at (send poly1305 text) p (SendEnds poly1305 p text) e
          (send-SendEnds poly1305 p text well) in
      let live = subst (λ (b : Bool). IsWellAs b p) s.open_pump well in
      let (Q, placed) = in_place p q s.pump live sync typed s.in_place in
      delivers p q text r l t law live sync s Q placed
