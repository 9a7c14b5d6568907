-- ===== src/FullOtp/Pump/Sending.antt =====
-- crates/otp-fullotp/src/pump.rs: what `send` does on each of its branches.
use jbuu.Base.{
  ℕ, ◌+◌, ◌-◌, ◌≡◌, ◌≤◌, refl, sym, subst, ap, ◌∙◌, ◌⊎◌, inl, inr, arith, Bool, true, false, not,
  ◌&&◌, ◌==◌, min, if◌then◌else◌, Option-cases, Option, none, some, length, length-take_le, take,
  checked_add,
}
use jbuu.Base.Result.{Result, ok, err}
use jbuu.Base.State.{Action, pure, continue_with, ◌>>◌}
use jbuu.Base.Actions.{Post, Ends, Ends-raise_if}
use jbuu.Base.Bytes.{Bytes}
use jbuu.Types.{Direction, send_direction}
use jbuu.Session.State.{Both, at}
use jbuu.FullOtp.{OtpDataRecord}
use jbuu.FullOtp.Error.{
  SendError, send_closed, empty_plaintext, sequence_exhausted, Stop, fails, panics,
}
use jbuu.FullOtp.Pad.{PadStream, fits, max_record_len, below_low_water, mac_key_len, pad_half}
use jbuu.FullOtp.Pad.Burning.{behind, behind-IsSpent}
use jbuu.FullOtp.Record.RoundTrip.{sealed, seal_record-sealed}
use jbuu.FullOtp.Pump.{
  FullOtpPump, SendOutcome, sent, backpressure, DirPlane, current_of, next_of, with_plane, shut,
  close_pump, switch, switch_to, switched, next_ready_for_send, is_some, count_consumed,
  send_fitting, send,
}
use jbuu.FullOtp.Pump.Invariant.{
  IsLive, IsShut, IsWell, IsWellAs, IsPlane-of, with_plane-IsLive, current_of-with_plane,
  refresh_ack_state-kept, switched-IsLive, shut_live, Follows,
}

-- The part of a text that the current stream takes.
abbrev pub chunk_len : Direction → Bytes → FullOtpPump → ℕ
chunk_len d text q = min (length text) (max_record_len (current_of d q))

abbrev pub chunk : Direction → Bytes → FullOtpPump → Bytes
chunk d text q = take (chunk_len d text q) text

-- The pump once its stream has given the key and the pad of a text.
abbrev pub used : Direction → Bytes → FullOtpPump → FullOtpPump
used d text q = with_plane d (behind (length text) (current_of d q)) (next_of d q) q

abbrev pub after_send : Direction → Bytes → ℕ → FullOtpPump → FullOtpPump
after_send d text n q =
    count_consumed d (chunk_len d text q) (record (used d (chunk d text q) q) { send_seq = n })

pub chunk_fits :
    (d : Direction) (text : Bytes) (q : FullOtpPump)
    → 1 ≤ length text
    → 1 ≤ max_record_len (current_of d q)
    → (length (chunk d text q) ≡ chunk_len d text q)
      × (1 ≤ length (chunk d text q))
      × (fits (current_of d q) (length (chunk d text q)) ≡ true)
      × (mac_key_len + length (chunk d text q) ≤ pad_half - (current_of d q).cursor)
chunk_fits d text q some_text some_pad =
    let size : length (chunk d text q) ≡ chunk_len d text q = length-take_le _ text (omega arith) in
    (size, omega arith, ground arith, omega arith)

pub used-IsLive :
    (d : Direction) (text : Bytes) (q : FullOtpPump)
    → IsLive q
    → mac_key_len + length text ≤ pad_half - (current_of d q).cursor
    → IsLive (used d text q)
used-IsLive d text q h room =
    let pl = IsPlane-of d q h in
    with_plane-IsLive d _ _ q h (record {
      spent = behind-IsSpent (length text) (current_of d q) pl.spent room;
      follows = follows_behind (next_of d q) pl.follows;
    })
  where
    follows_behind :
        (o : Option PadStream)
        → Follows q.next_bundle_id (current_of d q) o
        → Follows q.next_bundle_id (behind (length text) (current_of d q)) o
    follows_behind none k = k
    follows_behind (some n) k = k

-- The pump with a stream that takes a byte: the pump itself, or the pump switched to a next stream
-- that is ready, where the current one takes nothing.
abbrev pub InPlace : FullOtpPump → FullOtpPump → Type 0
InPlace p q =
    let d = send_direction p.role in
    ((q ≡ p) × (1 ≤ max_record_len (current_of d p)))
    ⊎ ((n : PadStream) × (next_of d p ≡ some n)
        × (max_record_len (current_of d p) ≡ 0)
        × (next_ready_for_send d p ≡ true)
        × (q ≡ switched d n p))

module _ (poly1305 : Bytes → Bytes → Bytes) where
  -- The record of a text.
  abbrev pub record_of : Direction → ℕ → Bytes → FullOtpPump → OtpDataRecord
  record_of d seq text q = sealed poly1305 d seq (chunk d text q) (current_of d q)

  module _ (d : Direction) (seq : ℕ) (text : Bytes) (q : FullOtpPump) (some_text : 1 ≤ length text)
      (some_pad : 1 ≤ max_record_len (current_of d q)) where
    send_fitting-sent :
        {n : ℕ}
        → checked_add q.send_seq 1 ≡ some n
        → send_fitting poly1305 d seq text q ≡ (
          ok (
              sent
                (record_of d seq text q)
                (chunk_len d text q)
                (below_low_water (current_of d (after_send d text n q)))),
          after_send d text n q,
        )
    unfolding send_fitting
    send_fitting-sent next =
        let (_, filled, room, _) = chunk_fits d text q some_text some_pad in
        rw (seal_record-sealed poly1305 d seq (chunk d text q) (current_of d q) filled room, next)
          refl

    send_fitting-exhausted :
        checked_add q.send_seq 1 ≡ none
        → send_fitting poly1305 d seq text q
          ≡ (err (fails sequence_exhausted), close_pump (used d (chunk d text q) q))
    unfolding send_fitting
    send_fitting-exhausted last =
        let (_, filled, room, _) = chunk_fits d text q some_text some_pad in
        rw (seal_record-sealed poly1305 d seq (chunk d text q) (current_of d q) filled room, last)
          refl

  -- What a record that is sent comes from.
  pub record Sends (p : FullOtpPump) (text : Bytes) (r : OtpDataRecord) (l : ℕ) (t : FullOtpPump)
      : Type 0 where
    pub open_pump : p.is_closed ≡ false
    pub some_text : 1 ≤ length text
    pub pump : FullOtpPump
    pub in_place : InPlace p pump
    pub number : ℕ
    pub next_number : checked_add p.send_seq 1 ≡ some number
    pub record_sent : r ≡ record_of (send_direction p.role) p.send_seq text pump
    pub size : l ≡ chunk_len (send_direction p.role) text pump
    pub left : t ≡ after_send (send_direction p.role) text number pump

  -- The ends of `send`.
  abbrev pub SendEnds : FullOtpPump → Bytes → Post FullOtpPump (Stop SendError) SendOutcome
  SendEnds p text (ok (sent r l need)) t = Sends p text r l t
  SendEnds p text (ok backpressure) t =
      (t ≡ p)
      × (max_record_len (current_of (send_direction p.role) p) ≡ 0)
      × (next_ready_for_send (send_direction p.role) p ≡ false)
  SendEnds p text (err (fails send_closed)) t = (t ≡ p) × (p.is_closed ≡ true)
  SendEnds p text (err (fails empty_plaintext)) t = (t ≡ p) × (length text ≡ 0)
  SendEnds p text (err (fails sequence_exhausted)) t =
      (checked_add p.send_seq 1 ≡ none) × (t.is_closed ≡ true) × IsShut t
  SendEnds p text (err (fails _)) t = ⊥
  SendEnds p text (err panics) t = ⊥

close_open : (p : FullOtpPump) → p.is_closed ≡ false → shut p ≡ close_pump p
close_open p h = rw h refl

-- The pump for the record is live and its stream takes a byte.
pub InPlace-IsLive :
    (p q : FullOtpPump)
    → IsLive p
    → InPlace p q
    → IsLive q
      × (1 ≤ max_record_len (current_of (send_direction p.role) q))
      × (q.send_seq ≡ p.send_seq)
      × (q.is_closed ≡ p.is_closed)
InPlace-IsLive p q h (inl (e, room)) = rw e (h, room, refl, refl)
InPlace-IsLive p q h (inr (n, e, full, ready, f)) =
    let d = send_direction p.role in
    let (live, fresh) = switched-IsLive d n p h e in
    let moved = with_plane d n none p in
    let (planes, _, number, _, _, state) = refresh_ack_state-kept moved in
    let here : current_of d (switched d n p) ≡ n =
      ap (λ (x : Both DirPlane). (at d x).current) planes ∙ (current_of-with_plane d n none p).0 in
    let some_pad : 1 ≤ max_record_len n = rw fresh.unused (omega arith) in
    rw f (live, rw here some_pad, number, state)

module _ (poly1305 : Bytes → Bytes → Bytes) (p : FullOtpPump) (text : Bytes) where
  abbrev way : Direction
  way = send_direction p.role

  send_fitting-SendEnds :
      (q : FullOtpPump)
      → IsLive p
      → p.is_closed ≡ false
      → 1 ≤ length text
      → InPlace p q
      → Ends (send_fitting poly1305 way p.send_seq text) q (SendEnds poly1305 p text)
  send_fitting-SendEnds q h opened some_text placed =
      let (live, room, number, state) = InPlace-IsLive p q h placed in
      let (_, _, _, fit) = chunk_fits way text q some_text room in
      let ends : Result SendOutcome (Stop SendError) × FullOtpPump → Type 0 =
        λ x. SendEnds poly1305 p text x.0 x.1 in
      elim (Option-cases (checked_add p.send_seq 1)) [
        | inl last ↦
            subst ends
              (sym (
                send_fitting-exhausted poly1305 way p.send_seq text q some_text room
                  (ap (λ (m : ℕ). checked_add m 1) number ∙ last)))
              (subst
                (λ (t : FullOtpPump).
                  (checked_add p.send_seq 1 ≡ none) × (t.is_closed ≡ true) × IsShut t)
                (close_open (used way (chunk way text q) q) (state ∙ opened))
                (last, refl, shut_live _ (used-IsLive way (chunk way text q) q live fit)))
        | inr (m, next) ↦
            subst ends
              (sym (
                send_fitting-sent poly1305 way p.send_seq text q some_text room
                  (ap (λ (k : ℕ). checked_add k 1) number ∙ next)))
              (record {
                open_pump = opened;
                some_text = some_text;
                pump = q;
                in_place = placed;
                number = m;
                next_number = next;
                record_sent = refl;
                size = refl;
                left = refl;
              })
      ]

  some_next :
      (o : Option PadStream) (b : Bool) → (is_some o && b) ≡ true → (n : PadStream) × (o ≡ some n)
  some_next none b h = absurd cc
  some_next (some n) b h = (n, refl)

  abbrev by_test : Bool → Bool → Action FullOtpPump (Stop SendError) SendOutcome
  by_test full ready =
      if full
      then (if not ready
          then pure backpressure
          else switch way >> send_fitting poly1305 way p.send_seq text)
      else send_fitting poly1305 way p.send_seq text

  by_room :
      (full ready : Bool)
      → IsLive p
      → p.is_closed ≡ false
      → 1 ≤ length text
      → (max_record_len (current_of way p) == 0) ≡ full
      → next_ready_for_send way p ≡ ready
      → Ends (by_test full ready) p (SendEnds poly1305 p text)
  by_room false ready h opened given room e =
      send_fitting-SendEnds p h opened given (inl (refl, ground arith))
  by_room true false h opened given full e = (refl, ground arith, e)
  by_room true true h opened given full e =
      let (n, has) = some_next (next_of way p) _ e in
      subst
        (λ (o : Option PadStream).
          let x =
            continue_with (λ (_ : Unit {0}). send_fitting poly1305 way p.send_seq text)
              (switch_to o way p) in
          SendEnds poly1305 p text x.0 x.1)
        (sym has)
        (send_fitting-SendEnds (switched way n p) h opened given
          (inr (n, has, ground arith, e, refl)))

  pub send-SendEnds : IsWell p → Ends (send poly1305 text) p (SendEnds poly1305 p text)
  unfolding send
  send-SendEnds well =
      let Q = SendEnds poly1305 p text in
      Ends-raise_if p.is_closed (fails send_closed) _ p Q (λ ended. (refl, ended))
        (λ opened.
          Ends-raise_if (length text == 0) (fails empty_plaintext) _ p Q
            (λ none_given. (refl, ground arith))
            (λ given.
              let live = subst (λ (b : Bool). IsWellAs b p) opened well in
              by_room _ _ live opened (ground arith) refl refl))
