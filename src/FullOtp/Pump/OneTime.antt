-- ===== src/FullOtp/Pump/OneTime.antt =====
-- crates/otp-fullotp/src/pump.rs: sequences of calls, the pads of the records that they send, and what
-- one record moves.
pub mod Runs
use jbuu.Base.{
  ℕ, suc, ◌+◌, ◌≡◌, ◌≤◌, ◌<◌, refl, sym, subst, ap, ap₂, length-drop, ◌∙◌, ◌⊎◌, inl, inr, arith,
  Bool, true, false, Bool-cases, Option, none, some, List, [], ◌∷◌, ◌++◌, length, take, drop, All,
  min, checked_add, checked_add-eq-some, u64_limit,
}
use jbuu.Base.Result.{Result, ok, err}
use jbuu.Base.Bytes.{Bytes}
use jbuu.Types.{Direction, client_to_server, server_to_client, opposite, send_direction}
use jbuu.Session.State.{Both, at}
use jbuu.FullOtp.{OtpDataRecord, canonical_header}
use jbuu.FullOtp.Error.{
  SendError, send_closed, empty_plaintext, sequence_exhausted, internal, OtpError, Stop, fails,
  panics,
}
use jbuu.FullOtp.Control.{PadControl}
use jbuu.FullOtp.Pad.{PadStream, xor_pad}
use jbuu.FullOtp.Pad.Burning.{length-xor_pad, behind, unspent, unspent-behind, drop-take_mac_key}
use jbuu.FullOtp.Record.{mac_input}
use jbuu.FullOtp.Record.RoundTrip.{sealed}
use jbuu.FullOtp.Pump.{
  DirPlane, FullOtpPump, SendOutcome, sent, backpressure, Received, current_of, next_of, with_plane,
  close_pump, switched, count_consumed, send, receive,
}
use jbuu.FullOtp.Pump.Bundles.{PadSource, server_prefetch, on_control}
use jbuu.FullOtp.Pump.Invariant.{
  IsLive, IsShut, IsWell, IsWellAs, IsPlane-of, current_of-with_plane, refresh_ack_state-kept,
  shut_live, Follows,
}
use jbuu.FullOtp.Pump.Sending.{
  InPlace, InPlace-IsLive, Sends, SendEnds, send-SendEnds, chunk, chunk_len, chunk_fits, used,
  used-IsLive, after_send, record_of,
}
use jbuu.FullOtp.Pump.Receiving.{
  Receives, Refuses, ReceiveEnds, InStep, InStep-IsLive, after_receive, recv_way, close_opened,
}
use jbuu.FullOtp.Pump.Receiving.Branches.{receive-ReceiveEnds}
use jbuu.FullOtp.Pump.Bundling.{
  IsSource, sending, SameSide, Kept, Kept-same, Kept-shut, on_control-Kept, prefetch_kept,
}

pub data Call : Type 0 where
  sends receives : Bytes → Call
  controls : PadControl → PadSource → Call
  prefetches : PadSource → Call
  closes : Call

-- A record that a call has sent, with the text of the call and the pump before it.
pub record Sending : Type 0 where
  pub before : FullOtpPump
  pub text : Bytes
  pub message : OtpDataRecord

abbrev pub sent_record : FullOtpPump → Bytes → Result SendOutcome (Stop SendError) → List Sending
sent_record p text (ok (sent r _ _)) = record { before = p; text = text; message = r } ∷ []
sent_record p text (ok backpressure) = []
sent_record p text (err _) = []

-- The records that a call sends, and the pump behind it.
unfoldable pub step : (Bytes → Bytes → Bytes) → FullOtpPump → Call → List Sending × FullOtpPump
step poly1305 p (sends text) = let (r, t) = send poly1305 text p in (sent_record p text r, t)
step poly1305 p (receives frame) = ([], (receive poly1305 frame p).1)
step poly1305 p (controls msg source) = ([], (on_control source msg p).1)
step poly1305 p (prefetches source) = ([], (server_prefetch source p).1)
step poly1305 p closes = ([], close_pump p)

unfoldable pub run : (Bytes → Bytes → Bytes) → FullOtpPump → List Call → List Sending × FullOtpPump
run poly1305 p [] = ([], p)
run poly1305 p (c ∷ cs) =
    let (rs, t) = step poly1305 p c in let (more, u) = run poly1305 t cs in (rs ++ more, u)

-- The record has the number `seq`, and its pad is what is left of the bundle `bundle` behind the byte
-- `cursor`, or it is one of a later bundle.
abbrev pub Next : ℕ → ℕ → ℕ → Bytes → OtpDataRecord → Bytes → Type 0
Next seq bundle cursor rest r pad =
    (r.record_seq ≡ seq)
    × ((bundle < r.bundle_id) ⊎ ((r.bundle_id ≡ bundle) × (r.pad_offset ≡ cursor) × (pad ≡ rest)))

-- The pad is the unspent part of the stream that the pump sends from, or of its next one.
pub record IsHeld (p : FullOtpPump) (r : OtpDataRecord) (pad : Bytes) : Type 0 where
  pub stream : PadStream
  pub place : (stream ≡ sending p) ⊎ (next_of (send_direction p.role) p ≡ some stream)
  pub bundle : r.bundle_id ≡ stream.bundle_id
  pub offset : r.pad_offset ≡ stream.cursor
  pub bytes : pad ≡ unspent stream

-- The tag is taken with the first 32 bytes of the pad, and the front of the text is xored with those
-- behind them.
pub record IsDrawn (poly1305 : Bytes → Bytes → Bytes) (text : Bytes) (r : OtpDataRecord)
    (pad : Bytes) : Type 0 where
  pub room : 32 + length r.ciphertext ≤ length pad
  pub ciphertext : r.ciphertext ≡ xor_pad (take (length r.ciphertext) text) (drop 32 pad)
  pub tag :
      r.tag
      ≡ poly1305 (take 32 pad) (
          mac_input
            (canonical_header r.direction r.bundle_id r.base_segment r.record_seq r.pad_offset
              (length r.ciphertext))
            r.ciphertext)

-- Where the pad of a record ends: behind its key and its text.
abbrev pub pad_end : OtpDataRecord → ℕ
pad_end r = r.pad_offset + 32 + length r.ciphertext

-- The records have consecutive numbers, and each is drawn from bytes that lie behind those of the one
-- before: what that one has left of its bundle, or a later bundle.
abbrev pub Ascending : (Bytes → Bytes → Bytes) → ℕ → ℕ → ℕ → Bytes → List Sending → Type 0
Ascending poly1305 seq bundle cursor rest [] = Unit {0}
Ascending poly1305 seq bundle cursor rest (x ∷ xs) =
    let r = x.message in
    (pad : Bytes) × Next seq bundle cursor rest r pad
    × IsHeld x.before r pad
    × IsDrawn poly1305 x.text r pad
    × Ascending poly1305 (suc seq) r.bundle_id (pad_end r) (drop (32 + length r.ciphertext) pad) xs

-- What is known of the pump behind a record.
pub record Moves (poly1305 : Bytes → Bytes → Bytes) (p : FullOtpPump) (text : Bytes)
    (r : OtpDataRecord) (t : FullOtpPump) : Type 0 where
  pub pad : Bytes
  pub next : Next p.send_seq (sending p).bundle_id (sending p).cursor (unspent (sending p)) r pad
  pub held : IsHeld p r pad
  pub drawn : IsDrawn poly1305 text r pad
  pub live : IsLive t
  pub opened : t.is_closed ≡ false
  pub number : t.send_seq ≡ suc p.send_seq
  pub bundle : (sending t).bundle_id ≡ r.bundle_id
  pub cursor : (sending t).cursor ≡ pad_end r
  pub rest : unspent (sending t) ≡ drop (32 + length r.ciphertext) pad
  pub bundles : t.next_bundle_id ≡ p.next_bundle_id

-- A record that is sealed is drawn from the unspent bytes of its stream.
sealed-IsDrawn :
    (poly1305 : Bytes → Bytes → Bytes) (d : Direction) (n : ℕ) (text part : Bytes) (s : PadStream)
    → take (length part) text ≡ part
    → s.cursor + (32 + length part) ≤ length s.buf
    → IsDrawn poly1305 text (sealed poly1305 d n part s) (unspent s)
sealed-IsDrawn poly1305 d n text part s front room =
    let r = sealed poly1305 d n part s in
    let size : length r.ciphertext ≡ length part = length-xor_pad part _ in
    record {
      room = omega (arith, size, length-drop s.cursor s.buf, room);
      ciphertext =
          ap₂ xor_pad (sym front ∙ ap (λ (k : ℕ). take k text) (sym size))
            (drop-take_mac_key (length part) s room);
      tag =
          ap
            (λ (k : ℕ). poly1305 (take 32 (unspent s)) (
              mac_input (canonical_header d s.bundle_id s.base_segment n (min s.cursor 0xffff) k)
                r.ciphertext))
            (sym size);
    }

-- The stream that is in place is the current one, or one of a later bundle.
place_of :
    (p q : FullOtpPump)
    → IsLive p
    → InPlace p q
    → let d = send_direction p.role in
      (q.role ≡ p.role)
      × (q.next_bundle_id ≡ p.next_bundle_id)
      × ((current_of d q ≡ current_of d p)
          ⊎ (((current_of d p).bundle_id < (current_of d q).bundle_id)
              × (next_of d p ≡ some (current_of d q))))
place_of p q h (inl (e, _)) = rw e (refl, refl, inl refl)
place_of p q h (inr (n, e, _, _, f)) =
    let d = send_direction p.role in
    let (planes, role, _, _, bundles, _) = refresh_ack_state-kept (with_plane d n none p) in
    let here : current_of d (switched d n p) ≡ n =
      ap (λ (x : Both DirPlane). (at d x).current) planes ∙ (current_of-with_plane d n none p).0 in
    let follows : Follows p.next_bundle_id (current_of d p) (some n) =
      subst (Follows p.next_bundle_id (current_of d p)) e (IsPlane-of d p h).follows in
    rw f (
      role,
      bundles,
      inr (rw here (omega (arith, follows.1)), e ∙ ap (λ (x : PadStream). some x) (sym here)),
    )

module _ (poly1305 : Bytes → Bytes → Bytes) where
  pub Sends-Moves :
      (p : FullOtpPump) (text : Bytes) (r : OtpDataRecord) (l : ℕ) (t : FullOtpPump)
      → IsLive p
      → Sends poly1305 p text r l t
      → Moves poly1305 p text r t
  Sends-Moves p text r l t h s =
      let d = send_direction p.role in
      let q = s.pump in
      let stream = current_of d q in
      let (live, room, _, state) = InPlace-IsLive p q h s.in_place in
      let (role, bundles, place) = place_of p q h s.in_place in
      let (filled, _, _, fit) = chunk_fits d text q s.some_text room in
      let part = chunk d text q in
      let after = used-IsLive d part q live fit in
      let t0 = after_send d text s.number q in
      let way : send_direction t0.role ≡ d = ap send_direction role in
      let there : sending t0 ≡ behind (length part) stream =
        ap (λ (x : Direction). current_of x t0) way
        ∙ (current_of-with_plane d (behind (length part) stream) (next_of d q) q).0 in
      let inside = (IsPlane-of d q live).spent.inside in
      let whole = (IsPlane-of d q live).spent.size in
      let fill : stream.cursor + (32 + length part) ≤ length stream.buf =
        omega (arith, fit, whole, inside) in
      let offset : min stream.cursor 0xffff ≡ stream.cursor = ground arith in
      let text_size : length (record_of poly1305 d p.send_seq text q).ciphertext ≡ length part =
        length-xor_pad part _ in
      subst (Moves poly1305 p text r) (sym s.left) (
        subst (λ (x : OtpDataRecord). Moves poly1305 p text x t0) (sym s.record_sent)
          (record {
            pad = unspent stream;
            next = (refl, placed stream (current_of d p) offset place);
            held = record {
              stream = stream;
              place = held_at stream (current_of d p) place;
              bundle = refl;
              offset = offset;
              bytes = refl;
            };
            drawn =
                sealed-IsDrawn poly1305 d p.send_seq text part stream
                  (ap (λ (k : ℕ). take k text) filled) fill;
            rest =
                ap unspent there
                ∙ unspent-behind (length part) stream fill
                ∙ ap (λ (k : ℕ). drop (32 + k) (unspent stream)) (sym text_size);
            live = record { c2s = after.c2s; s2c = after.s2c; room = after.room };
            opened = state ∙ s.open_pump;
            number = (checked_add-eq-some p.send_seq 1 s.next_number).0 ∙ omega arith;
            bundle = ap (λ (x : PadStream). x.bundle_id) there;
            cursor = ap (λ (x : PadStream). x.cursor) there ∙ rw (offset, text_size) (omega arith);
            bundles = bundles;
          }))
    where
      placed :
          {L : Type 0} (x y : PadStream)
          → min x.cursor 0xffff ≡ x.cursor
          → (x ≡ y) ⊎ ((y.bundle_id < x.bundle_id) × L)
          → (y.bundle_id < x.bundle_id)
            ⊎ ((x.bundle_id ≡ y.bundle_id)
                × (min x.cursor 0xffff ≡ y.cursor)
                × (unspent x ≡ unspent y))
      placed x y o (inl e) = inr (
        ap (λ (z : PadStream). z.bundle_id) e,
        o ∙ ap (λ (z : PadStream). z.cursor) e,
        ap unspent e,
      )
      placed x y o (inr k) = inl k.0

      held_at :
          {L : Type 0} {o : Option PadStream} (x y : PadStream)
          → (x ≡ y) ⊎ (L × (o ≡ some x))
          → (x ≡ y) ⊎ (o ≡ some x)
      held_at x y (inl e) = inl e
      held_at x y (inr k) = inr k.1
