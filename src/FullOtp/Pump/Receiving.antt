-- ===== src/FullOtp/Pump/Receiving.antt =====
-- crates/otp-fullotp/src/pump.rs: what `receive` does on each of its branches.
pub mod Branches
use jbuu.Base.{
  ℕ, ◌+◌, ◌-◌, ◌%◌, ◌≡◌, ◌≤◌, ◌<◌, refl, sym, subst, ap, ◌∙◌, ◌⊎◌, inl, inr, arith, Bool, true,
  false, not, ◌==◌, if◌then◌else◌, Bool-cases, Option-cases, Option, none, some, length,
  checked_add, u64_limit,
}
use jbuu.Base.Result.{Result, ok, err, Result-cases}
use jbuu.Base.State.{Action, pure, raise_if, continue_with, get, modify, ◌>>=◌, ◌>>◌}
use jbuu.Base.Actions.{Post, Ends, Ends-raise_if}
use jbuu.Base.Bytes.{Bytes}
use jbuu.Types.{
  Direction, client_to_server, server_to_client, opposite, send_direction, direction_eq,
}
use jbuu.Session.State.{Both, at}
use jbuu.FullOtp.{OtpDataRecord, decode_otp, WireError}
use jbuu.FullOtp.Error.{OtpError, wire, wrong_direction, wrong_bundle, closed, Stop, fails, panics}
use jbuu.FullOtp.Pad.{PadStream, below_low_water, mac_key_len, pad_half, IsSpent}
use jbuu.FullOtp.Pad.Burning.{behind, behind-IsSpent}
use jbuu.FullOtp.Record.{OpenExpectation, open_record}
use jbuu.FullOtp.Record.Opening.{Opens, OpenEnds, open_record-OpenEnds}
use jbuu.FullOtp.Pump.{
  DirPlane, FullOtpPump, Received, current_of, next_of, with_plane, shut, close_pump, switch_to,
  switched, is_bundle, count_consumed, on_current, or_fail, reject_if, follow, receive,
  advance_recv,
}
use jbuu.FullOtp.Pump.Invariant.{
  IsFresh, IsPlane, IsLive, IsShut, IsWell, IsWellAs, IsPlane-of, with_plane-IsLive,
  current_of-with_plane, refresh_ack_state-kept, switched-IsLive, shut-IsShut, shut_live, Follows,
}

abbrev pub recv_way : FullOtpPump → Direction
recv_way p = opposite (send_direction p.role)

-- The pump for a record of a bundle: the pump itself, or the pump switched to its next stream, where
-- that is of the named bundle.
abbrev pub InStep : FullOtpPump → ℕ → FullOtpPump → Type 0
InStep p id q =
    let d = recv_way p in
    (q ≡ p) ⊎ ((n : PadStream) × (next_of d p ≡ some n) × (n.bundle_id ≡ id) × (q ≡ switched d n p))

abbrev pub expectation : Direction → FullOtpPump → OpenExpectation
expectation d q = record {
  direction = d;
  bundle_id = (current_of d q).bundle_id;
  base_segment = (current_of d q).base_segment;
  record_seq = q.recv_seq;
}

abbrev pub after_receive : Direction → ℕ → ℕ → PadStream → FullOtpPump → FullOtpPump
after_receive d l number s q = record (count_consumed d l (with_plane d s (next_of d q) q)) {
  recv_seq = number;
}

-- A record that is received, and the pump that it leaves.
pub record Receives (poly1305 : Bytes → Bytes → Bytes) (p : FullOtpPump) (frame : Bytes)
    (v : Received) (t : FullOtpPump) : Type 0 where
  pub open_pump : p.is_closed ≡ false
  pub pump : FullOtpPump
  pub stream : PadStream
  pub opens :
      Opens poly1305
        (expectation (recv_way p) pump)
        frame
        (current_of (recv_way p) pump)
        v.plaintext
        stream
  pub in_step : InStep p opens.found.bundle_id pump
  pub number : ℕ
  pub next_number : checked_add p.recv_seq 1 ≡ some number
  pub left : t ≡ after_receive (recv_way p) (length opens.found.ciphertext) number stream pump

-- A closed pump refuses everything, and a frame that does not decode is refused; both leave the pump
-- as it is. Any other refusal closes it and wastes its pads.
abbrev pub Refuses : FullOtpPump → Bytes → OtpError → FullOtpPump → Type 0
Refuses p frame e t =
    ((t ≡ p) × (p.is_closed ≡ true) × (e ≡ closed))
    ⊎ (((w : WireError) × (decode_otp frame ≡ err w)
          × (e ≡ wire w)
          × (p.is_closed ≡ false)
          × (t ≡ p))
        ⊎ ((r : OtpDataRecord) × (decode_otp frame ≡ ok r)
            × (p.is_closed ≡ false)
            × (t.is_closed ≡ true)
            × IsShut t))

abbrev pub ReceiveEnds :
    (Bytes → Bytes → Bytes) → FullOtpPump → Bytes → Post FullOtpPump (Stop OtpError) Received
ReceiveEnds poly1305 p frame (ok v) t = Receives poly1305 p frame v t
ReceiveEnds poly1305 p frame (err (fails e)) t = Refuses p frame e t
ReceiveEnds poly1305 p frame (err panics) t = ⊥

-- Whatever stream of the right size a direction is left with, the pump can be shut.
pub shut-with_plane :
    (d : Direction) (s : PadStream) (n : Option PadStream) (p : FullOtpPump)
    → IsLive p
    → length s.buf ≡ pad_half
    → IsShut (shut (with_plane d s n p))
shut-with_plane client_to_server s n p h k =
    shut-IsShut (with_plane client_to_server s n p) k h.s2c.spent.size
shut-with_plane server_to_client s n p h k =
    shut-IsShut (with_plane server_to_client s n p) h.c2s.spent.size k

pub shut-count_consumed :
    (d : Direction) (l : ℕ) (p : FullOtpPump)
    → IsShut (shut p)
    → IsShut (shut (count_consumed d l p))
shut-count_consumed d l p h = record { c2s = h.c2s; s2c = h.s2c }

pub close_opened : (p : FullOtpPump) → p.is_closed ≡ false → close_pump p ≡ shut p
close_opened p h = rw h refl

-- Where the pump for the record is live.
pub InStep-IsLive :
    (p q : FullOtpPump) (id : ℕ)
    → IsLive p
    → InStep p id q
    → IsLive q × (q.recv_seq ≡ p.recv_seq) × (q.is_closed ≡ p.is_closed)
InStep-IsLive p q id h (inl e) = rw e (h, refl, refl)
InStep-IsLive p q id h (inr (n, e, _, f)) =
    let d = recv_way p in
    let (_, _, _, number, _, state) = refresh_ack_state-kept (with_plane d n none p) in
    rw f ((switched-IsLive d n p h e).0, number, state)
