-- ===== src/FullOtp/Pump.antt =====
-- crates/otp-fullotp/src/pump.rs: the pump, which keeps a pad for each direction, seals what is sent,
-- opens what is received and switches to the next bundle. Its control messages are in Pump/Bundles.
pub mod Bundles
pub mod Invariant
pub mod Sending
pub mod Receiving
pub mod Bundling
pub mod OneTime
pub mod Delivery
mod Tests
use jbuu.Base.{
  ℕ, ◌+◌, ◌%◌, Bool, true, false, not, ◌&&◌, ◌==◌, if◌then◌else◌, Option, none, some, length, take,
  min, checked_add, u64_limit,
}
use jbuu.Base.Result.{Result, ok, err}
use jbuu.Base.State.{Action, pure, raise_if, get, modify, on_error, ◌>>=◌, ◌>>◌}
use jbuu.Base.Bytes.{Bytes}
use jbuu.Types.{Direction, opposite, Role, client, send_direction, direction_eq, role_eq}
use jbuu.Session.State.{Both, at, put}
use jbuu.FullOtp.{OtpDataRecord, decode_otp, WireError}
use jbuu.FullOtp.Error.{
  OtpError, wire, wrong_direction, wrong_bundle, closed, SendError, send_closed, empty_plaintext,
  sequence_exhausted, internal, Stop, fails, panics,
}
use jbuu.FullOtp.Pad.{
  PadStream, mac_key_len, max_record_len, below_low_water, waste, retire_into, split_bundle,
}
use jbuu.FullOtp.Record.{OpenExpectation, seal_record, open_record}

-- `SendOutcome`
pub data SendOutcome : Type 0 where
  sent : OtpDataRecord → ℕ → Bool → SendOutcome
  backpressure : SendOutcome

pub record Received : Type 0 where
  pub plaintext : Bytes
  pub need_pad : Bool

pub record DirPlane : Type 0 where
  pub current : PadStream
  pub next : Option PadStream

pub record FullOtpPump : Type 0 where
  pub role : Role
  pub planes : Both DirPlane
  pub send_seq : ℕ
  pub recv_seq : ℕ
  pub next_bundle_id : ℕ
  pub next_acked : Bool
  pub pending_ack : Option ℕ
  pub session_consumed : Both ℕ
  pub is_closed : Bool

-- `FullOtpPump::new`
unfoldable pub new : Role → ℕ → Bytes → FullOtpPump
new role base_segment bundle0_flat =
    let (c2s, s2c) = split_bundle 0 base_segment bundle0_flat in
    record {
      role = role;
      planes = record {
        c2s = record { current = c2s; next = none };
        s2c = record { current = s2c; next = none };
      };
      send_seq = 0;
      recv_seq = 0;
      next_bundle_id = 1;
      next_acked = false;
      pending_ack = none;
      session_consumed = record { c2s = 0; s2c = 0 };
      is_closed = false;
    }

abbrev pub is_some : {A : Type 0} → Option A → Bool
is_some none = false
is_some (some _) = true

abbrev pub current_of : Direction → FullOtpPump → PadStream
current_of d p = (at d p.planes).current

abbrev pub next_of : Direction → FullOtpPump → Option PadStream
next_of d p = (at d p.planes).next

abbrev pub with_plane : Direction → PadStream → Option PadStream → FullOtpPump → FullOtpPump
with_plane d current next p = record p {
  planes = put d (record { current = current; next = next }) p.planes;
}

-- `fail_waste_all`
abbrev pub waste_plane : DirPlane → DirPlane
waste_plane pl = record { current = waste pl.current; next = none }

abbrev pub fail_waste_all : FullOtpPump → FullOtpPump
fail_waste_all p = record p {
  planes = record { c2s = waste_plane p.planes.c2s; s2c = waste_plane p.planes.s2c };
}

abbrev pub shut : FullOtpPump → FullOtpPump
shut p = record (fail_waste_all p) { is_closed = true }

-- `FullOtpPump::close`
abbrev pub close_pump : FullOtpPump → FullOtpPump
close_pump p = if p.is_closed then p else shut p

-- `FullOtpPump::fail`: a check whose failure closes the pump.
abbrev pub reject_if {ℓ} : {E : Type ℓ} → Bool → E → FullOtpPump → Result (Unit {0}) E × FullOtpPump
reject_if true e p = (err e, shut p)
reject_if false e p = (ok tt, p)

-- `refresh_ack_state_after_switch`
abbrev pub refresh_ack_state : FullOtpPump → FullOtpPump
refresh_ack_state p =
    if not (is_some p.planes.c2s.next) && not (is_some p.planes.s2c.next)
    then record p { next_acked = false }
    else p

-- The next stream of a direction takes the place of the current one, where there is one.
abbrev pub switched : Direction → PadStream → FullOtpPump → FullOtpPump
switched d next p = refresh_ack_state (with_plane d (retire_into next (current_of d p)).1 none p)

abbrev pub switch_to :
    {E : Type 0} → Option PadStream → Direction → Action FullOtpPump (Stop E) (Unit {0})
switch_to none d p = (err panics, p)
switch_to (some next) d p = (ok tt, switched d next p)

abbrev pub switch : {E : Type 0} → Direction → Action FullOtpPump (Stop E) (Unit {0})
switch d p = switch_to (next_of d p) d p

abbrev pub next_ready_for_send : Direction → FullOtpPump → Bool
next_ready_for_send d p =
    is_some (next_of d p) && (if role_eq p.role client then true else p.next_acked)

-- An action on the current stream of a direction.
abbrev pub on_current : {E A : Type 0} → Direction → Action PadStream E A → Action FullOtpPump E A
on_current d m p = let (r, s) = m (current_of d p) in (r, with_plane d s (next_of d p) p)

-- `session_consumed` after a record of `l` bytes; it wraps in a release build.
abbrev pub count_consumed : Direction → ℕ → FullOtpPump → FullOtpPump
count_consumed d l p = record p {
  session_consumed =
      put d ((at d p.session_consumed + (mac_key_len + l)) % u64_limit) p.session_consumed;
}

abbrev pub advance_send : Option ℕ → Action FullOtpPump (Stop SendError) (Unit {0})
advance_send none p = (err (fails sequence_exhausted), close_pump p)
advance_send (some next) p = (ok tt, record p { send_seq = next })

abbrev pub advance_recv : Option ℕ → Action FullOtpPump (Stop OtpError) (Unit {0})
advance_recv none p = (err (fails closed), close_pump p)
advance_recv (some next) p = (ok tt, record p { recv_seq = next })

-- The error of `decode` leaves `receive` by `?`.
abbrev pub peek_frame :
    Result OtpDataRecord WireError → Action FullOtpPump (Stop OtpError) OtpDataRecord
peek_frame (ok r) p = (ok r, p)
peek_frame (err e) p = (err (fails (wire e)), p)

-- The error of `open_record` closes the pump.
abbrev pub or_fail :
    {A : Type 0} → Result A OtpError × FullOtpPump → Result A (Stop OtpError) × FullOtpPump
or_fail (ok a, p) = (ok a, p)
or_fail (err e, p) = (err (fails e), shut p)

abbrev pub is_bundle : Option PadStream → ℕ → Bool
is_bundle none id = false
is_bundle (some s) id = s.bundle_id == id

-- The switch of `receive` to the bundle that the record names; the sum wraps in a release build.
abbrev pub follow : Direction → ℕ → Action FullOtpPump (Stop OtpError) (Unit {0})
follow d id = do
  p ← get
  if id == ((current_of d p).bundle_id + 1) % u64_limit
      then (reject_if (not (is_bundle (next_of d p) id)) (fails wrong_bundle) >> switch d)
      else pure tt

module _ (poly1305 : Bytes → Bytes → Bytes) where
  -- The rest of `send`, once the current stream takes a byte at least.
  unfoldable pub send_fitting :
      Direction → ℕ → Bytes → Action FullOtpPump (Stop SendError) SendOutcome
  send_fitting dir seq plaintext = do
    p ← get
    let l = min (length plaintext) (max_record_len (current_of dir p))
    record_out ←
        on_error (on_current dir (seal_record poly1305 dir seq (take l plaintext))) (fails internal)
          shut
    advance_send (checked_add p.send_seq 1)
    modify (count_consumed dir l)
    q ← get
    pure (sent record_out l (below_low_water (current_of dir q)))

  unfoldable pub send : Bytes → Action FullOtpPump (Stop SendError) SendOutcome
  send plaintext = do
    p ← get
    raise_if p.is_closed (fails send_closed)
    raise_if (length plaintext == 0) (fails empty_plaintext)
    let dir = send_direction p.role
    if max_record_len (current_of dir p) == 0
        then (if not (next_ready_for_send dir p)
            then pure backpressure
            else switch dir >> send_fitting dir p.send_seq plaintext)
        else send_fitting dir p.send_seq plaintext

  unfoldable pub receive : Bytes → Action FullOtpPump (Stop OtpError) Received
  receive frame = do
    p ← get
    raise_if p.is_closed (fails closed)
    let dir = opposite (send_direction p.role)
    peek ← peek_frame (decode_otp frame)
    reject_if (not (direction_eq peek.direction dir)) (fails wrong_direction)
    follow dir peek.bundle_id
    q ← get
    let expect : OpenExpectation = record {
      direction = dir;
      bundle_id = (current_of dir q).bundle_id;
      base_segment = (current_of dir q).base_segment;
      record_seq = q.recv_seq;
    }
    plaintext ← λ (s : FullOtpPump). or_fail (on_current dir (open_record poly1305 expect frame) s)
    modify (count_consumed dir (length peek.ciphertext))
    r ← get
    let need_pad = below_low_water (current_of dir r)
    advance_recv (checked_add r.recv_seq 1)
    pure (record { plaintext = plaintext; need_pad = need_pad })
