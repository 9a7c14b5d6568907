-- ===== src/FullOtp/Pump/Invariant.antt =====
-- crates/otp-fullotp/src/pump.rs: what holds of a pump between two calls.
use jbuu.Base.{
  ℕ, ◌+◌, ◌%◌, ◌≡◌, ◌<◌, refl, subst, ◌∙◌, arith, Bool, true, false, Option, none, some, length,
  take, drop, length-take_le, length-drop, u64_limit,
}
use jbuu.Base.Bytes.{Bytes}
use jbuu.Types.{Direction, client_to_server, server_to_client, Role}
use jbuu.Session.State.{at}
use jbuu.FullOtp.Pad.{PadStream, pad_half, waste, IsSpent}
use jbuu.FullOtp.Pad.Burning.{waste-IsSpent, from_half-IsSpent}
use jbuu.FullOtp.Pump.{
  DirPlane, FullOtpPump, new, current_of, next_of, with_plane, shut, refresh_ack_state, switched,
}

-- A stream that nothing is taken from.
pub record IsFresh (s : PadStream) : Type 0 where
  pub size : length s.buf ≡ pad_half
  pub unused : s.cursor ≡ 0

-- The next stream is fresh and of the bundle behind the current one, and no bundle is behind it;
-- where there is none, the current bundle is the last one.
abbrev pub Follows : ℕ → PadStream → Option PadStream → Type 0
Follows limit current none = current.bundle_id + 1 ≡ limit
Follows limit current (some n) =
    IsFresh n × (current.bundle_id + 1 ≡ n.bundle_id) × (n.bundle_id + 1 ≡ limit)

pub record IsPlane (limit : ℕ) (pl : DirPlane) : Type 0 where
  pub spent : IsSpent pl.current
  pub follows : Follows limit pl.current pl.next

pub record IsLive (p : FullOtpPump) : Type 0 where
  pub c2s : IsPlane p.next_bundle_id p.planes.c2s
  pub s2c : IsPlane p.next_bundle_id p.planes.s2c
  pub room : p.next_bundle_id < u64_limit

-- Everything is wasted: no next stream is held, and the current ones are burnt to their end.
pub record IsWasted (pl : DirPlane) : Type 0 where
  pub spent : IsSpent pl.current
  pub ended : pl.current.cursor ≡ pad_half
  pub alone : pl.next ≡ none

pub record IsShut (p : FullOtpPump) : Type 0 where
  pub c2s : IsWasted p.planes.c2s
  pub s2c : IsWasted p.planes.s2c

abbrev pub IsWellAs : Bool → FullOtpPump → Type 0
IsWellAs true p = IsShut p
IsWellAs false p = IsLive p

-- A pump that is open is live, and one that is closed has wasted all its pads.
abbrev pub IsWell : FullOtpPump → Type 0
IsWell p = IsWellAs p.is_closed p

pub IsPlane-of :
    (d : Direction) (p : FullOtpPump) → IsLive p → IsPlane p.next_bundle_id (at d p.planes)
IsPlane-of client_to_server p h = h.c2s
IsPlane-of server_to_client p h = h.s2c

-- The planes of two directions where one of them is exchanged.
pub with_plane-IsLive :
    (d : Direction) (s : PadStream) (n : Option PadStream) (p : FullOtpPump)
    → IsLive p
    → IsPlane p.next_bundle_id (record { current = s; next = n })
    → IsLive (with_plane d s n p)
with_plane-IsLive client_to_server s n p h k = record { c2s = k; s2c = h.s2c; room = h.room }
with_plane-IsLive server_to_client s n p h k = record { c2s = h.c2s; s2c = k; room = h.room }

pub current_of-with_plane :
    (d : Direction) (s : PadStream) (n : Option PadStream) (p : FullOtpPump)
    → (current_of d (with_plane d s n p) ≡ s) × (next_of d (with_plane d s n p) ≡ n)
current_of-with_plane client_to_server s n p = (refl, refl)
current_of-with_plane server_to_client s n p = (refl, refl)

-- `refresh_ack_state_after_switch` touches one flag.
pub refresh_ack_state-kept :
    (p : FullOtpPump)
    → ((refresh_ack_state p).planes ≡ p.planes)
      × ((refresh_ack_state p).role ≡ p.role)
      × ((refresh_ack_state p).send_seq ≡ p.send_seq)
      × ((refresh_ack_state p).recv_seq ≡ p.recv_seq)
      × ((refresh_ack_state p).next_bundle_id ≡ p.next_bundle_id)
      × ((refresh_ack_state p).is_closed ≡ p.is_closed)
refresh_ack_state-kept p = ground arith

refresh_ack_state-IsLive : (p : FullOtpPump) → IsLive p → IsLive (refresh_ack_state p)
refresh_ack_state-IsLive p h = ground arith

pub IsFresh-IsSpent : {s : PadStream} → IsFresh s → IsSpent s
IsFresh-IsSpent {s} h = record {
  size = h.size;
  inside = omega (arith, h.unused);
  burnt = rw h.unused tt;
}

-- A switch to the next stream, of which there is none behind it.
pub switched-IsLive :
    (d : Direction) (n : PadStream) (p : FullOtpPump)
    → IsLive p
    → next_of d p ≡ some n
    → IsLive (switched d n p) × IsFresh n
switched-IsLive d n p h e =
    let follows : Follows p.next_bundle_id (current_of d p) (some n) =
      subst (Follows p.next_bundle_id (current_of d p)) e (IsPlane-of d p h).follows in
    (
      refresh_ack_state-IsLive _ (
          with_plane-IsLive d n none p h
            (record { spent = IsFresh-IsSpent follows.0; follows = follows.2 })),
      follows.0,
    )

-- Closing a pump whose buffers have their size.
pub shut-IsShut :
    (p : FullOtpPump)
    → length p.planes.c2s.current.buf ≡ pad_half
    → length p.planes.s2c.current.buf ≡ pad_half
    → IsShut (shut p)
unfolding waste
shut-IsShut p c s = record {
  c2s = record { spent = waste-IsSpent p.planes.c2s.current c; ended = refl; alone = refl };
  s2c = record { spent = waste-IsSpent p.planes.s2c.current s; ended = refl; alone = refl };
}

pub shut_live : (p : FullOtpPump) → IsLive p → IsShut (shut p)
shut_live p h = shut-IsShut p h.c2s.spent.size h.s2c.spent.size

-- A new pump with a bundle of 8192 bytes is well.
pub new-IsWell :
    (role : Role) (base : ℕ) (flat : Bytes) → length flat ≡ 8192 → IsWell (new role base flat)
unfolding new
new-IsWell role base flat h = record {
  c2s = record {
    spent =
        from_half-IsSpent 0 base (take pad_half flat)
          (length-take_le pad_half flat (omega (arith, h)));
    follows = refl;
  };
  s2c = record {
    spent =
        from_half-IsSpent 0 ((base + 64) % u64_limit) (drop pad_half flat)
          (length-drop pad_half flat ∙ omega (arith, h));
    follows = refl;
  };
  room = omega arith;
}
