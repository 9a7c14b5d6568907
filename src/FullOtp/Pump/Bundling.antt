-- ===== src/FullOtp/Pump/Bundling.antt =====
-- crates/otp-fullotp/src/pump.rs: what the control messages and the prefetch keep.
use jbuu.Base.{
  ℕ, ◌+◌, ◌%◌, ◌≡◌, ◌≤◌, ◌<◌, refl, sym, subst, ◌∙◌, ◌⊎◌, inl, inr, arith, Bool, true, false, not,
  ◌==◌, if◌then◌else◌, Bool-cases, Option, none, some, length, take, drop, length-take_le,
  length-drop, u64_limit,
}
use jbuu.Base.Result.{Result, ok, err, Result-cases}
use jbuu.Base.State.{Action, pure, ◌>>◌}
use jbuu.Base.Actions.{Post, Ends, Ends-raise_if}
use jbuu.Base.Bytes.{Bytes}
use jbuu.Types.{
  Direction, client_to_server, server_to_client, client, server, role_eq, send_direction,
}
use jbuu.FullOtp.Error.{
  wrong_bundle, closed, PadSourceError, coordinator_must_be_server, data_error,
}
use jbuu.FullOtp.Control.{PadControl, pad_offer, pad_ack, pad_need, close}
use jbuu.FullOtp.Pad.{PadStream, pad_half, split_bundle, from_half}
use jbuu.FullOtp.Pump.{FullOtpPump, shut, reject_if, current_of}
use jbuu.FullOtp.Pump.Bundles.{
  PumpAction, PadSource, has_next, keep_bundle, is_pending, prefetch, server_prefetch, as_actions,
  on_open, on_control,
}
use jbuu.FullOtp.Pump.Invariant.{IsFresh, IsLive, IsWell, IsWellAs, shut_live, Follows}
use jbuu.FullOtp.Pump.Receiving.{close_opened}

-- A source gives bundles of 8192 bytes.
pub record IsSource (source : PadSource) : Type 0 where
  pub next_size :
      {base : ℕ} {flat : Bytes} → source.reserve_next_bundle ≡ ok (base, flat) → length flat ≡ 8192
  pub size_at :
      (base : ℕ) {flat : Bytes} → source.reserve_bundle_at base ≡ ok flat → length flat ≡ 8192

abbrev pub sending : FullOtpPump → PadStream
sending p = current_of (send_direction p.role) p

-- The sending side is as it was, and one bundle came in at most.
pub record SameSide (p t : FullOtpPump) : Type 0 where
  pub role : t.role ≡ p.role
  pub send_seq : t.send_seq ≡ p.send_seq
  pub stream : sending t ≡ sending p
  pub bundles : t.next_bundle_id ≤ p.next_bundle_id + 1

-- The pump is well, and it is closed or its sending side is as it was.
pub record Kept (p t : FullOtpPump) : Type 0 where
  pub well : IsWell t
  pub side : (t.is_closed ≡ true) ⊎ SameSide p t

abbrev pub AnyKept : {E A : Type 0} → FullOtpPump → Post FullOtpPump E A
AnyKept p _ t = Kept p t

pub Kept-same : (p : FullOtpPump) → IsWell p → Kept p p
Kept-same p h = record {
  well = h;
  side = inr (record { role = refl; send_seq = refl; stream = refl; bundles = omega arith });
}

pub Kept-shut : (p : FullOtpPump) → IsLive p → Kept p (shut p)
Kept-shut p h = record { well = shut_live p h; side = inl refl }

Kept-reject_if :
    {E A : Type 0} (b : Bool) (e : E) (k : Action FullOtpPump E A) (p : FullOtpPump)
    → IsLive p
    → (b ≡ false → Ends k p (AnyKept p))
    → Ends (reject_if b e >> k) p (AnyKept p)
Kept-reject_if true e k p h passes = Kept-shut p h
Kept-reject_if false e k p h passes = passes refl

half-IsFresh :
    (id base : ℕ) (half : Bytes) → length half ≡ pad_half → IsFresh (from_half id base half)
half-IsFresh id base half h = record { size = h; unused = refl }

no_next :
    (p : FullOtpPump) → has_next p ≡ false → (p.planes.c2s.next ≡ none) × (p.planes.s2c.next ≡ none)
no_next p h = ground arith

module _ (p : FullOtpPump) (h : IsLive p) (open_pump : p.is_closed ≡ false)
    (room : p.next_bundle_id + 1 < u64_limit) where
  abbrev with_bundle : ℕ → Bytes → FullOtpPump
  with_bundle base flat = keep_bundle (split_bundle p.next_bundle_id base flat) p

  next_id : (p.next_bundle_id + 1) % u64_limit ≡ p.next_bundle_id + 1
  next_id = omega arith

  with_bundle-IsLive :
      (base : ℕ) (flat : Bytes)
      → has_next p ≡ false
      → length flat ≡ 8192
      → IsLive (with_bundle base flat)
  with_bundle-IsLive base flat idle size =
      let (c, s) = no_next p idle in
      let front : length (take pad_half flat) ≡ pad_half =
        length-take_le pad_half flat (omega arith) in
      let back : length (drop pad_half flat) ≡ pad_half = length-drop pad_half flat ∙ omega arith in
      let last_c : Follows p.next_bundle_id p.planes.c2s.current none =
        subst (Follows p.next_bundle_id p.planes.c2s.current) c h.c2s.follows in
      let last_s : Follows p.next_bundle_id p.planes.s2c.current none =
        subst (Follows p.next_bundle_id p.planes.s2c.current) s h.s2c.follows in
      record {
        c2s = record {
          spent = h.c2s.spent;
          follows = (half-IsFresh p.next_bundle_id base _ front, last_c, sym next_id);
        };
        s2c = record {
          spent = h.s2c.spent;
          follows = (half-IsFresh p.next_bundle_id _ _ back, last_s, sym next_id);
        };
        room = rw next_id room;
      }

  -- Any pump that has the planes and the counter of a live one.
  flags-Kept :
      (base : ℕ) (flat : Bytes) (acked : Bool) (pending : Option ℕ)
      → has_next p ≡ false
      → length flat ≡ 8192
      → Kept p (record (with_bundle base flat) { next_acked = acked; pending_ack = pending })
  flags-Kept base flat acked pending idle size =
      let live = with_bundle-IsLive base flat idle size in
      record {
        well = rw open_pump (record { c2s = live.c2s; s2c = live.s2c; room = live.room });
        side = inr (record {
          role = refl;
          send_seq = refl;
          stream = stream_kept (send_direction p.role);
          bundles = rw next_id (omega arith);
        });
      }
    where
      stream_kept : (d : Direction) → current_of d (with_bundle base flat) ≡ current_of d p
      stream_kept client_to_server = refl
      stream_kept server_to_client = refl

  prefetch-Kept :
      (source : PadSource)
      → IsSource source
      → has_next p ≡ false
      → Ends (prefetch source) p (AnyKept p)
  unfolding prefetch
  prefetch-Kept source sound idle = elim (Result-cases source.reserve_next_bundle) [
    | inl (r, e) ↦ rw e (flags-Kept r.0 r.1 false (some p.next_bundle_id) idle (sound.next_size e))
    | inr (e, failed) ↦ rw failed (Kept-shut p h)
  ]

  module _ (source : PadSource) (sound : IsSource source) where
    prefetching : Action FullOtpPump PadSourceError (Option PumpAction)
    prefetching = if has_next p then pure none else prefetch source

    server_prefetch-Kept : Ends (server_prefetch source) p (AnyKept p)
    unfolding server_prefetch prefetching
    server_prefetch-Kept =
        subst
          (λ (b : Bool).
            Kept p
              ((if b
                  then pure none
                  else reject_if (not (role_eq p.role server)) coordinator_must_be_server
                    >> prefetching)
                p).1)
          (sym open_pump)
          (Kept-reject_if (not (role_eq p.role server)) coordinator_must_be_server prefetching p h
            (λ _. elim (Bool-cases (has_next p)) [
              | inl held ↦
                  rw held (Kept-same p (subst (λ (b : Bool). IsWellAs b p) (sym open_pump) h))
              | inr idle ↦ rw idle (prefetch-Kept source sound idle)
            ]))

    as_actions-Kept :
        (x : Result (Option PumpAction) PadSourceError × FullOtpPump)
        → Kept p x.1
        → Kept p (as_actions source x).1
    as_actions-Kept (ok o, t) k = k
    as_actions-Kept (err e, t) k = k

    -- Every case of `on_control` on an open pump keeps it well and its sending side as it was, or shuts it.
    on_open-Kept : (msg : PadControl) → Ends (on_open source msg) p (AnyKept p)
    unfolding on_open
    on_open-Kept pad_need =
        Kept-reject_if (not (role_eq p.role server)) (data_error closed) _ p h
          (λ _. as_actions-Kept (server_prefetch source p) server_prefetch-Kept)
    on_open-Kept (pad_offer id base) =
        Kept-reject_if (not (role_eq p.role client)) (data_error closed) _ p h (λ _.
          Kept-reject_if (not (id == p.next_bundle_id)) (data_error wrong_bundle) _ p h (λ named.
            let same : id ≡ p.next_bundle_id = ground arith in
            Kept-reject_if (has_next p) (data_error wrong_bundle) _ p h (λ idle.
              elim (Result-cases (source.reserve_bundle_at base)) [
                | inl (flat, e) ↦
                    rw (e, same)
                      (flags-Kept base flat p.next_acked p.pending_ack idle (sound.size_at base e))
                | inr (e, failed) ↦ rw failed (Kept-shut p h)
              ])))
    on_open-Kept (pad_ack id) =
        Kept-reject_if (not (role_eq p.role server)) (data_error closed) _ p h (λ _.
          Kept-reject_if (not (is_pending p.pending_ack id)) (data_error wrong_bundle) _ p h (λ _.
            record {
              well = rw open_pump (record { c2s = h.c2s; s2c = h.s2c; room = h.room });
              side =
                  inr
                    (record { role = refl; send_seq = refl; stream = refl; bundles = omega arith });
            }))
    on_open-Kept close = subst (Kept p) (sym (close_opened p open_pump)) (Kept-shut p h)

-- A pump with room for one more bundle, given any control message, with a source that gives whole
-- bundles.
pub on_control-Kept :
    (p : FullOtpPump) (source : PadSource) (msg : PadControl)
    → IsWell p
    → IsSource source
    → p.next_bundle_id + 1 < u64_limit
    → Ends (on_control source msg) p (AnyKept p)
unfolding on_control
on_control-Kept p source msg well sound room =
    Ends-raise_if p.is_closed (data_error closed) _ p (AnyKept p) (λ _. Kept-same p well)
      (λ opened.
        on_open-Kept p (subst (λ (b : Bool). IsWellAs b p) opened well) opened room source sound
          msg)

server_prefetch-closed :
    (p : FullOtpPump) (source : PadSource) → p.is_closed ≡ true → (server_prefetch source p).1 ≡ p
unfolding server_prefetch
server_prefetch-closed p source h = rw h refl

pub prefetch_kept :
    (p : FullOtpPump) (source : PadSource)
    → IsWell p
    → IsSource source
    → p.next_bundle_id + 1 < u64_limit
    → Ends (server_prefetch source) p (AnyKept p)
prefetch_kept p source well sound room = elim (Bool-cases p.is_closed) [
  | inl ended ↦ closed_same ended
  | inr opened ↦
      server_prefetch-Kept p (subst (λ (b : Bool). IsWellAs b p) opened well) opened room source
        sound
]
  where
    closed_same : p.is_closed ≡ true → Ends (server_prefetch source) p (AnyKept p)
    closed_same e =
        subst (λ (t : FullOtpPump). Kept p t) (sym (server_prefetch-closed p source e))
          (Kept-same p well)
