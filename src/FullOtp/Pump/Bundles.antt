-- ===== src/FullOtp/Pump/Bundles.antt =====
-- crates/otp-fullotp/src/pump.rs: how the pump gets its next bundle, and the control messages. A
-- `PadSource` is given by what it answers at the call; a method asks it once at most.
use jbuu.Base.{
  ℕ, ◌+◌, ◌%◌, Bool, true, false, not, ◌||◌, ◌==◌, if◌then◌else◌, Option, none, some, List, [], ◌∷◌,
  u64_limit,
}
use jbuu.Base.Result.{Result, ok, err}
use jbuu.Base.State.{Action, pure, raise_if, get, modify, ◌>>=◌, ◌>>◌}
use jbuu.Base.Bytes.{Bytes}
use jbuu.Types.{client, server, role_eq}
use jbuu.FullOtp.Error.{
  wrong_bundle, closed, PadSourceError, coordinator_must_be_server, PumpError, data_error,
  source_error,
}
use jbuu.FullOtp.Control.{PadControl, pad_offer, pad_ack, pad_need, close}
use jbuu.FullOtp.Pad.{PadStream, split_bundle}
use jbuu.FullOtp.Pump.{FullOtpPump, is_some, shut, close_pump, reject_if}

pub data PumpAction : Type 0 where
  send_pad_need : PumpAction
  send_pad_offer : ℕ → ℕ → PumpAction
  send_pad_ack : ℕ → PumpAction

pub record PadSource : Type 0 where
  pub reserve_next_bundle : Result (ℕ × Bytes) PadSourceError
  pub reserve_bundle_at : ℕ → Result Bytes PadSourceError

-- The answer of the source, whose error closes the pump.
abbrev pub or_shut :
    {A E : Type 0} → Result A PadSourceError → (PadSourceError → E) → Action FullOtpPump E A
or_shut (ok a) into p = (ok a, p)
or_shut (err e) into p = (err (into e), shut p)

abbrev pub has_next : FullOtpPump → Bool
has_next p = is_some p.planes.c2s.next || is_some p.planes.s2c.next

-- The halves of a new bundle become the next streams, and the counter goes on; it wraps in a release
-- build.
abbrev pub keep_bundle : PadStream × PadStream → FullOtpPump → FullOtpPump
keep_bundle (c2s, s2c) p = record p {
  planes = record {
    c2s = record p.planes.c2s { next = some c2s };
    s2c = record p.planes.s2c { next = some s2c };
  };
  next_bundle_id = (p.next_bundle_id + 1) % u64_limit;
}

abbrev pub to_list : {A : Type 0} → Option A → List A
to_list none = []
to_list (some a) = a ∷ []

abbrev pub is_pending : Option ℕ → ℕ → Bool
is_pending none id = false
is_pending (some b) id = b == id

module _ (source : PadSource) where
  unfoldable pub prefetch : Action FullOtpPump PadSourceError (Option PumpAction)
  prefetch = do
    p ← get
    let bundle_id = p.next_bundle_id
    (base, flat) ← or_shut source.reserve_next_bundle (λ e. e)
    modify (keep_bundle (split_bundle bundle_id base flat))
    modify (λ q. record q { next_acked = false; pending_ack = some bundle_id })
    pure (some (send_pad_offer bundle_id base))

  unfoldable pub server_prefetch : Action FullOtpPump PadSourceError (Option PumpAction)
  unfolding prefetch
  server_prefetch = do
    p ← get
    if p.is_closed
        then pure none
        else reject_if (not (role_eq p.role server)) coordinator_must_be_server
          >> (if has_next p then pure none else prefetch)

  -- What `on_control` makes of the answer of `server_prefetch`.
  abbrev pub as_actions :
      Result (Option PumpAction) PadSourceError × FullOtpPump
      → Result (List PumpAction) PumpError × FullOtpPump
  as_actions (ok o, p) = (ok (to_list o), p)
  as_actions (err e, p) = (err (source_error e), p)

  -- The cases of `on_control`, on a pump that is open.
  unfoldable pub on_open : PadControl → Action FullOtpPump PumpError (List PumpAction)
  unfolding server_prefetch
  on_open pad_need = do
    p ← get
    reject_if (not (role_eq p.role server)) (data_error closed)
    λ (q : FullOtpPump). as_actions (server_prefetch q)
  on_open (pad_offer bundle_id base_segment) = do
    p ← get
    reject_if (not (role_eq p.role client)) (data_error closed)
    reject_if (not (bundle_id == p.next_bundle_id)) (data_error wrong_bundle)
    reject_if (has_next p) (data_error wrong_bundle)
    flat ← or_shut (source.reserve_bundle_at base_segment) source_error
    modify (keep_bundle (split_bundle bundle_id base_segment flat))
    pure (send_pad_ack bundle_id ∷ [])
  on_open (pad_ack bundle_id) = do
    p ← get
    reject_if (not (role_eq p.role server)) (data_error closed)
    reject_if (not (is_pending p.pending_ack bundle_id)) (data_error wrong_bundle)
    modify (λ q. record q { next_acked = true; pending_ack = none })
    pure []
  on_open close = do modify close_pump; pure []

  unfoldable pub on_control : PadControl → Action FullOtpPump PumpError (List PumpAction)
  unfolding on_open
  on_control msg = do p ← get; raise_if p.is_closed (data_error closed); on_open msg
