-- ===== src/FullOtp/Pump/OneTime/Runs.antt =====
-- crates/otp-fullotp/src/pump.rs: over any sequence of calls, no byte of a pad is used for two records.
use jbuu.Base.{
  ℕ, ◌+◌, ◌≡◌, ◌<◌, refl, sym, subst, ap, ◌∙◌, ◌⊎◌, inl, inr, arith, Bool, true, false, Bool-cases,
  Option, none, List, [], ◌∷◌, ◌++◌, length, All, u64_limit,
}
use jbuu.Base.Result.{Result, ok, err}
use jbuu.Base.Bytes.{Bytes}
use jbuu.Types.{Direction, client_to_server, server_to_client, opposite, send_direction}
use jbuu.Session.State.{Both, at}
use jbuu.FullOtp.{OtpDataRecord}
use jbuu.FullOtp.Error.{
  SendError, send_closed, empty_plaintext, sequence_exhausted, internal, OtpError, Stop, fails,
  panics,
}
use jbuu.FullOtp.Pad.{PadStream}
use jbuu.FullOtp.Pad.Burning.{behind, unspent}
use jbuu.FullOtp.Pump.{
  DirPlane, FullOtpPump, SendOutcome, sent, backpressure, Received, current_of, next_of, with_plane,
  close_pump, send, receive,
}
use jbuu.FullOtp.Pump.Bundles.{server_prefetch, on_control}
use jbuu.FullOtp.Pump.Invariant.{IsLive, IsShut, IsWell, IsWellAs, refresh_ack_state-kept}
use jbuu.FullOtp.Pump.Sending.{SendEnds, send-SendEnds, used-IsLive}
use jbuu.FullOtp.Pump.Receiving.{
  Receives, ReceiveEnds, InStep, InStep-IsLive, after_receive, recv_way, close_opened,
}
use jbuu.FullOtp.Pump.Receiving.Branches.{receive-ReceiveEnds}
use jbuu.FullOtp.Pump.Bundling.{
  IsSource, sending, SameSide, Kept, Kept-same, Kept-shut, on_control-Kept, prefetch_kept,
}
use jbuu.FullOtp.Pump.OneTime.{
  Call, sends, receives, controls, prefetches, closes, sent_record, Sending, step, run, Ascending,
  Moves, Sends-Moves,
}

-- A plane of the other direction.
other_plane :
    (d : Direction) (s : PadStream) (n : Option PadStream) (p : FullOtpPump)
    → current_of d (with_plane (opposite d) s n p) ≡ current_of d p
other_plane client_to_server s n p = refl
other_plane server_to_client s n p = refl

InStep-kept :
    (p q : FullOtpPump) (id : ℕ)
    → InStep p id q
    → (q.role ≡ p.role)
      × (q.send_seq ≡ p.send_seq)
      × (q.next_bundle_id ≡ p.next_bundle_id)
      × (current_of (send_direction p.role) q ≡ sending p)
InStep-kept p q id (inl e) = rw e (refl, refl, refl, refl)
InStep-kept p q id (inr (n, e, _, f)) =
    let d = send_direction p.role in
    let (planes, role, number, _, bundles, _) =
      refresh_ack_state-kept (with_plane (opposite d) n none p) in
    rw f (
      role,
      number,
      bundles,
      ap (λ (x : Both DirPlane). (at d x).current) planes ∙ other_plane d n none p,
    )

shut_well : (t : FullOtpPump) → t.is_closed ≡ true → IsShut t → IsWell t
shut_well t e h = subst (λ (b : Bool). IsWellAs b t) (sym e) h

live_well : (t : FullOtpPump) → t.is_closed ≡ false → IsLive t → IsWell t
live_well t e h = subst (λ (b : Bool). IsWellAs b t) (sym e) h

well-IsLive : (t : FullOtpPump) → t.is_closed ≡ false → IsWell t → IsLive t
well-IsLive t e h = subst (λ (b : Bool). IsWellAs b t) e h

-- The sources of a call give whole bundles.
abbrev pub IsSound : Call → Type 0
IsSound (controls _ source) = IsSource source
IsSound (prefetches source) = IsSource source
IsSound _ = Unit {0}

module _ (poly1305 : Bytes → Bytes → Bytes) where
  Receives-Kept :
      (p : FullOtpPump) (frame : Bytes) (v : Received) (t : FullOtpPump)
      → IsLive p
      → Receives poly1305 p frame v t
      → Kept p t
  Receives-Kept p frame v t h r =
      let d = recv_way p in
      let q = r.pump in
      let text = r.opens.found.ciphertext in
      let (live, _, state) = InStep-IsLive p q _ h r.in_step in
      let (role, number, bundles, stream) = InStep-kept p q _ r.in_step in
      let t0 = after_receive d (length text) r.number (behind (length text) (current_of d q)) q in
      let after = used-IsLive d text q live r.opens.room in
      subst (Kept p)
        (sym (
          r.left ∙ ap (λ (s : PadStream). after_receive d (length text) r.number s q) r.opens.left))
        (record {
          well =
              live_well t0 (state ∙ r.open_pump)
                (record { c2s = after.c2s; s2c = after.s2c; room = after.room });
          side = inr (record {
            role = role;
            send_seq = number;
            stream =
                ap (λ (x : Direction). current_of x t0) (ap send_direction role)
                ∙ other_plane (send_direction p.role) _ (next_of d q) q
                ∙ stream;
            bundles = omega (arith, bundles);
          });
        })

  receive-Kept : (p : FullOtpPump) (frame : Bytes) → IsWell p → Kept p (receive poly1305 frame p).1
  receive-Kept p frame h =
      by_end (receive poly1305 frame p) (receive-ReceiveEnds poly1305 p frame h)
    where
      by_end :
          (x : Result Received (Stop OtpError) × FullOtpPump)
          → ReceiveEnds poly1305 p frame x.0 x.1
          → Kept p x.1
      by_end (ok v, t) r = Receives-Kept p frame v t (well-IsLive p r.open_pump h) r
      by_end (err (fails e), t) (inl (same, _, _)) = subst (Kept p) (sym same) (Kept-same p h)
      by_end (err (fails e), t) (inr (inl (_, _, _, _, same))) =
          subst (Kept p) (sym same) (Kept-same p h)
      by_end (err (fails e), t) (inr (inr (_, _, _, ended, wasted))) = record {
        well = shut_well t ended wasted;
        side = inl ended;
      }
      by_end (err panics, t) r = absurd r

  -- A call sends nothing and keeps the sending side, or it sends one record.
  abbrev Advances : FullOtpPump → List Sending → FullOtpPump → Type 0
  Advances p rs t =
      ((rs ≡ []) × Kept p t)
      ⊎ ((text : Bytes) × (r : OtpDataRecord) × (rs
            ≡ record { before = p; text = text; message = r } ∷ [])
          × Moves poly1305 p text r t)

  send-Advances :
      (p : FullOtpPump) (text : Bytes)
      → IsWell p
      → Advances p (sent_record p text (send poly1305 text p).0) (send poly1305 text p).1
  send-Advances p text h = by_end (send poly1305 text p) (send-SendEnds poly1305 p text h)
    where
      by_end :
          (x : Result SendOutcome (Stop SendError) × FullOtpPump)
          → SendEnds poly1305 p text x.0 x.1
          → Advances p (sent_record p text x.0) x.1
      by_end (ok (sent r l need), t) s =
          inr (text, r, refl, Sends-Moves poly1305 p text r l t (well-IsLive p s.open_pump h) s)
      by_end (ok backpressure, t) (same, _, _) =
          inl (refl, subst (Kept p) (sym same) (Kept-same p h))
      by_end (err (fails send_closed), t) (same, _) =
          inl (refl, subst (Kept p) (sym same) (Kept-same p h))
      by_end (err (fails empty_plaintext), t) (same, _) =
          inl (refl, subst (Kept p) (sym same) (Kept-same p h))
      by_end (err (fails sequence_exhausted), t) (_, ended, wasted) =
          inl (refl, record { well = shut_well t ended wasted; side = inl ended })
      by_end (err (fails internal), t) s = absurd s
      by_end (err panics, t) s = absurd s

  step-Advances :
      (p : FullOtpPump) (c : Call)
      → IsWell p
      → IsSound c
      → p.next_bundle_id + 1 < u64_limit
      → Advances p (step poly1305 p c).0 (step poly1305 p c).1
  unfolding step
  step-Advances p (sends text) h sound room = send-Advances p text h
  step-Advances p (receives frame) h sound room = inl (refl, receive-Kept p frame h)
  step-Advances p (controls msg source) h sound room =
      inl (refl, on_control-Kept p source msg h sound room)
  step-Advances p (prefetches source) h sound room = inl (refl, prefetch_kept p source h sound room)
  step-Advances p closes h sound room = inl (
    refl,
    elim (Bool-cases p.is_closed) [
      | inl ended ↦ rw (close_closed ended) (Kept-same p h)
      | inr opened ↦
          subst (Kept p) (sym (close_opened p opened)) (Kept-shut p (well-IsLive p opened h))
    ],
  )
    where
      close_closed : p.is_closed ≡ true → close_pump p ≡ p
      close_closed e = rw e refl

  step-closed : (p : FullOtpPump) (c : Call) → p.is_closed ≡ true → step poly1305 p c ≡ ([], p)
  unfolding step send receive server_prefetch on_control
  step-closed p (sends text) h = rw h refl
  step-closed p (receives frame) h = rw h refl
  step-closed p (controls msg source) h = rw h refl
  step-closed p (prefetches source) h = rw h refl
  step-closed p closes h = rw h refl

  run-closed : (p : FullOtpPump) (cs : List Call) → p.is_closed ≡ true → (run poly1305 p cs).0 ≡ []
  unfolding run
  run-closed p [] h = refl
  run-closed p (c ∷ cs) h = rw (step-closed p c h) (run-closed p cs h)

  Ascending-at :
      {n m b e c k : ℕ} {x y : Bytes} (rs : List Sending)
      → n ≡ m
      → b ≡ e
      → c ≡ k
      → x ≡ y
      → Ascending poly1305 n b c x rs
      → Ascending poly1305 m e k y rs
  Ascending-at {n} {b} {e} {c} {k} {x} {y} rs p q r t h =
      subst (λ (i : ℕ). Ascending poly1305 i e k y rs) p
        (subst (λ (i : ℕ). Ascending poly1305 n i k y rs) q
          (subst (λ (i : ℕ). Ascending poly1305 n b i y rs) r
            (subst (λ (i : Bytes). Ascending poly1305 n b c i rs) t h)))

  -- In relation to the stream that the pump sends from.
  abbrev pub AscendsFrom : FullOtpPump → List Sending → Type 0
  AscendsFrom p =
      Ascending poly1305 p.send_seq (sending p).bundle_id (sending p).cursor (unspent (sending p))

  -- What the rest of a run sends, from any pump that is well.
  abbrev EachAscends : List Call → Type 0
  EachAscends cs =
      (t : FullOtpPump)
      → IsWell t
      → t.next_bundle_id + length cs < u64_limit
      → AscendsFrom t (run poly1305 t cs).0

  -- Whatever sequence of calls a pump is given that is well, as long as the sources give whole bundles
  -- and the numbers of the bundles are u64: the records that it sends have consecutive numbers from the
  -- next one on. Each is drawn from the unspent bytes of a stream that the pump held before its call,
  -- the tag with the first 32 of them as the key and the text with those behind it. They are what the
  -- record before, or the pump before the first one, has left unspent of its bundle, or bytes of a later
  -- bundle. So no byte of a pad serves two records, whatever fails in between.
  pub run-Ascending :
      (p : FullOtpPump) (calls : List Call)
      → IsWell p
      → All IsSound calls
      → p.next_bundle_id + length calls < u64_limit
      → AscendsFrom p (run poly1305 p calls).0
  unfolding run
  run-Ascending p [] h sound room = tt
  run-Ascending p (c ∷ cs) h sound room =
      by_step (λ t w few. run-Ascending t cs w sound.1 few) (step poly1305 p c)
        (step-Advances p c h sound.0 (omega arith))
    where
      by_side :
          EachAscends cs
          → (t : FullOtpPump) → Kept p t
          → (t.is_closed ≡ true) ⊎ SameSide p t
          → AscendsFrom p (run poly1305 t cs).0
      by_side again t k (inl ended) = rw (run-closed t cs ended) tt
      by_side again t k (inr same) =
          Ascending-at (run poly1305 t cs).0 same.send_seq
            (ap (λ (s : PadStream). s.bundle_id) same.stream)
            (ap (λ (s : PadStream). s.cursor) same.stream) (ap unspent same.stream)
            (again t k.well (omega (arith, same.bundles)))

      by_step :
          EachAscends cs
          → (x : List Sending × FullOtpPump) → Advances p x.0 x.1
          → AscendsFrom p (x.0 ++ (run poly1305 x.1 cs).0)
      by_step again (rs, t) (inl (e, k)) = rw e (by_side again t k k.side)
      by_step again (rs, t) (inr (text, r, e, m)) = rw e (
        m.pad,
        m.next,
        m.held,
        m.drawn,
        Ascending-at (run poly1305 t cs).0 m.number m.bundle m.cursor m.rest
            (again t (live_well t m.opened m.live) (omega (arith, m.bundles))),
      )
