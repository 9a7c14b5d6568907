-- ===== src/FullOtp/Pump/Receiving/Branches.antt =====
-- crates/otp-fullotp/src/pump.rs: `receive` ends as the module above says.
use jbuu.Base.{
  ℕ, ◌≡◌, refl, sym, subst, ap, ◌∙◌, inl, inr, arith, Bool, true, false, not, ◌==◌, if◌then◌else◌,
  Bool-cases, Option, none, some, length, checked_add,
}
use jbuu.Base.Result.{Result, ok, err, Result-cases}
use jbuu.Base.State.{Action, pure, continue_with, get, modify, ◌>>=◌, ◌>>◌}
use jbuu.Base.Actions.{Post, Ends, Ends-raise_if}
use jbuu.Base.Bytes.{Bytes}
use jbuu.Types.{Direction, direction_eq}
use jbuu.FullOtp.{OtpDataRecord, decode_otp}
use jbuu.FullOtp.Error.{OtpError, wrong_direction, wrong_bundle, closed, Stop, fails}
use jbuu.FullOtp.Pad.{PadStream, below_low_water, pad_half}
use jbuu.FullOtp.Pad.Burning.{behind, behind-IsSpent}
use jbuu.FullOtp.Record.{open_record}
use jbuu.FullOtp.Record.Opening.{Opens, OpenEnds, open_record-OpenEnds}
use jbuu.FullOtp.Pump.{
  FullOtpPump, Received, current_of, next_of, with_plane, shut, switched, is_bundle, switch,
  switch_to, count_consumed, or_fail, reject_if, follow, receive, advance_recv,
}
use jbuu.FullOtp.Pump.Invariant.{IsLive, IsShut, IsWell, IsWellAs, IsPlane-of, shut_live}
use jbuu.FullOtp.Pump.Receiving.{
  recv_way, InStep, InStep-IsLive, expectation, after_receive, ReceiveEnds, shut-with_plane,
  shut-count_consumed, close_opened,
}

pub Ends-reject_if :
    {E A : Type 0} (b : Bool) (e : E) (k : Action FullOtpPump E A) (p : FullOtpPump)
    (Q : Post FullOtpPump E A)
    → (b ≡ true → Q (err e) (shut p))
    → (b ≡ false → Ends k p Q)
    → Ends (reject_if b e >> k) p Q
Ends-reject_if true e k p Q rejects passes = rejects refl
Ends-reject_if false e k p Q rejects passes = passes refl

module _ {A : Type 0} (id : ℕ) (k : Unit {0} → Action FullOtpPump (Stop OtpError) A)
    (p : FullOtpPump) (Q : Post FullOtpPump (Stop OtpError) A)
    (rejects : Q (err (fails wrong_bundle)) (shut p))
    (goes_on : (q : FullOtpPump) → InStep p id q → Ends (k tt) q Q) where
  abbrev follow_by : Bool → Option PadStream → Action FullOtpPump (Stop OtpError) (Unit {0})
  follow_by test next =
      if test
      then (reject_if (not (is_bundle next id)) (fails wrong_bundle) >> switch (recv_way p))
      else pure tt

  Ends-switch :
      (n : PadStream)
      → next_of (recv_way p) p ≡ some n
      → (n.bundle_id == id) ≡ true
      → Ends (switch (recv_way p) >>= k) p Q
  Ends-switch n e same =
      subst
        (λ (o : Option PadStream).
          let y = continue_with k (switch_to o (recv_way p) p) in Q y.0 y.1)
        (sym e) (goes_on (switched (recv_way p) n p) (inr (n, e, ground arith, refl)))

  Ends-follow_by :
      (test : Bool) (next : Option PadStream)
      → next_of (recv_way p) p ≡ next
      → Ends (follow_by test next >>= k) p Q
  Ends-follow_by false next e = goes_on p (inl refl)
  Ends-follow_by true none e = rejects
  Ends-follow_by true (some n) e = elim (Bool-cases (n.bundle_id == id)) [
    | inl same ↦ rw same (Ends-switch n e same)
    | inr other ↦ rw other rejects
  ]

  Ends-follow : Ends (follow (recv_way p) id >>= k) p Q
  Ends-follow = Ends-follow_by _ (next_of (recv_way p) p) refl

module _ (poly1305 : Bytes → Bytes → Bytes) (p : FullOtpPump) (frame : Bytes) where
  abbrev Q : Post FullOtpPump (Stop OtpError) Received
  Q = ReceiveEnds poly1305 p frame

  -- What follows an open record.
  abbrev finish : ℕ → Bytes → Action FullOtpPump (Stop OtpError) Received
  finish l plaintext = do
    modify (count_consumed (recv_way p) l)
    r ← get
    let need_pad = below_low_water (current_of (recv_way p) r)
    advance_recv (checked_add r.recv_seq 1)
    pure (record { plaintext = plaintext; need_pad = need_pad })

  module _ (q : FullOtpPump) (r : OtpDataRecord) (decoded : decode_otp frame ≡ ok r)
      (live : IsLive q) (number : q.recv_seq ≡ p.recv_seq) (opened : q.is_closed ≡ false)
      (p_open : p.is_closed ≡ false) (step : InStep p r.bundle_id q) where
    abbrev d : Direction
    d = recv_way p

    opened_pump :
        (plain : Bytes) (s : PadStream) (o : Option ℕ)
        → checked_add q.recv_seq 1 ≡ o
        → length s.buf ≡ pad_half
        → Opens poly1305 (expectation d q) frame (current_of d q) plain s
        → let t = count_consumed d (length r.ciphertext) (with_plane d s (next_of d q) q) in
          let y =
            continue_with {B = Received}
              (λ (_ : Unit {0}).
                pure (record { plaintext = plain; need_pad = below_low_water (current_of d t) }))
              (advance_recv o t) in
          Q y.0 y.1
    opened_pump plain s none e size h =
        let t = count_consumed d (length r.ciphertext) (with_plane d s (next_of d q) q) in
        let (ended, wasted) =
          subst (λ (u : FullOtpPump). (u.is_closed ≡ true) × IsShut u) (sym (close_opened t opened))
            (
              refl,
              shut-count_consumed d _ (with_plane d s (next_of d q) q)
                  (shut-with_plane d s (next_of d q) q live size),
            ) in
        inr (inr (r, decoded, p_open, ended, wasted))
    opened_pump plain s (some n) e size h =
        let same : h.found ≡ r = found_is h.found h.decoded in
        record {
          open_pump = p_open;
          pump = q;
          stream = s;
          opens = h;
          in_step = subst (λ (x : OtpDataRecord). InStep p x.bundle_id q) (sym same) step;
          number = n;
          next_number = ap (λ (m : ℕ). checked_add m 1) (sym number) ∙ e;
          left = ap (λ (x : OtpDataRecord). after_receive d (length x.ciphertext) n s q) (sym same);
        }
      where
        found_is : (x : OtpDataRecord) → decode_otp frame ≡ ok x → x ≡ r
        found_is x g = let e = sym g ∙ decoded in cc

    after_open :
        (x : Result Bytes OtpError × PadStream)
        → OpenEnds poly1305 (expectation d q) frame (current_of d q) x.0 x.1
        → let y =
            continue_with
              (finish (length r.ciphertext))
              (or_fail (x.0, with_plane d x.1 (next_of d q) q)) in
          Q y.0 y.1
    after_open (err e, s) size = inr (
        inr (
          r,
          decoded,
          p_open,
          refl,
          shut-with_plane d s (next_of d q) q live (size ∙ (IsPlane-of d q live).spent.size),
        ))
    after_open (ok plain, s) h = opened_pump plain s _ refl (size_behind h.left) h
      where
        size_behind :
            s ≡ behind (length h.found.ciphertext) (current_of d q) → length s.buf ≡ pad_half
        size_behind e =
            ap (λ (x : PadStream). length x.buf) e
            ∙ (behind-IsSpent _ (current_of d q) (IsPlane-of d q live).spent h.room).size

  -- A pump that is well takes any frame, and does not panic. What it accepts has passed every check of
  -- `open_record` against the current stream, or against the next one where the record is of its bundle;
  -- the number of the record is the expected one, which then goes on by one. A closed pump refuses
  -- everything, and a frame that does not decode is refused with its error and the pump, which is open,
  -- stays as it was. After any other refusal the pump is closed and all its pads are burnt.
  pub receive-ReceiveEnds : IsWell p → Ends (receive poly1305 frame) p Q
  unfolding receive
  receive-ReceiveEnds well =
      Ends-raise_if p.is_closed (fails closed) _ p Q (λ ended. inl (refl, ended, refl))
        (λ opened.
          let live = subst (λ (b : Bool). IsWellAs b p) opened well in
          elim (Result-cases (decode_otp frame)) [
            | inr (w, bad) ↦ rw bad (inr (inl (w, bad, refl, opened, refl)))
            | inl (r, decoded) ↦ rw decoded (
                Ends-reject_if (not (direction_eq r.direction (recv_way p))) (fails wrong_direction)
                  _ p Q (λ _. inr (inr (r, decoded, opened, refl, shut_live p live)))
                  (λ _.
                    Ends-follow r.bundle_id _ p Q
                      (inr (inr (r, decoded, opened, refl, shut_live p live)))
                      (λ q step.
                        let (live_q, number, state) = InStep-IsLive p q r.bundle_id live step in
                        after_open q r decoded live_q number (state ∙ opened) opened step
                          (open_record poly1305 (expectation (recv_way p) q) frame
                            (current_of (recv_way p) q))
                          (open_record-OpenEnds poly1305 (expectation (recv_way p) q) frame
                            (current_of (recv_way p) q) (IsPlane-of (recv_way p) q live_q).spent))))
          ])
