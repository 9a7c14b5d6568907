-- ===== src/Transport/Sending.antt =====
-- crates/otp-transport/src/frame.rs, `send_frame`: what is on the stream afterwards.
use jbuu.Base.{
  ℕ, zero, suc, ◌+◌, ◌-◌, ◌≤◌, ◌<◌, ◌≡◌, refl, sym, ap, ◌∙◌, arith, inl, inr, Bool-cases, ltb, min,
  none, ◌++◌, append_assoc, append-nil, length, take, drop, take-take, take-drop, take-length,
  length-drop, length-take_le,
}
use jbuu.Base.Result.{Result, ok, err}
use jbuu.Base.State.{Action, continue_with, ◌>>=◌}
use jbuu.Base.Actions.{Post, Ends}
use jbuu.Base.Bytes.{Bytes}
use jbuu.Transport.{
  TransportError, ByteIo, Stop, fails, lifted, write_chunk, write_some, write_from, refusal,
  send_frame,
}

-- What `send_frame` relies on: a partial write that succeeds writes at least one byte, the first ones
-- of its buffer, and a write that fails writes nothing.
pub record IsSink {S : Type 0} (stream : ByteIo S) : Type 0 where
  pub written : S → Bytes
  pub progress :
      (bs : Bytes) (s t : S) (n : ℕ)
      → 0 < length bs
      → stream.write_partial bs s ≡ (ok n, t)
      → (1 ≤ n) × (n ≤ length bs)
  pub writes :
      (bs : Bytes) (s t : S) (n : ℕ)
      → stream.write_partial bs s ≡ (ok n, t)
      → written t ≡ written s ++ take n bs
  pub fails_clean :
      (bs : Bytes) (s t : S) (e : TransportError)
      → stream.write_partial bs s ≡ (err e, t)
      → written t ≡ written s

-- The ends of a send from a stream on which `base` was written: the whole frame is on it, or the error
-- that the write of the next part has answered came behind a front of it. It never runs out of fuel.
pub data Sent {S : Type 0} (stream : ByteIo S) (base frame : Bytes)
    : Result (Unit {0}) Stop → Bytes → Type 0 where
  whole : {out : Bytes} → out ≡ base ++ frame → Sent stream base frame (ok tt) out
  broken :
      {e : TransportError} {out : Bytes} (k : ℕ) (s t : S)
      → k < length frame
      → stream.write_partial (take (min (length frame - k) write_chunk) (drop k frame)) s
        ≡ (err e, t)
      → out ≡ base ++ take k frame
      → Sent stream base frame (err (fails e)) out

module _ {S : Type 0} (stream : ByteIo S) (sink : IsSink stream) where
  abbrev Sends : Bytes → Bytes → Post S Stop (Unit {0})
  Sends base frame r t = Sent stream base frame r (sink.written t)

  Ends-write_some :
      (bs : Bytes) (f : ℕ → Action S Stop (Unit {0})) (s : S) (Q : Post S Stop (Unit {0}))
      → ((n : ℕ) (t : S) → stream.write_partial bs s ≡ (ok n, t) → Ends (f n) t Q)
      → ((e : TransportError) (t : S)
          → stream.write_partial bs s ≡ (err e, t)
          → Q (err (fails e)) t)
      → Ends (write_some stream bs >>= f) s Q
  Ends-write_some bs f s Q passes stops = by_run (stream.write_partial bs s) refl
    where
      by_run :
          (p : Result ℕ TransportError × S)
          → stream.write_partial bs s ≡ p
          → (let q = continue_with f (lifted p) in Q q.0 q.1)
      by_run (ok n, t) e = passes n t e
      by_run (err x, t) e = stops x t e

  -- One write more.
  written_more :
      (base frame : Bytes) (off n w : ℕ)
      → n ≤ w
      → (base ++ take off frame) ++ take n (take w (drop off frame)) ≡ base ++ take (off + n) frame
  written_more base frame off n w h =
      rw (take-take n w (drop off frame) h, ← take-drop off n frame)
        (append_assoc base (take off frame) (take n (drop off frame)))

  write_from-Sends :
      (fuel : ℕ) (base frame : Bytes) (off : ℕ) (s : S)
      → off ≤ length frame
      → length frame - off ≤ fuel
      → sink.written s ≡ base ++ take off frame
      → Ends (write_from stream fuel frame off) s (Sends base frame)
  unfolding write_from
  write_from-Sends zero base frame off s h k e = elim (Bool-cases (ltb off (length frame))) [
    | inl more ↦ absurd (ground arith)
    | inr done ↦
        let all : off ≡ length frame = ground arith in
        rw done (
          whole (
            e
            ∙ ap (λ (x : Bytes). base ++ x) (ap (λ (x : ℕ). take x frame) all ∙ take-length frame)))
  ]
  write_from-Sends (suc fuel) base frame off s h k e = elim (Bool-cases (ltb off (length frame))) [
    | inl more ↦ rw more (
        let w = min (length frame - off) write_chunk in
        let bs = take w (drop off frame) in
        let less : off < length frame = ground arith in
        Ends-write_some bs _ s (Sends base frame)
          (λ n t wrote.
            let size : length bs ≡ w =
              length-take_le w (drop off frame) (omega (arith, length-drop off frame)) in
            let (one, most) = sink.progress bs s t n (omega arith) wrote in
            write_from-Sends fuel base frame (off + n) t (omega arith) (omega arith) (
              sink.writes bs s t n wrote
              ∙ ap (λ (x : Bytes). x ++ take n bs) e
              ∙ written_more base frame off n w (omega arith)))
          (λ x t failed. broken off s t less failed (sink.fails_clean bs s t x failed ∙ e)))
    | inr done ↦
        let all : off ≡ length frame = ground arith in
        rw done (
          whole (
            e
            ∙ ap (λ (x : Bytes). base ++ x) (ap (λ (x : ℕ). take x frame) all ∙ take-length frame)))
  ]

  -- Where the frame is sound, `send_frame` writes all of it, or it stops behind a front of it with
  -- the error that the stream has answered to the write of the part that follows: the loop ends, and
  -- nothing else is written.
  pub send_frame-Sent :
      (frame : Bytes) (s : S)
      → refusal frame ≡ none
      → Sent stream
          (sink.written s)
          frame
          (send_frame stream frame s).0
          (sink.written (send_frame stream frame s).1)
  unfolding send_frame
  send_frame-Sent frame s sound = rw sound (
      write_from-Sends (length frame) (sink.written s) frame 0 s (omega arith) (omega arith)
        (sym (append-nil (sink.written s))))
