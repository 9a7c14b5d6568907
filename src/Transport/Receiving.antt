-- ===== src/Transport/Receiving.antt =====
-- crates/otp-transport/src/frame.rs: `recv_frame` reads what `send_frame` has written, and the frames of
-- crates/otp-codec are sound.
use jbuu.Base.{
  ℕ, ◌+◌, ◌≤◌, ◌<◌, ◌≡◌, refl, sym, subst, ap, ◌∙◌, arith, ltb, Option, none, some, ◌++◌,
  append_assoc, length, take, drop, length-append, take-append, drop-append, drop-take, take-take,
  take-append-drop, length-take_le, length-drop,
}
use jbuu.Base.Result.{Result, ok, err}
use jbuu.Base.State.{Action, ◌>>=◌}
use jbuu.Base.Actions.{Post, Ends, Ends-raise_if}
use jbuu.Base.Bytes.{Bytes, from_be}
use jbuu.Codec.Message.{max_frame_payload}
use jbuu.Transport.{
  TransportError, closed_by_peer, frame_too_large, frame_malformed, ByteIo, declared_len, refusal,
  read_or, expect_bytes, recv_frame,
}

-- What `recv_frame` relies on: a read that succeeds takes that many bytes off the stream, and where
-- there are enough of them it does not report the end of the stream.
pub record IsSource {S : Type 0} (stream : ByteIo S) : Type 0 where
  pub unread : S → Bytes
  pub reads :
      (n : ℕ) (s t : S) (bs : Bytes)
      → stream.read_full n s ≡ (ok (some bs), t)
      → (length bs ≡ n) × (unread s ≡ bs ++ unread t)
  pub not_ended : (n : ℕ) (s t : S) → stream.read_full n s ≡ (ok none, t) → length (unread s) < n

-- The ends of a reception where a sound frame comes first on the stream: the frame is answered and what
-- follows it is left, or the error is one that a read of the stream has answered.
pub data Received {S : Type 0} (stream : ByteIo S) (frame rest : Bytes)
    : Result Bytes TransportError → Bytes → Type 0 where
  whole : {left : Bytes} → left ≡ rest → Received stream frame rest (ok frame) left
  read_failed :
      {e : TransportError} {left : Bytes} (n : ℕ) (s t : S)
      → stream.read_full n s ≡ (err e, t)
      → Received stream frame rest (err e) left

-- What `refusal` has checked.
pub record IsSound (frame : Bytes) : Type 0 where
  pub long : 8 ≤ length frame
  pub bounded : declared_len frame ≤ 65568
  pub exact : length frame ≡ 8 + declared_len frame

pub refusal-IsSound : (frame : Bytes) → refusal frame ≡ none → IsSound frame
unfolding refusal
refusal-IsSound frame h = record {
  long = ground arith;
  bounded = ground arith;
  exact = ground arith;
}

pub IsSound-refusal : (frame : Bytes) → IsSound frame → refusal frame ≡ none
unfolding refusal
IsSound-refusal frame h =
    let long = h.long in let bounded = h.bounded in let exact = h.exact in ground arith

module _ {S : Type 0} (stream : ByteIo S) (source : IsSource stream) where
  Ends-expect_bytes :
      (e : TransportError) (n : ℕ) (f : Bytes → Action S TransportError Bytes) (s : S)
      (front rest : Bytes) (frame tail : Bytes)
      → source.unread s ≡ front ++ rest
      → length front ≡ n
      → ((t : S)
          → source.unread t ≡ rest
          → Ends (f front) t (λ r u. Received stream frame tail r (source.unread u)))
      → Ends
          (expect_bytes stream e n >>= f)
          s
          (λ r u. Received stream frame tail r (source.unread u))
  Ends-expect_bytes e n f s front rest frame tail has size passes =
      by_run (stream.read_full n s) refl
    where
      by_run :
          (p : Result (Option Bytes) TransportError × S)
          → stream.read_full n s ≡ p
          → (let q = (λ (_ : S). read_or stream e p) in
              Ends (q >>= f) s (λ r u. Received stream frame tail r (source.unread u)))
      by_run (ok none, t) h =
          let short = source.not_ended n s t h in
          absurd (omega (arith, ap (λ (x : Bytes). length x) has, length-append front rest))
      by_run (ok (some bs), t) h =
          let (n_bytes, taken) = source.reads n s t bs h in
          let both = sym taken ∙ has in
          let same : bs ≡ front =
            sym (take-append bs (source.unread t) n n_bytes)
            ∙ ap (λ (x : Bytes). take n x) both
            ∙ take-append front rest n size in
          let left : source.unread t ≡ rest =
            sym (drop-append bs (source.unread t) n n_bytes)
            ∙ ap (λ (x : Bytes). drop n x) both
            ∙ drop-append front rest n size in
          subst
            (λ (x : Bytes). Ends (f x) t (λ r u. Received stream frame tail r (source.unread u)))
            (sym same) (passes t left)
      by_run (err x, t) h = read_failed n s t h

  header_len : (frame : Bytes) → declared_len (take 8 frame) ≡ declared_len frame
  header_len frame =
      ap (λ (x : Bytes). from_be x)
        (ap (λ (x : Bytes). take 4 x) (drop-take 4 4 frame)
          ∙ take-take 4 4 (drop 4 frame) (omega arith))

  -- Where a sound frame comes first on the stream, `recv_frame` answers it and leaves what follows it,
  -- or a read fails: it takes no other bytes for a frame and reports no error of its own.
  pub recv_frame-Received :
      (frame rest : Bytes) (s : S)
      → IsSound frame
      → source.unread s ≡ frame ++ rest
      → Received stream frame rest (recv_frame stream s).0 (source.unread (recv_frame stream s).1)
  unfolding recv_frame
  recv_frame-Received frame rest s sound has =
      let Q : Post S TransportError Bytes = λ r u. Received stream frame rest r (source.unread u) in
      let long = sound.long in
      let bounded = sound.bounded in
      let exact = sound.exact in
      let size : length (take 8 frame) ≡ 8 = length-take_le 8 frame (omega arith) in
      let parts : take 8 frame ++ drop 8 frame ≡ frame = take-append-drop 8 frame in
      let split : source.unread s ≡ take 8 frame ++ (drop 8 frame ++ rest) =
        has
        ∙ ap (λ (x : Bytes). x ++ rest) (sym parts)
        ∙ append_assoc (take 8 frame) (drop 8 frame) rest in
      Ends-expect_bytes closed_by_peer 8 _ s (take 8 frame) (drop 8 frame ++ rest) frame rest split
        size
        (λ t left.
          Ends-raise_if (ltb max_frame_payload (declared_len (take 8 frame)))
            (frame_too_large (declared_len (take 8 frame))) _ t Q
            (λ over. let same = header_len frame in absurd (ground arith))
            (λ _.
              Ends-expect_bytes frame_malformed (declared_len (take 8 frame)) _ t (drop 8 frame)
                rest frame rest left (omega (arith, length-drop 8 frame, header_len frame))
                (λ u done.
                  subst (λ (x : Bytes). Received stream frame rest (ok x) (source.unread u))
                    (sym parts) (whole done))))
