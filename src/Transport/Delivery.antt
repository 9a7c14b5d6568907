-- ===== src/Transport/Delivery.antt =====
-- crates/otp-codec and crates/otp-transport/src/frame.rs together: a message from `encode` through the
-- byte stream to `decode`.
use jbuu.Base.{
  ◌%◌, ◌≡◌, refl, sym, subst, ap, ◌∙◌, arith, inl, inr, u32_limit, none, ◌++◌, append-nil, length,
  drop, drop-append, [],
}
use jbuu.Base.Result.{Result, ok, Result-cases}
use jbuu.Base.Bytes.{Bytes, from_be-to_be}
use jbuu.Types.{Role}
use jbuu.Codec.Message.{Message, IsTyped}
use jbuu.Codec.Encode.{canonical_check, frame, encode, encode-eq, encode_fails, payload_len_of}
use jbuu.Codec.Decode.{decode}
use jbuu.Codec.Decode.RoundTrip.{
  Receives, plen_ok-payload_len_of, payload_len_of-le, length-frame, frame_parts, decode-encode,
}
use jbuu.Transport.{TransportError, ByteIo, Stop, declared_len, refusal, recv_frame, send_frame}
use jbuu.Transport.Sending.{IsSink, Sent, whole, broken, send_frame-Sent}
use jbuu.Transport.Receiving.{
  IsSource, IsSound, IsSound-refusal, refusal-IsSound, Received, read_failed, recv_frame-Received,
}
use jbuu.Transport.Receiving as Receiving

frame-IsSound : (m : Message) → IsTyped m → canonical_check m ≡ ok tt → IsSound (frame m)
frame-IsSound m h k =
    let small = payload_len_of-le m (plen_ok-payload_len_of m h k) in
    let n = payload_len_of m in
    let len : n % u32_limit ≡ n = omega arith in
    let same : declared_len (frame m) ≡ n =
      (frame_parts m h).2 ∙ rw len (from_be-to_be 4 n (omega arith)) in
    let size = length-frame m h in
    record { long = omega arith; bounded = omega arith; exact = omega arith }

-- What `encode` makes of a message in the ranges of its types, `send_frame` never refuses.
pub refusal-encode :
    (m : Message) (out : Bytes) → IsTyped m → encode m ≡ ok out → refusal out ≡ none
refusal-encode m out h e = elim (Result-cases (canonical_check m)) [
  | inl (_, k) ↦
      let same : frame m ≡ out = cc (encode-eq m k) in
      subst (λ (x : Bytes). refusal x ≡ none) same (IsSound-refusal (frame m) (frame-IsSound m h k))
  | inr (code, k) ↦ cc (encode_fails m k)
]

module _ {S R : Type 0} (near : ByteIo S) (far : ByteIo R) (sink : IsSink near)
    (source : IsSource far) where
  -- The stream brings what was written since `s`.
  abbrev pub Carries : S → S → R → Type 0
  Carries s s' r = sink.written s' ≡ sink.written s ++ source.unread r

  Sent-whole :
      (base out : Bytes) (r : Result (Unit {0}) Stop) (w u : Bytes)
      → r ≡ ok tt
      → Sent near base out r w
      → w ≡ base ++ u
      → u ≡ out
  Sent-whole base out r w u e (whole h) same =
      sym (drop-append base u (length base) refl)
      ∙ ap (λ (x : Bytes). drop (length base) x) (sym same ∙ h)
      ∙ drop-append base out (length base) refl
  Sent-whole base out r w u e (broken k s t lt failed h) same = absurd cc

  Received-ok :
      (out rest bytes left : Bytes) (r : Result Bytes TransportError)
      → r ≡ ok bytes
      → Received far out rest r left
      → bytes ≡ out
  Received-ok out rest bytes left r e (Receiving.whole h) = cc
  Received-ok out rest bytes left r e (read_failed n s t h) = absurd cc

  -- A message in the ranges of its types, encoded, sent without an error over a stream that brings what
  -- was written, and received without an error at the other end: a role that receives such messages
  -- decodes it to the message that was sent.
  pub decode-recv_frame :
      (role : Role) (m : Message) (out bytes : Bytes) (s s' : S) (r r' : R)
      → IsTyped m
      → Receives role m
      → encode m ≡ ok out
      → send_frame near out s ≡ (ok tt, s')
      → Carries s s' r
      → recv_frame far r ≡ (ok bytes, r')
      → decode role bytes ≡ ok m
  decode-recv_frame role m out bytes s s' r r' typed to e sent carries received =
      let sound = refusal-encode m out typed e in
      let end = send_frame-Sent near sink out s sound in
      let on_wire : source.unread r ≡ out =
        Sent-whole (sink.written s) out _ _ (source.unread r)
          (ap (λ (p : Result (Unit {0}) Stop × S). p.0) sent) end
          (ap (λ (p : Result (Unit {0}) Stop × S). sink.written p.1) sent ∙ carries) in
      let got =
        recv_frame-Received far source out [] r (refusal-IsSound out sound)
          (on_wire ∙ sym (append-nil out)) in
      let same : bytes ≡ out =
        Received-ok out [] bytes _ _ (ap (λ (p : Result Bytes TransportError × R). p.0) received)
          got in
      rw same (decode-encode role m out typed to e)
