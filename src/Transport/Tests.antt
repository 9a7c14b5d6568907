-- ===== src/Transport/Tests.antt =====
-- Frames (crates/otp-transport) over byte lists in memory, with writes of at most five bytes.
use jbuu.Base.{
  ℕ, ◌<◌, ◌≡◌, refl, sym, subst, arith, min, none, some, Option, Bool, true, false, leb, [], ◌∷◌,
  ◌++◌, length, take, drop, take-append-drop, length-take_le, replicate,
}
use jbuu.Base.Result.{Result, ok, err}
use jbuu.Base.Bytes.{Bytes, to_be, from_be}
use jbuu.Types.{server}
use jbuu.Codec.Message.{Message, issue_request, IsTyped, type_wire}
use jbuu.Codec.Encode.{encode, encode_into, canonical_check, frame, payload, payload_len_of}
use jbuu.Codec.Decode.{decode}
use jbuu.Codec.Decode.RoundTrip.{at_server}
use jbuu.Transport.{
  TransportError, frame_malformed, ByteIo, refusal, write_from, send_frame, recv_frame,
}
use jbuu.Transport.Sending.{IsSink, Sent, send_frame-Sent}
use jbuu.Transport.Receiving.{IsSource, IsSound, refusal-IsSound, Received, recv_frame-Received}
use jbuu.Transport.Delivery.{refusal-encode, decode-recv_frame}

abbrev near : ByteIo Bytes
near = record {
  read_full = λ n s. (ok none, s);
  write_partial = λ bs s. (ok (min (length bs) 5), s ++ take (min (length bs) 5) bs);
}

abbrev take_if : Bool → ℕ → Bytes → Result (Option Bytes) TransportError × Bytes
take_if true n s = (ok (some (take n s)), drop n s)
take_if false n s = (err frame_malformed, s)

abbrev far : ByteIo Bytes
far = record {
  read_full = λ n s. take_if (leb n (length s)) n s;
  write_partial = λ bs s. (ok (length bs), s);
}

-- What a write, and a read, of these streams answer.
abbrev Wrote : Bytes → Bytes → Result ℕ TransportError × Bytes → Type 0
Wrote bs s (ok n, t) = (n ≡ min (length bs) 5) × (t ≡ s ++ take n bs)
Wrote bs s (err _, t) = t ≡ s

abbrev Read : ℕ → Bytes → Result (Option Bytes) TransportError × Bytes → Type 0
Read n s (ok (some bs), t) = (length bs ≡ n) × (s ≡ bs ++ t)
Read n s (ok none, t) = length s < n
Read n s (err _, t) = Unit {0}

wrote :
    (bs s : Bytes) {p : Result ℕ TransportError × Bytes}
    → near.write_partial bs s ≡ p
    → Wrote bs s p
wrote bs s e = subst (λ (p : Result ℕ TransportError × Bytes). Wrote bs s p) e (refl, refl)

take_if-Read : (b : Bool) (n : ℕ) (s : Bytes) → leb n (length s) ≡ b → Read n s (take_if b n s)
take_if-Read true n s h = (length-take_le n s (ground arith), sym (take-append-drop n s))
take_if-Read false n s h = tt

was_read :
    (n : ℕ) (s : Bytes) {p : Result (Option Bytes) TransportError × Bytes}
    → far.read_full n s ≡ p
    → Read n s p
was_read n s e =
    subst (λ (p : Result (Option Bytes) TransportError × Bytes). Read n s p) e
      (take_if-Read (leb n (length s)) n s refl)

abbrev near_sink : IsSink near
near_sink = record {
  written = λ s. s;
  progress = λ bs s t n more e. let size = (wrote bs s e).0 in (omega arith, omega arith);
  writes = λ bs s t n e. (wrote bs s e).1;
  fails_clean = λ bs s t x e. wrote bs s e;
}

abbrev far_source : IsSource far
far_source = record {
  unread = λ s. s;
  reads = λ n s t bs e. was_read n s e;
  not_ended = λ n s t e. was_read n s e;
}

abbrev request : Message
request = issue_request 7 (replicate 16 1) (replicate 16 2)

abbrev request_bytes : Bytes
request_bytes =
    0
    ∷ 2
    ∷ 0
    ∷ 3
    ∷ 0
    ∷ 0
    ∷ 0
    ∷ 40
    ∷ 0
    ∷ 0
    ∷ 0
    ∷ 0
    ∷ 0
    ∷ 0
    ∷ 0
    ∷ 7
    ∷ (replicate 16 1 ++ replicate 16 2)

request-IsTyped : IsTyped request
request-IsTyped = (
  ground arith,
  record { size = refl; bytes = ground arith },
  record { size = refl; bytes = ground arith },
)

encode-request : encode request ≡ ok request_bytes
unfolding encode encode_into canonical_check frame payload payload_len_of to_be type_wire
encode-request = refl

refusal-encode_example : refusal request_bytes ≡ none
refusal-encode_example = refusal-encode request request_bytes request-IsTyped encode-request

send-request : send_frame near request_bytes [] ≡ (ok tt, request_bytes)
unfolding send_frame write_from refusal from_be
send-request = refl

send_frame-Sent_example :
    Sent near [] request_bytes
      (send_frame near request_bytes []).0
      (send_frame near request_bytes []).1
send_frame-Sent_example = send_frame-Sent near near_sink request_bytes [] refusal-encode_example

request_bytes-IsSound : IsSound request_bytes
request_bytes-IsSound = refusal-IsSound request_bytes refusal-encode_example

abbrev two_frames : Bytes
two_frames = request_bytes ++ (9 ∷ [])

recv_frame-Received_example :
    Received far request_bytes (9 ∷ []) (recv_frame far two_frames).0 (recv_frame far two_frames).1
recv_frame-Received_example =
    recv_frame-Received far far_source request_bytes (9 ∷ []) two_frames request_bytes-IsSound refl

recv-request : recv_frame far request_bytes ≡ (ok request_bytes, [])
unfolding recv_frame from_be
recv-request = refl

decode-recv_frame_example : decode server request_bytes ≡ ok request
decode-recv_frame_example =
    decode-recv_frame near far near_sink far_source server request request_bytes request_bytes []
      request_bytes request_bytes [] request-IsTyped (at_server refl) encode-request send-request
      refl recv-request
