-- ===== src/Codec/Decode/RoundTrip.antt =====
-- Decoding what was encoded: crates/otp-codec/src/decode.rs after src/encode.rs.
use jbuu.Base.{
  ℕ, ◌+◌, ◌≡◌, ◌≤◌, refl, arith, none, some, length, [], ◌++◌, ◌%◌, u32_limit, true, false,
  append-nil, ltb, lt→ltb, u64_limit, length-drop, ◌-◌, ◌∙◌, inl, inr, ap, take, drop, take-append,
  drop-append, append_assoc, length-append,
}
use jbuu.Base.Result.{ok, Result-cases}
use jbuu.Base.Bytes.{Bytes, to_be, from_be, from_be-to_be, length-to_be, lengths}
use jbuu.Types.{Role, client, server, client_to_server, server_to_client}
use jbuu.Codec.Message.{
  MsgType, Message, hello, arbitrate, issue_request, confirm_c2s, confirm_s2c, data_record,
  msg_type, type_direction, IsTyped, plen_ok, version, type_wire, type_wire-lt,
  type_from_wire-type_wire,
}
use jbuu.Codec.Encode.{
  payload, payload_len_of, canonical_check, frame, encode, encode-eq, encode_fails, length-payload,
}
use jbuu.Codec.Decode.Fields.{decode_payload-payload}
use jbuu.Codec.Decode.{frame_bound, direction_check, decode_payload, decode}

-- A canonical payload has a length that its type allows.
pub plen_ok-payload_len_of :
    (m : Message)
    → IsTyped m
    → canonical_check m ≡ ok tt
    → plen_ok (msg_type m) (payload_len_of m) ≡ true
unfolding payload_len_of canonical_check
plen_ok-payload_len_of (hello i n p f) h k = refl
plen_ok-payload_len_of (arbitrate n p r) h k = refl
plen_ok-payload_len_of (issue_request p c s) h k = refl
plen_ok-payload_len_of (confirm_c2s i n e q s) h k = refl
plen_ok-payload_len_of (confirm_s2c i n e q s) h k = refl
plen_ok-payload_len_of (data_record e q b) h k = ground arith

pub payload_len_of-le :
    (m : Message) → plen_ok (msg_type m) (payload_len_of m) ≡ true → payload_len_of m ≤ 65568
payload_len_of-le (hello i n p f) h = ground arith
payload_len_of-le (arbitrate n p r) h = ground arith
payload_len_of-le (issue_request p c s) h = ground arith
payload_len_of-le (confirm_c2s i n e q s) h = ground arith
payload_len_of-le (confirm_s2c i n e q s) h = ground arith
payload_len_of-le (data_record e q b) h = ground arith

-- The parts of a frame, as `decode` cuts them out again.
module _ (a b c d : Bytes) (ha : length a ≡ 2) (hb : length b ≡ 2) (hc : length c ≡ 4) where
  cut_version : take 2 (a ++ (b ++ (c ++ d))) ≡ a
  cut_version = take-append a _ 2 ha

  cut_type : take 2 (drop 2 (a ++ (b ++ (c ++ d)))) ≡ b
  cut_type = rw (drop-append a (b ++ (c ++ d)) 2 ha) (take-append b _ 2 hb)

  drop_four : drop 4 (a ++ (b ++ (c ++ d))) ≡ c ++ d
  drop_four =
      rw (← append_assoc a b (c ++ d))
        (drop-append (a ++ b) (c ++ d) 4 (omega (arith, length-append a b)))

  cut_len : take 4 (drop 4 (a ++ (b ++ (c ++ d)))) ≡ c
  cut_len = rw drop_four (take-append c d 4 hc)

  cut_rest : drop 8 (a ++ (b ++ (c ++ d))) ≡ d
  cut_rest =
      rw (← append_assoc a b (c ++ d), ← append_assoc (a ++ b) c d)
        (drop-append ((a ++ b) ++ c) d 8
          (omega (arith, length-append a b, length-append (a ++ b) c)))

-- The step 6 test as a relation: who may receive a message.
pub data Receives : Role → Message → Type 0 where
  any_direction : {r : Role} {m : Message} → type_direction (msg_type m) ≡ none → Receives r m
  at_server :
      {m : Message} → type_direction (msg_type m) ≡ some client_to_server → Receives server m
  at_client :
      {m : Message} → type_direction (msg_type m) ≡ some server_to_client → Receives client m

Receives-direction_check :
    {r : Role} {m : Message}
    → Receives r m
    → direction_check (type_direction (msg_type m)) r ≡ ok tt
unfolding direction_check
Receives-direction_check (any_direction e) = rw e
Receives-direction_check (at_server e) = rw e
Receives-direction_check (at_client e) = rw e

pub length-frame : (m : Message) → IsTyped m → length (frame m) ≡ 8 + payload_len_of m
unfolding frame
length-frame m h = omega (lengths, length-payload m h)

-- The steps of `decode` on a buffer whose header is well formed.
frame_bound_exact : (len end : ℕ) → len ≡ end → frame_bound len end ≡ ok tt
unfolding frame_bound
frame_bound_exact len end h = ground arith

pub take_all : (n : ℕ) (p : Bytes) → length p ≡ n → take n p ≡ p
take_all n p h = rw append-nil at (take-append p [] n h)

module _ (r : Role) (t : MsgType) (buf p : Bytes) (n : ℕ) (len : length buf ≡ 8 + n)
    (version_field : from_be (take 2 buf) ≡ version)
    (type_field : from_be (take 2 (drop 2 buf)) ≡ type_wire t)
    (len_field : from_be (take 4 (drop 4 buf)) ≡ n) (allowed : plen_ok t n ≡ true)
    (small : n ≤ 65568) (receiver : direction_check (type_direction t) r ≡ ok tt)
    (rest : drop 8 buf ≡ p) where
  decode-of_parts : decode r buf ≡ decode_payload t p
  unfolding decode
  decode-of_parts =
      let long : ltb (length buf) 8 ≡ false = ground arith in
      let sum : ltb (8 + n) u64_limit ≡ true = lt→ltb (8 + n) u64_limit (omega arith) in
      let size : length p ≡ 8 + n - 8 = rw (← rest) (omega (arith, length-drop 8 buf)) in
      rw (
        long,
        version_field,
        type_field,
        type_from_wire-type_wire t,
        len_field,
        allowed,
        sum,
        frame_bound_exact (length buf) (8 + n) len,
        receiver,
        rest,
        take_all (8 + n - 8) p size,
      )

pub frame_parts :
    (m : Message)
    → IsTyped m
    → (from_be (take 2 (frame m)) ≡ version)
      × (from_be (take 2 (drop 2 (frame m))) ≡ type_wire (msg_type m))
      × (from_be (take 4 (drop 4 (frame m))) ≡ from_be (to_be 4 (payload_len_of m % u32_limit)))
      × (drop 8 (frame m) ≡ payload m)
unfolding frame
frame_parts m h =
    let a = to_be 2 version in
    let b = to_be 2 (type_wire (msg_type m)) in
    let c = to_be 4 (payload_len_of m % u32_limit) in
    let d = payload m in
    let la = length-to_be 2 version in
    let lb = length-to_be 2 (type_wire (msg_type m)) in
    let lc = length-to_be 4 (payload_len_of m % u32_limit) in
    (
      ap from_be (cut_version a b c d la lb lc) ∙ from_be-to_be 2 version (omega arith),
      ap from_be (cut_type a b c d la lb lc)
          ∙ from_be-to_be 2 (type_wire (msg_type m)) (type_wire-lt (msg_type m)),
      ap from_be (cut_len a b c d la lb lc),
      cut_rest a b c d la lb lc,
    )

decode-frame :
    (r : Role) (m : Message)
    → IsTyped m
    → canonical_check m ≡ ok tt
    → Receives r m
    → decode r (frame m) ≡ ok m
unfolding decode
decode-frame r m h k to =
    let fits = plen_ok-payload_len_of m h k in
    let small = payload_len_of-le m fits in
    let parts = frame_parts m h in
    let n = payload_len_of m in
    let len : n % u32_limit ≡ n = omega arith in
    decode-of_parts r (msg_type m) (frame m) (payload m) n (length-frame m h) parts.0 parts.1
      (parts.2 ∙ rw len (from_be-to_be 4 n (omega arith))) fits small (Receives-direction_check to)
      parts.3
    ∙ decode_payload-payload m h k

-- A message in the ranges of its types that encodes decodes to itself at a role that receives it.
pub decode-encode :
    (r : Role) (m : Message) (out : Bytes)
    → IsTyped m
    → Receives r m
    → encode m ≡ ok out
    → decode r out ≡ ok m
decode-encode r m out h to e = elim (Result-cases (canonical_check m)) [
  | inl (_, k) ↦
      let same : frame m ≡ out = cc (encode-eq m k) in rw (← same) (decode-frame r m h k to)
  | inr (code, k) ↦ cc (encode_fails m k)
]
