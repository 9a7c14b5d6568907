-- ===== src/Codec/Decode/Canonical.antt =====
-- Canonical form: whatever decodes is the encoding of its message (src/decode.rs, src/encode.rs).
use jbuu.Base.{
  ℕ, ◌+◌, ◌≡◌, ◌≤◌, arith, some, length, ◌++◌, ◌%◌, u32_limit, ap, take, drop, sym, ◌∙◌, All,
  checked_add, drop-drop, All-drop, All-take, length-drop, length-take_le, take-append-drop,
  Option-cases, ◌-◌, inl, inr,
}
use jbuu.Base.Result.{ok}
use jbuu.Base.Bytes.{Bytes, IsByte, IsArray, to_be, from_be, to_be-from_be, from_be-lt}
use jbuu.Types.{Role}
use jbuu.Codec.Message.{MsgType, type_wire, type_wire_of, type_from_wire, version, Message, IsTyped}
use jbuu.Codec.Encode.{payload_len_of, frame, encode, encode-eq, length-payload}
use jbuu.Codec.Decode.Payloads.{Decodes, decode_payload-Decodes}
use jbuu.Codec.Decode.RoundTrip.{take_all}
use jbuu.Codec.Decode.{decode_payload, decode, frame_bound}

-- An integer read from the front, written again.
int_prefix :
    (n : ℕ) (xs : Bytes)
    → n ≤ length xs
    → All IsByte xs
    → to_be n (from_be (take n xs)) ++ drop n xs ≡ xs
int_prefix n xs le h =
    let front : IsArray n (take n xs) = record {
      size = length-take_le n xs le;
      bytes = All-take IsByte n xs h;
    } in
    rw (to_be-from_be n (take n xs) front) (take-append-drop n xs)

-- A buffer is its header fields and what follows them.
header_parts :
    (buf : Bytes)
    → 8 ≤ length buf
    → All IsByte buf
    → buf
      ≡ to_be 2 (from_be (take 2 buf))
        ++ (to_be 2 (from_be (take 2 (drop 2 buf)))
            ++ (to_be 4 (from_be (take 4 (drop 4 buf))) ++ drop 8 buf))
header_parts buf long h = sym (
    ap
      (λ (x : Bytes).
        to_be 2 (from_be (take 2 buf)) ++ (to_be 2 (from_be (take 2 (drop 2 buf))) ++ x))
      (ap (λ (x : Bytes). to_be 4 (from_be (take 4 (drop 4 buf))) ++ x) (sym (drop-drop 4 4 buf))
        ∙ int_prefix 4 (drop 4 buf) (omega (arith, length-drop 4 buf)) (All-drop IsByte 4 buf h)
        ∙ sym (drop-drop 2 2 buf))
    ∙ ap (λ (x : Bytes). to_be 2 (from_be (take 2 buf)) ++ x)
        (int_prefix 2 (drop 2 buf) (omega (arith, length-drop 2 buf)) (All-drop IsByte 2 buf h))
    ∙ int_prefix 2 buf (omega arith) h)

frame_bound-eq-ok : (len end : ℕ) → frame_bound len end ≡ ok tt → len ≡ end
unfolding frame_bound
frame_bound-eq-ok len end h = ground arith

checked_add-eq-some : (a b : ℕ) {c : ℕ} → checked_add a b ≡ some c → c ≡ a + b
checked_add-eq-some a b h = ground arith

-- What the header checks of `decode` have established where it answers a message.
record Checked (buf : Bytes) (t : MsgType) (m : Message) : Type 0 where
  long : 8 ≤ length buf
  version_field : from_be (take 2 buf) ≡ version
  type_field : type_wire t ≡ from_be (take 2 (drop 2 buf))
  size : length buf ≡ 8 + from_be (take 4 (drop 4 buf))
  body : decode_payload t (drop 8 buf) ≡ ok m

take_rest : (n : ℕ) (buf : Bytes) → length buf ≡ 8 + n → take (8 + n - 8) (drop 8 buf) ≡ drop 8 buf
take_rest n buf h = take_all (8 + n - 8) (drop 8 buf) (omega (arith, length-drop 8 buf))

decode-Checked :
    (r : Role) (buf : Bytes) {m : Message} → decode r buf ≡ ok m → (t : MsgType) × Checked buf t m
unfolding decode
decode-Checked r buf {m} e = elim (Option-cases (type_from_wire (from_be (take 2 (drop 2 buf))))) [
  | inl unknown ↦ absurd (ground arith)
  | inr (t, known) ↦ (t, checked t known)
]
  where
    checked :
        (t : MsgType) → type_from_wire (from_be (take 2 (drop 2 buf))) ≡ some t → Checked buf t m
    checked t known =
        let n = from_be (take 4 (drop 4 buf)) in
        record {
          long = ground arith;
          version_field = ground arith;
          type_field = type_wire_of _ known;
          size = ground (arith, frame_bound-eq-ok (length buf) (8 + n));
          body = ground (arith, frame_bound-eq-ok (length buf) (8 + n), take_rest n buf);
        }

module _ (buf : Bytes) (h : All IsByte buf) {t : MsgType} {m : Message} where
  len_field :
      Checked buf t m
      → Decodes t (drop 8 buf) m
      → payload_len_of m % u32_limit ≡ from_be (take 4 (drop 4 buf))
  len_field c d =
      let front : IsArray 4 (take 4 (drop 4 buf)) = record {
        size = length-take_le 4 (drop 4 buf) (omega (arith, length-drop 4 buf, c.long));
        bytes = All-take IsByte 4 (drop 4 buf) (All-drop IsByte 4 buf h);
      } in
      omega (
        arith,
        length-payload m d.typed,
        ap length d.whole,
        length-drop 8 buf,
        c.size,
        from_be-lt 4 (take 4 (drop 4 buf)) front,
      )

  frame_whole : Checked buf t m → Decodes t (drop 8 buf) m → frame m ≡ buf
  unfolding frame
  frame_whole c d =
      let rest : Bytes =
        to_be 2 (from_be (take 2 (drop 2 buf)))
        ++ (to_be 4 (from_be (take 4 (drop 4 buf))) ++ drop 8 buf) in
      rw (len_field c d, d.kind, c.type_field, d.whole)
        (ap (λ (v : ℕ). to_be 2 v ++ rest) (sym c.version_field) ∙ sym (header_parts buf c.long h))

-- A list of bytes that decodes gives a message in the ranges of its types, and is exactly the encoding
-- of that message.
pub encode-decode :
    (r : Role) (buf : Bytes) {m : Message}
    → All IsByte buf
    → decode r buf ≡ ok m
    → IsTyped m × (encode m ≡ ok buf)
encode-decode r buf {m} h e =
    let (t, c) = decode-Checked r buf e in
    let d = decode_payload-Decodes t (drop 8 buf) (All-drop IsByte 8 buf h) c.body in
    (d.typed, encode-eq m d.canonical ∙ ap ok (frame_whole buf h c d))
