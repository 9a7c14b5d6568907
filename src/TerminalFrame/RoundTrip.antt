-- ===== src/TerminalFrame/RoundTrip.antt =====
-- crates/otp-terminal/src/frame.rs: `decode` after `encode`, and the sizes.
use jbuu.Base.{
  ℕ, ◌+◌, ◌<◌, ◌≤◌, ◌≡◌, refl, sym, subst, arith, ◌^◌, Bool, true, false, ◌==◌, leb, ltb,
  if◌then◌else◌, Option, none, some, [], ◌∷◌, ◌++◌, length, take, drop, take-append, drop-append,
  append-nil, append_assoc,
}
use jbuu.Base.Result.{ok}
use jbuu.Base.Bytes.{Bytes, to_be, from_be, from_be-to_be, length-to_be, lengths}
use jbuu.TerminalFrame.{
  TerminalFrame, open_terminal, attach, input, resize, ping, granted, denied, output, exit, busy,
  gone, fenced, data_chunk_max, encode_chunk, encode_frame, decode_chunk, decode_type, decode_frame,
  IsTypedFrame, max_app_plaintext,
}

-- The fields of a frame, as `decode` cuts them out again.
first_field : (w v : ℕ) (rest : Bytes) → v < 256 ^ w → from_be (take w (to_be w v ++ rest)) ≡ v
first_field w v rest h =
    rw (take-append (to_be w v) rest w (length-to_be w v)) (from_be-to_be w v h)

middle_field :
    (w v n : ℕ) (front rest : Bytes)
    → length front ≡ n
    → v < 256 ^ w
    → from_be (take w (drop n (front ++ (to_be w v ++ rest)))) ≡ v
middle_field w v n front rest size h =
    rw (drop-append front (to_be w v ++ rest) n size) (first_field w v rest h)

last_field :
    (w v n : ℕ) (front : Bytes)
    → length front ≡ n
    → v < 256 ^ w
    → from_be (take w (drop n (front ++ to_be w v))) ≡ v
last_field w v n front size h =
    subst (λ (x : Bytes). from_be (take w (drop n (front ++ x))) ≡ v) (append-nil (to_be w v))
      (middle_field w v n front [] size h)

decode_chunk-body :
    (body : Bytes)
    → length body ≤ data_chunk_max
    → decode_chunk (to_be 2 (length body) ++ body) ≡ ok body
unfolding decode_chunk
decode_chunk-body body h =
    let n = length body in
    let size : length (to_be 2 n ++ body) ≡ 2 + n = omega lengths in
    let long : ltb (2 + n) 2 ≡ false = ground arith in
    let len = first_field 2 n body (omega arith) in
    let rest = drop-append (to_be 2 n) body 2 (length-to_be 2 n) in
    let same : (n == n) ≡ true = ground arith in
    let small : ltb data_chunk_max n ≡ false = ground arith in
    rw (size, long, len, rest, same, small) refl

-- A frame that is encoded fits into a DATA record and decodes to itself.
abbrev Decodes : TerminalFrame → Option Bytes → Type 0
Decodes f none = Unit {0}
Decodes f (some out) = (length out ≤ max_app_plaintext) × (decode_frame out ≡ ok f)

-- An Input or an Output.
chunk-Decodes :
    (t : ℕ) (body : Bytes) (f : TerminalFrame)
    → (decode_chunk (to_be 2 (length body) ++ body) ≡ ok body
        → decode_frame (t ∷ (to_be 2 (length body) ++ body)) ≡ ok f)
    → Decodes f (encode_chunk t body)
chunk-Decodes t body f decodes = by_size (leb (length body) data_chunk_max) refl
  where
    by_size :
        (b : Bool)
        → leb (length body) data_chunk_max ≡ b
        → Decodes f (if b then some (t ∷ (to_be 2 (length body) ++ body)) else none)
    by_size true h =
        let fits : length body ≤ data_chunk_max = ground arith in
        (omega lengths, decodes (decode_chunk-body body fits))
    by_size false h = tt

encode_frame-Decodes : (f : TerminalFrame) → IsTypedFrame f → Decodes f (encode_frame f)
unfolding encode_frame decode_frame decode_type
encode_frame-Decodes (open_terminal rows cols) (h, k) =
    let size : length (to_be 2 rows ++ to_be 2 cols) ≡ 4 = omega lengths in
    (
      omega lengths,
      rw
          (
            size,
            first_field 2 rows (to_be 2 cols) h,
            last_field 2 cols 2 (to_be 2 rows) (length-to_be 2 rows) k,
          )
          refl,
    )
encode_frame-Decodes (resize rows cols) (h, k) =
    let size : length (to_be 2 rows ++ to_be 2 cols) ≡ 4 = omega lengths in
    (
      omega lengths,
      rw
          (
            size,
            first_field 2 rows (to_be 2 cols) h,
            last_field 2 cols 2 (to_be 2 rows) (length-to_be 2 rows) k,
          )
          refl,
    )
encode_frame-Decodes (attach handle rows cols) (h, k, l) =
    let front = to_be 8 handle ++ to_be 2 rows in
    let whole : to_be 8 handle ++ (to_be 2 rows ++ to_be 2 cols) ≡ front ++ to_be 2 cols =
      sym (append_assoc (to_be 8 handle) (to_be 2 rows) (to_be 2 cols)) in
    let size : length (to_be 8 handle ++ (to_be 2 rows ++ to_be 2 cols)) ≡ 12 = omega lengths in
    let third : from_be (take 2 (drop 10 (to_be 8 handle ++ (to_be 2 rows ++ to_be 2 cols))))
        ≡ cols =
      rw whole (last_field 2 cols 10 front (omega lengths) l) in
    (
      omega lengths,
      rw
          (
            size,
            third,
            first_field 8 handle (to_be 2 rows ++ to_be 2 cols) h,
            middle_field 2 rows 8 (to_be 8 handle) (to_be 2 cols) (length-to_be 8 handle) k,
          )
          refl,
    )
encode_frame-Decodes (granted handle token) (h, k) =
    let size : length (to_be 8 handle ++ to_be 8 token) ≡ 16 = omega lengths in
    (
      omega lengths,
      rw
          (
            size,
            first_field 8 handle (to_be 8 token) h,
            drop-append (to_be 8 handle) (to_be 8 token) 8 (length-to_be 8 handle),
            from_be-to_be 8 token k,
          )
          refl,
    )
encode_frame-Decodes (exit code) h =
    let size : length (to_be 4 code) ≡ 4 = omega lengths in
    (omega lengths, rw (size, from_be-to_be 4 code h) refl)
encode_frame-Decodes ping h = (omega arith, refl)
encode_frame-Decodes (denied busy) h = (omega arith, refl)
encode_frame-Decodes (denied gone) h = (omega arith, refl)
encode_frame-Decodes (denied fenced) h = (omega arith, refl)
encode_frame-Decodes (input body) h = chunk-Decodes 0x03 body (input body) (λ e. rw e refl)
encode_frame-Decodes (output body) h = chunk-Decodes 0x13 body (output body) (λ e. rw e refl)

-- A frame in the ranges of its types that `encode` does not panic at fits into the plaintext of a DATA
-- record and decodes to itself.
pub decode_frame-encode_frame :
    (f : TerminalFrame) (out : Bytes)
    → IsTypedFrame f
    → encode_frame f ≡ some out
    → (length out ≤ max_app_plaintext) × (decode_frame out ≡ ok f)
decode_frame-encode_frame f out h e =
    subst (λ (o : Option Bytes). Decodes f o) e (encode_frame-Decodes f h)
