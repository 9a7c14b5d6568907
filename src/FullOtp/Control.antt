-- ===== src/FullOtp/Control.antt =====
-- crates/otp-fullotp/src/control.rs: the control messages of the full one-time-pad mode, which the
-- sessions of crates/otp-session carry, and their bytes.
use jbuu.Base.{
  ℕ, ◌+◌, ◌≡◌, ◌<◌, ◌≤◌, refl, sym, subst, ap, ap₂, ◌∙◌, ◌↔◌, arith, Bool, true, false, not, ◌==◌,
  ==_iff, if◌then◌else◌, [], ◌∷◌, ◌++◌, length, take, drop, take-append, drop-append,
  take-append-drop, length-append, length-take_le, length-drop, All, All-take, All-drop, u64_limit,
}
use jbuu.Base.Result.{Result, ok, err}
use jbuu.Base.Bytes.{
  Bytes, IsByte, IsArray, to_be, from_be, from_be-to_be, to_be-from_be, from_be-lt, length-to_be,
}
use jbuu.FullOtp.Error.{ControlError, control_too_short, unknown_code, control_length}

abbrev pub control_pad_offer : ℕ
control_pad_offer = 0x01

abbrev pub control_pad_ack : ℕ
control_pad_ack = 0x02

abbrev pub control_pad_need : ℕ
control_pad_need = 0x03

abbrev pub control_close : ℕ
control_close = 0x04

abbrev pub pad_offer_len : ℕ
pad_offer_len = 17

abbrev pub pad_ack_len : ℕ
pad_ack_len = 9

pub data PadControl : Type 0 where
  pad_offer : ℕ → ℕ → PadControl
  pad_ack : ℕ → PadControl
  pad_need close : PadControl

-- `PadControl::encode`
unfoldable pub encode_control : PadControl → Bytes
encode_control (pad_offer bundle_id base_segment) =
    control_pad_offer ∷ (to_be 8 bundle_id ++ to_be 8 base_segment)
encode_control (pad_ack bundle_id) = control_pad_ack ∷ to_be 8 bundle_id
encode_control pad_need = control_pad_need ∷ []
encode_control close = control_close ∷ []

-- The body of a message whose first byte is `code`.
unfoldable pub decode_body : ℕ → Bytes → Result PadControl ControlError
decode_body code rest =
    if code == control_pad_offer
    then (if not (length rest + 1 == pad_offer_len)
        then err control_length
        else ok (pad_offer (from_be (take 8 rest)) (from_be (drop 8 rest))))
    else if code == control_pad_ack
    then (if not (length rest + 1 == pad_ack_len)
        then err control_length
        else ok (pad_ack (from_be rest)))
    else if code == control_pad_need
    then (if length rest == 0 then ok pad_need else err control_length)
    else if code == control_close
    then (if length rest == 0 then ok close else err control_length)
    else err unknown_code

-- `decode` of this file.
unfoldable pub decode_control : Bytes → Result PadControl ControlError
unfolding decode_body
decode_control [] = err control_too_short
decode_control (code ∷ rest) = decode_body code rest

-- The numbers of a message are u64.
abbrev pub IsTypedControl : PadControl → Type 0
IsTypedControl (pad_offer bundle_id base_segment) =
    (bundle_id < u64_limit) × (base_segment < u64_limit)
IsTypedControl (pad_ack bundle_id) = bundle_id < u64_limit
IsTypedControl pad_need = Unit
IsTypedControl close = Unit

-- A typed message encodes to bytes that decode to it.
decode_control-encode_control :
    (m : PadControl) → IsTypedControl m → decode_control (encode_control m) ≡ ok m
unfolding decode_control encode_control
decode_control-encode_control (pad_offer b s) h =
    let size : length (to_be 8 b ++ to_be 8 s) ≡ 16 =
      omega (arith, length-append (to_be 8 b) (to_be 8 s), length-to_be 8 b, length-to_be 8 s) in
    rw
      (
        size,
        take-append (to_be 8 b) (to_be 8 s) 8 (length-to_be 8 b),
        drop-append (to_be 8 b) (to_be 8 s) 8 (length-to_be 8 b),
        from_be-to_be 8 b h.0,
        from_be-to_be 8 s h.1,
      )
      refl
decode_control-encode_control (pad_ack b) h = rw (length-to_be 8 b, from_be-to_be 8 b h) refl
decode_control-encode_control pad_need h = refl
decode_control-encode_control close h = refl

abbrev Decoded : Bytes → Result PadControl ControlError → Type 0
Decoded w (ok m) = IsTypedControl m × (encode_control m ≡ w)
Decoded w (err _) = Unit {0}

Decoded-if :
    (w : Bytes) (b : Bool) (x y : Result PadControl ControlError)
    → (b ≡ true → Decoded w x)
    → (b ≡ false → Decoded w y)
    → Decoded w (if b then x else y)
Decoded-if w true x y h k = h refl
Decoded-if w false x y h k = k refl

empty_of_length : (w : Bytes) → (length w == 0) ≡ true → w ≡ []
empty_of_length [] h = refl
empty_of_length (x ∷ xs) h = absurd (ground arith)

array_take : (n : ℕ) (w : Bytes) → n ≤ length w → All IsByte w → IsArray n (take n w)
array_take n w h bytes = record { size = length-take_le n w h; bytes = All-take IsByte n w bytes }

decode_body-Decoded :
    (code : ℕ) (rest : Bytes) → All IsByte rest → Decoded (code ∷ rest) (decode_body code rest)
unfolding decode_body encode_control
decode_body-Decoded code rest bytes =
    Decoded-if _ (code == control_pad_offer) _ _
      (λ is.
        Decoded-if _ (not (length rest + 1 == pad_offer_len)) _ _ (λ _. tt)
          (λ exact.
            let front = array_take 8 rest (ground arith) bytes in
            let back : IsArray 8 (drop 8 rest) = record {
              size = ground (arith, length-drop 8 rest);
              bytes = All-drop IsByte 8 rest bytes;
            } in
            (
              (from_be-lt 8 _ front, from_be-lt 8 _ back),
              ap₂ ◌∷◌ (sym ((==_iff _ _).0 is)) (
                  ap₂ ◌++◌ (to_be-from_be 8 _ front) (to_be-from_be 8 _ back)
                  ∙ take-append-drop 8 rest),
            )))
      (λ _.
        Decoded-if _ (code == control_pad_ack) _ _
          (λ is.
            Decoded-if _ (not (length rest + 1 == pad_ack_len)) _ _ (λ _. tt)
              (λ exact.
                let whole : IsArray 8 rest = record { size = ground arith; bytes = bytes } in
                (
                  from_be-lt 8 _ whole,
                  ap₂ ◌∷◌ (sym ((==_iff _ _).0 is)) (to_be-from_be 8 _ whole),
                )))
          (λ _.
            Decoded-if _ (code == control_pad_need) _ _
              (λ is.
                Decoded-if _ (length rest == 0) _ _
                  (λ none_left.
                    (tt, ap₂ ◌∷◌ (sym ((==_iff _ _).0 is)) (sym (empty_of_length rest none_left))))
                  (λ _. tt))
              (λ _.
                Decoded-if _ (code == control_close) _ _
                  (λ is.
                    Decoded-if _ (length rest == 0) _ _
                      (λ none_left. (
                        tt,
                        ap₂ ◌∷◌ (sym ((==_iff _ _).0 is)) (sym (empty_of_length rest none_left)),
                      ))
                      (λ _. tt))
                  (λ _. tt))))

decode_control-Decoded : (w : Bytes) → All IsByte w → Decoded w (decode_control w)
unfolding decode_control
decode_control-Decoded [] bytes = tt
decode_control-Decoded (code ∷ rest) bytes = decode_body-Decoded code rest bytes.1

-- A typed control message encodes to bytes that decode to it; and bytes that decode at all are the
-- encoding of the typed message that they decode to, so that a message has no second form and carries
-- no further byte.
pub decode_control_iff :
    (w : Bytes) (m : PadControl)
    → All IsByte w
    → (decode_control w ≡ ok m) ↔ (IsTypedControl m × (encode_control m ≡ w))
decode_control_iff w m bytes = (
  λ h.
      subst (λ (x : Result PadControl ControlError). Decoded w x) h
        (decode_control-Decoded w bytes),
  λ h. ap decode_control (sym h.1) ∙ decode_control-encode_control m h.0,
)
