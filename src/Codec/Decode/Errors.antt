-- ===== src/Codec/Decode/Errors.antt =====
-- The errors that decoding can answer (src/decode.rs, `ErrorCode::is_codec_reject` of src/error.rs).
use jbuu.Base.{
  ℕ, ◌≡◌, refl, ◌⊎◌, Bool, true, false, Option, none, some, leb, length, [], ◌∷◌, Bool-cases, inl,
  inr,
}
use jbuu.Base.Result.{Result, ok, err, ◌>>=◌, fail_if, ok_or}
use jbuu.Base.Bytes.{Bytes}
use jbuu.Types.{Role, Direction, client_to_server, server_to_client}
use jbuu.Codec.ErrorCode.{ErrorCode, is_codec_reject}
use jbuu.Codec.Message.{
  MsgType, hello_type, arbitrate_type, issue_type, confirm_c2s_type, confirm_s2c_type, data_type,
}
use jbuu.Codec.Cursor.{take_bytes, read_int, fixed16, finish}
use jbuu.Codec.Decode.{
  frame_bound, direction_check, decode_hello, decode_arbitrate, decode_issue, decode_confirm,
  decode_data, decode_payload, decode, decode_confirm_body,
}

-- Every error of a computation is one of the codec's.
data Rejects {A : Type 0} : Result A ErrorCode → Type 0 where
  accepted : {a : A} → Rejects (ok a)
  rejected : {e : ErrorCode} → is_codec_reject e ≡ true → Rejects (err e)

bind-Rejects :
    {A B : Type 0} (m : Result A ErrorCode) (f : A → Result B ErrorCode)
    → Rejects m
    → ((a : A) → Rejects (f a))
    → Rejects (m >>= f)
bind-Rejects (ok a) f h k = k a
bind-Rejects (err e) f (rejected h) k = rejected h

fail_if-Rejects : (b : Bool) (e : ErrorCode) → is_codec_reject e ≡ true → Rejects (fail_if b e)
fail_if-Rejects true e h = rejected h
fail_if-Rejects false e h = accepted

ok_or-Rejects :
    {A : Type 0} (o : Option A) (e : ErrorCode) → is_codec_reject e ≡ true → Rejects (ok_or o e)
ok_or-Rejects none e h = rejected h
ok_or-Rejects (some a) e h = accepted

take_bytes-Rejects : (n : ℕ) (c : Bytes) → Rejects (take_bytes n c)
unfolding take_bytes
take_bytes-Rejects n c = elim (Bool-cases (leb n (length c))) [
  | inl long ↦ rw long accepted
  | inr short ↦ rw short (rejected refl)
]

read_int-Rejects : (n : ℕ) (c : Bytes) → Rejects (read_int n c)
unfolding read_int
read_int-Rejects n c = bind-Rejects (take_bytes n c) _ (take_bytes-Rejects n c) (λ _. accepted)

fixed16-Rejects : (c : Bytes) → Rejects (fixed16 c)
unfolding fixed16
fixed16-Rejects c = take_bytes-Rejects 16 c

finish-Rejects : (c : Bytes) → Rejects (finish c)
unfolding finish
finish-Rejects [] = accepted
finish-Rejects (b ∷ c) = rejected refl

ruleset rejections = (
  bind-Rejects, fail_if-Rejects, ok_or-Rejects, take_bytes-Rejects, read_int-Rejects,
  fixed16-Rejects, finish-Rejects, accepted, refl,
)

decode_hello-Rejects : (p : Bytes) → Rejects (decode_hello p)
unfolding decode_hello
decode_hello-Rejects p = search rejections depth 12

decode_arbitrate-Rejects : (p : Bytes) → Rejects (decode_arbitrate p)
unfolding decode_arbitrate
decode_arbitrate-Rejects p = search rejections depth 12

decode_issue-Rejects : (p : Bytes) → Rejects (decode_issue p)
unfolding decode_issue
decode_issue-Rejects p = search rejections depth 12

decode_confirm-Rejects : (p : Bytes) → Rejects (decode_confirm p)
unfolding decode_confirm
decode_confirm-Rejects p = search rejections depth 14

decode_data-Rejects : (p : Bytes) → Rejects (decode_data p)
unfolding decode_data
decode_data-Rejects p = search rejections depth 14

decode_confirm_body-Rejects : (p : Bytes) → Rejects (decode_confirm_body p)
unfolding decode_confirm_body
decode_confirm_body-Rejects p = search rejections depth 24

decode_payload-Rejects : (t : MsgType) (p : Bytes) → Rejects (decode_payload t p)
unfolding decode_payload
decode_payload-Rejects hello_type p = decode_hello-Rejects p
decode_payload-Rejects arbitrate_type p = decode_arbitrate-Rejects p
decode_payload-Rejects issue_type p = decode_issue-Rejects p
decode_payload-Rejects confirm_c2s_type p =
    bind-Rejects _ _ (decode_confirm-Rejects p) (λ _. accepted)
decode_payload-Rejects confirm_s2c_type p =
    bind-Rejects _ _ (decode_confirm-Rejects p) (λ _. accepted)
decode_payload-Rejects data_type p = decode_data-Rejects p

frame_bound-Rejects : (len end : ℕ) → Rejects (frame_bound len end)
unfolding frame_bound
frame_bound-Rejects len end = search rejections depth 6

direction_check-Rejects : (d : Option Direction) (r : Role) → Rejects (direction_check d r)
unfolding direction_check
direction_check-Rejects none r = accepted
direction_check-Rejects (some client_to_server) r = fail_if-Rejects _ _ refl
direction_check-Rejects (some server_to_client) r = fail_if-Rejects _ _ refl

decode-Rejects : (r : Role) (buf : Bytes) → Rejects (decode r buf)
unfolding decode
decode-Rejects r buf =
    search
      (
        bind-Rejects, fail_if-Rejects, ok_or-Rejects, frame_bound-Rejects, direction_check-Rejects,
        decode_payload-Rejects, refl,
      )
      depth 14

err-injective :
    {A : Type 0} {a b : ErrorCode} → ◌≡◌ {A = Result A ErrorCode} (err a) (err b) → a ≡ b
err-injective e = cc

Rejects-is_codec_reject :
    {A : Type 0} {e : ErrorCode} (r : Result A ErrorCode)
    → Rejects r
    → r ≡ err e
    → is_codec_reject e ≡ true
Rejects-is_codec_reject (ok a) h eq = cc
Rejects-is_codec_reject (err c) (rejected h) eq = rw (← err-injective eq) h

-- Every error of `decode` and of `decode_confirm_body` is one of the codes 0x0301 to 0x0308.
pub decode_error-is_codec_reject :
    (r : Role) (buf : Bytes) (e : ErrorCode)
    → (decode r buf ≡ err e) ⊎ (decode_confirm_body buf ≡ err e)
    → is_codec_reject e ≡ true
decode_error-is_codec_reject r buf e (inl h) = Rejects-is_codec_reject _ (decode-Rejects r buf) h
decode_error-is_codec_reject r buf e (inr h) =
    Rejects-is_codec_reject _ (decode_confirm_body-Rejects buf) h
