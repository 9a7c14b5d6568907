-- ===== src/Handshake/Sealing.antt =====
-- crates/otp-handshake/src/lib.rs: every end of `seal_confirm`, and a body that matches itself.
use jbuu.Base.{ℕ, ◌+◌, ◌<◌, ◌≡◌, refl, sym, subst, ap, ◌∙◌, arith, u64_limit, length, length-append}
use jbuu.Base.Result.{Result, ok, err}
use jbuu.Base.Actions.{Ends}
use jbuu.Base.Bytes.{Bytes, IsArray}
use jbuu.Types.{Direction, client_to_server, server_to_client}
use jbuu.Codec.Message.{Message, ConfirmBody, IsTypedBody, type_wire, sealed_len, confirm_body_len}
use jbuu.Codec.Encode.{confirm_bytes, encode_confirm_body}
use jbuu.Codec.Decode.Body.{length-confirm_bytes}
use jbuu.Session.Aad.{session_nonce}
use jbuu.Session.State.{Aead, IsAead, Stop, Session, Record}
use jbuu.Session.Steps.{
  out_of, at-put, SealOutcome, sealed_next, sealed_last, seal_refused, seal-SealOutcome,
}
use jbuu.Session.RoundTrip.{OkSealed, seal-OkSealed}
use jbuu.Session.Sequence.{IsActive, next_out}
use jbuu.Handshake.Error.{HandshakeError, Fault, faulty}
use jbuu.Handshake.Confirm.{
  confirm_type, confirm_wire, confirm_label, confirm_message, confirm_body, confirm_of,
  confirm_after, seal_confirm,
}

-- What both sides have agreed on, with the sizes of its parts.
pub record Terms : Type 0 where
  pub book_id : Bytes
  pub segment : ℕ
  pub client_nonce : Bytes
  pub server_nonce : Bytes

pub record AreTyped (t : Terms) : Type 0 where
  pub book_id : IsArray 16 t.book_id
  pub segment : t.segment < u64_limit
  pub client_nonce : IsArray 16 t.client_nonce
  pub server_nonce : IsArray 16 t.server_nonce

abbrev pub body_of : Terms → Direction → ConfirmBody
body_of t d = confirm_body t.book_id t.segment t.client_nonce t.server_nonce d

abbrev pub seal_for : Aead → Terms → Direction → Session → Result Message Fault × Session
seal_for aead t d s = seal_confirm aead t.book_id t.segment t.client_nonce t.server_nonce d s

confirm_wire-lt : (d : Direction) → confirm_wire d < 65536
unfolding type_wire
confirm_wire-lt client_to_server = ground arith
confirm_wire-lt server_to_client = ground arith

confirm_label-IsArray : (d : Direction) → IsArray 14 (confirm_label d)
confirm_label-IsArray client_to_server = record { size = refl; bytes = ground arith }
confirm_label-IsArray server_to_client = record { size = refl; bytes = ground arith }

pub body_of-IsTyped : (t : Terms) (d : Direction) → AreTyped t → IsTypedBody (body_of t d)
body_of-IsTyped t d h = record {
  book_id = h.book_id;
  segment_index = h.segment;
  client_nonce = h.client_nonce;
  server_nonce = h.server_nonce;
  epoch = ground arith;
  seq = ground arith;
  body_type = confirm_wire-lt d;
  label = confirm_label-IsArray d;
}

-- The ends of `seal_confirm` on a fresh session: it does not panic.
pub data ConfirmOutcome (t : Terms) (d : Direction) (s : Session)
    : Result Message Fault → Session → Type 0 where
  confirmed :
      (sealed : Bytes) {s' : Session}
      → length sealed ≡ sealed_len
      → IsActive s'
      → s'.ctx ≡ s.ctx
      → s'.recv_last ≡ s.recv_last
      → next_out s' ≡ 1
      → ConfirmOutcome t d s
          (ok (
            confirm_message d t.segment
              (session_nonce s.ctx.client_nonce s.ctx.server_nonce)
              0
              0
              sealed))
          s'
  refused : {e : HandshakeError} {s' : Session} → ConfirmOutcome t d s (err (faulty e)) s'

pub confirm_of-ok :
    (t : Terms) (d : Direction) (s s' : Session) (r : Record)
    → length r.sealed ≡ sealed_len
    → r.sequence ≡ 0
    → s'.ctx ≡ s.ctx
    → confirm_of d t.segment s' r
      ≡ ok (
          confirm_message d t.segment
            (session_nonce s.ctx.client_nonce s.ctx.server_nonce)
            0
            0
            r.sealed)
confirm_of-ok t d s s' r size first same = rw (size, first, same) refl

after-ConfirmOutcome :
    (aead : Aead) (t : Terms) (d : Direction) (s : Session) (plain : Bytes) (r : Result Record Stop)
    (s' : Session)
    → IsAead aead
    → IsActive s
    → next_out s ≡ 0
    → length plain ≡ confirm_body_len
    → SealOutcome s r s'
    → OkSealed aead s (confirm_type d) plain r s'
    → ConfirmOutcome t d s
        (confirm_after d t.segment (r, s')).0
        (confirm_after d t.segment (r, s')).1
after-ConfirmOutcome aead t d s plain (ok r) s' law (live, keys) fresh size (sealed_next e same)
      has =
    let whole = law.tag_size _ _ _ _ _ _ has.encrypted in
    let text = law.text_size _ _ _ _ _ _ has.encrypted in
    let long : length r.sealed ≡ sealed_len =
      ap (λ (x : Bytes). length x) has.whole ∙ omega (arith, length-append has.ct has.tag) in
    let ctx = ap (λ (u : Session). u.ctx) same in
    subst (λ (x : Result Message Fault). ConfirmOutcome t d s x s')
      (sym (confirm_of-ok t d s s' r long (e ∙ fresh) ctx))
      (confirmed r.sealed long
        (
          ap (λ (u : Session). u.terminated) same ∙ live,
          (keys.0, ap (λ (u : Session). u.keys) same ∙ keys.1),
        )
        ctx (ap (λ (u : Session). u.recv_last) same)
        (ap (λ (u : Session). next_out u) same
          ∙ at-put (out_of s) (r.sequence + 1) s.send_seq
          ∙ ap (λ (n : ℕ). n + 1) (e ∙ fresh)))
after-ConfirmOutcome aead t d s plain (ok r) s' law active fresh size (sealed_last e big same) has =
    absurd (omega arith)
after-ConfirmOutcome aead t d s plain (err _) _ law active fresh size seal_refused has = refused

-- `seal_confirm` on an active session that has sent nothing, with typed terms: a CONFIRM of the right
-- size, number 0, or an error, never a panic.
pub seal_for-ConfirmOutcome :
    (aead : Aead) (t : Terms) (d : Direction) (s : Session)
    → IsAead aead
    → AreTyped t
    → IsActive s
    → next_out s ≡ 0
    → Ends (seal_for aead t d) s (ConfirmOutcome t d s)
unfolding seal_confirm encode_confirm_body
seal_for-ConfirmOutcome aead t d s law typed active fresh =
    let plain = confirm_bytes (body_of t d) in
    after-ConfirmOutcome aead t d s plain _ _ law active fresh
      (length-confirm_bytes _ (body_of-IsTyped t d typed))
      (seal-SealOutcome aead s active.0 active.1.0 active.1.1 (confirm_type d) plain)
      (seal-OkSealed aead s (confirm_type d) plain active.0)
