-- ===== src/Handshake/Accepting.antt =====
-- crates/otp-handshake/src/lib.rs: what a CONFIRM is that passes every check of the receiving side.
use jbuu.Base.{ℕ, ◌≡◌, refl, arith, true, ap, ◌∙◌}
use jbuu.Base.Result.{Result, ok}
use jbuu.Base.Bytes.{Bytes, bytes_eq_iff}
use jbuu.Types.{Direction, client_to_server, server_to_client, direction_eq}
use jbuu.Codec.Message.{Message, ConfirmBody}
use jbuu.Codec.Decode.{decode_confirm_body}
use jbuu.Session.Aad.{session_nonce}
use jbuu.Session.State.{Aead, Stop, Session, open_record}
use jbuu.Handshake.Confirm.{
  confirm_type, confirm_message, verify_confirm_outer, verify_confirm_body,
}
use jbuu.Handshake.Sealing.{Terms, body_of}

-- The message is the CONFIRM of the terms with the numbers 0, and the session opens it to the inner
-- copy of the terms, which leaves the session `left`.
pub record Accepted (aead : Aead) (t : Terms) (d : Direction) (s : Session) (msg : Message)
    (left : Session) : Type 0 where
  pub segment : ℕ
  pub nonce : Bytes
  pub epoch : ℕ
  pub seq : ℕ
  pub sealed : Bytes
  pub plain : Bytes
  pub message : msg ≡ confirm_message d segment nonce epoch seq sealed
  pub same_segment : segment ≡ t.segment
  pub same_nonce : nonce ≡ session_nonce s.ctx.client_nonce s.ctx.server_nonce
  pub first_epoch : epoch ≡ 0
  pub first_seq : seq ≡ 0
  pub opens : open_record aead (confirm_type d) seq sealed s ≡ (ok plain, left)
  pub body : decode_confirm_body plain ≡ ok (body_of t d)

direction_eq→eq : (d e : Direction) → direction_eq d e ≡ true → d ≡ e
direction_eq→eq client_to_server client_to_server h = refl
direction_eq→eq client_to_server server_to_client h = absurd cc
direction_eq→eq server_to_client client_to_server h = absurd cc
direction_eq→eq server_to_client server_to_client h = refl

outer_fields :
    (segment : ℕ) (nonce : Bytes) (epoch seq n : ℕ) (expected : Bytes)
    → verify_confirm_outer segment nonce epoch seq n expected ≡ ok tt
    → (segment ≡ n) × (nonce ≡ expected) × (epoch ≡ 0) × (seq ≡ 0)
unfolding verify_confirm_outer
outer_fields segment nonce epoch seq n expected h = ground (arith, bytes_eq_iff nonce expected)

same_body :
    (body : ConfirmBody) (t : Terms) (d : Direction)
    → verify_confirm_body body (body_of t d) ≡ ok tt
    → body ≡ body_of t d
unfolding verify_confirm_body
same_body body t d h = ground (
  arith,
  bytes_eq_iff body.book_id t.book_id,
  bytes_eq_iff body.client_nonce t.client_nonce,
  bytes_eq_iff body.server_nonce t.server_nonce,
  bytes_eq_iff body.label (body_of t d).label,
  direction_eq→eq body.direction d,
)

-- The checks of `on_confirm` and `on_confirm_s2c`, put together.
pub accepted :
    (aead : Aead) (t : Terms) (d : Direction) (s : Session) (segment : ℕ) (nonce : Bytes)
    (epoch seq : ℕ) (sealed plain : Bytes) (body : ConfirmBody)
    → verify_confirm_outer segment nonce epoch seq t.segment
        (session_nonce s.ctx.client_nonce s.ctx.server_nonce)
      ≡ ok tt
    → (open_record aead (confirm_type d) seq sealed s).0 ≡ ok plain
    → decode_confirm_body plain ≡ ok body
    → verify_confirm_body body (body_of t d) ≡ ok tt
    → Accepted aead t d s
        (confirm_message d segment nonce epoch seq sealed)
        (open_record aead (confirm_type d) seq sealed s).1
accepted aead t d s segment nonce epoch seq sealed plain body outer opens decodes same =
    let (n, k, e, q) = outer_fields segment nonce epoch seq t.segment _ outer in
    record {
      segment = segment;
      nonce = nonce;
      epoch = epoch;
      seq = seq;
      sealed = sealed;
      plain = plain;
      message = refl;
      same_segment = n;
      same_nonce = k;
      first_epoch = e;
      first_seq = q;
      opens =
          ap (λ (r : Result Bytes Stop). (r, (open_record aead (confirm_type d) seq sealed s).1))
            opens;
      body = decodes ∙ ap (λ (b : ConfirmBody). ok b) (same_body body t d same);
    }
