-- ===== src/Handshake/Sending.antt =====
-- crates/otp-handshake/src/lib.rs: a CONFIRM that is sealed, and what the peer opens.
use jbuu.Base.{ℕ, ◌+◌, ◌≡◌, refl, subst, ap, ap₂, ◌∙◌, arith, true, some, length}
use jbuu.Base.Result.{Result, ok}
use jbuu.Base.Bytes.{Bytes, bytes_eq_iff}
use jbuu.Types.{Direction, client_to_server, server_to_client, opposite, direction_eq}
use jbuu.Codec.Message.{Message, sealed_len}
use jbuu.Codec.Encode.{confirm_bytes, encode_confirm_body}
use jbuu.Codec.Decode.Body.{length-confirm_bytes}
use jbuu.Session.Aad.{session_nonce}
use jbuu.Session.State.{
  Aead, IsAead, IsTotal, Stop, put, Session, Record, pairing_valid, seq_discipline, seal,
  open_record,
}
use jbuu.Session.Steps.{out_of}
use jbuu.Session.Sequence.{IsActive, next_out}
use jbuu.Session.RoundTrip.{Receives, open_record-seal}
use jbuu.Session.Progress.{seal-Seals}
use jbuu.Handshake.Error.{Fault}
use jbuu.Handshake.Confirm.{
  confirm_type, confirm_label, confirm_message, confirm_after, seal_confirm, verify_confirm_body,
  verify_confirm_outer,
}
use jbuu.Handshake.Sealing.{Terms, AreTyped, body_of, body_of-IsTyped, seal_for, confirm_of-ok}

abbrev pub after_send : Direction → Session → Session
after_send d s = record s { send_seq = put d 1 s.send_seq }

abbrev pub after_receive : Session → Session
after_receive r = record r { recv_last = put (opposite (out_of r)) (some 0) r.recv_last }

-- The CONFIRM that goes out of a session, and that its receiver reads back.
pub record Sends (aead : Aead) (t : Terms) (d : Direction) (s : Session) : Type 0 where
  pub sealed : Bytes
  pub sends : seal_for aead t d s ≡ (
    ok (
        confirm_message d t.segment
          (session_nonce s.ctx.client_nonce s.ctx.server_nonce)
          0
          0
          sealed),
    after_send d s,
  )
  pub opens :
      (r : Session)
      → Receives s r
      → open_record aead (confirm_type d) 0 sealed r
        ≡ (ok (confirm_bytes (body_of t d)), after_receive r)

pairs : (d : Direction) → pairing_valid (confirm_type d) d ≡ true
pairs client_to_server = refl
pairs server_to_client = refl

first : (d : Direction) → seq_discipline (confirm_type d) 0 ≡ true
first client_to_server = refl
first server_to_client = refl

record-Sends :
    (aead : Aead) (t : Terms) (d : Direction) (s : Session) (r : Record)
    → IsAead aead
    → IsActive s
    → r.sequence ≡ 0
    → length r.sealed ≡ sealed_len
    → seal aead (confirm_type d) (confirm_bytes (body_of t d)) s ≡ (ok r, after_send d s)
    → Sends aead t d s
unfolding seal_confirm encode_confirm_body
record-Sends aead t d s r law active number size e = record {
  sealed = r.sealed;
  sends =
      ap (λ (p : Result Record Stop × Session). confirm_after d t.segment p) e
      ∙ ap (λ (m : Result Message Fault). (m, after_send d s))
          (confirm_of-ok t d s (after_send d s) r size number refl);
  opens = λ x to.
      subst
        (λ (n : ℕ). open_record aead (confirm_type d) n r.sealed x ≡ (
          ok (confirm_bytes (body_of t d)),
          record x { recv_last = put (opposite (out_of x)) (some n) x.recv_last },
        ))
        number (open_record-seal aead s x (after_send d s) (confirm_type d) _ r law active.0 to e);
}

-- An active session that has sent nothing seals its CONFIRM, and whoever receives from it opens it.
pub seal_for-Sends :
    (aead : Aead) (t : Terms) (d : Direction) (s : Session)
    → IsAead aead
    → IsTotal aead
    → AreTyped t
    → IsActive s
    → out_of s ≡ d
    → next_out s ≡ 0
    → Sends aead t d s
seal_for-Sends aead t d s law total typed active way fresh =
    let plain = confirm_bytes (body_of t d) in
    let size = length-confirm_bytes _ (body_of-IsTyped t d typed) in
    let done =
      seal-Seals aead s (confirm_type d) plain law total active (rw way (pairs d))
        (rw fresh (first d)) (rw fresh (ground arith)) (rw size (ground arith)) in
    record-Sends aead t d s done.record_of law active (done.number ∙ fresh)
      (done.size ∙ omega (arith, size))
      (ap₂ (λ (x : Result Record Stop) (u : Session). (x, u)) done.answer
        (done.state
          ∙ ap₂ (λ (e : Direction) (n : ℕ). record s { send_seq = put e (n + 1) s.send_seq }) way
              fresh))

pub verify_confirm_outer_refl : (n : ℕ) (z : Bytes) → verify_confirm_outer n z 0 0 n z ≡ ok tt
unfolding verify_confirm_outer
verify_confirm_outer_refl n z = ground (arith, bytes_eq_iff z z)

direction_eq_refl : (d : Direction) → direction_eq d d ≡ true
direction_eq_refl client_to_server = refl
direction_eq_refl server_to_client = refl

pub verify_confirm_body_refl :
    (t : Terms) (d : Direction) → verify_confirm_body (body_of t d) (body_of t d) ≡ ok tt
unfolding verify_confirm_body
verify_confirm_body_refl t d = ground (
  arith,
  bytes_eq_iff t.book_id t.book_id,
  bytes_eq_iff t.client_nonce t.client_nonce,
  bytes_eq_iff t.server_nonce t.server_nonce,
  bytes_eq_iff (confirm_label d) (confirm_label d),
  direction_eq_refl d,
)
