-- ===== src/Handshake/Confirm.antt =====
-- crates/otp-handshake/src/lib.rs: sealing and verifying a CONFIRM.
use jbuu.Base.{ℕ, not, ◌||◌, ◌==◌, [], ◌∷◌, length, if◌then◌else◌}
use jbuu.Base.Result.{Result, ok, err, ◌>>◌, fail_if}
use jbuu.Base.State.{Action}
use jbuu.Base.Bytes.{Bytes, bytes_eq}
use jbuu.Types.{Direction, client_to_server, server_to_client, direction_eq}
use jbuu.Codec.ErrorCode.{
  ErrorCode, segment_binding, nonce_mismatch, epoch_mismatch, seq_unexpected,
}
use jbuu.Codec.Message.{
  Message, confirm_c2s, confirm_s2c, confirm_c2s_type, confirm_s2c_type, type_wire, sealed_len,
  ConfirmBody,
}
use jbuu.Codec.Encode.{encode_confirm_body}
use jbuu.Session.Aad.{MessageType, client_confirm, server_confirm, session_nonce}
use jbuu.Session.State.{Aead, Stop, fails, Session, Record, seal}
use jbuu.Session.State as SessionState
use jbuu.Handshake.Error.{
  HandshakeError, authentication, violation, Fault, faulty, panics, map_session_seal_err,
}

-- `b"client-confirm"`
abbrev pub confirm_label_c2s : Bytes
confirm_label_c2s =
    0x63 ∷ 0x6c ∷ 0x69 ∷ 0x65 ∷ 0x6e ∷ 0x74 ∷ 0x2d ∷ 0x63 ∷ 0x6f ∷ 0x6e ∷ 0x66 ∷ 0x69 ∷ 0x72 ∷ 0x6d
    ∷ []

-- `b"server-confirm"`
abbrev pub confirm_label_s2c : Bytes
confirm_label_s2c =
    0x73 ∷ 0x65 ∷ 0x72 ∷ 0x76 ∷ 0x65 ∷ 0x72 ∷ 0x2d ∷ 0x63 ∷ 0x6f ∷ 0x6e ∷ 0x66 ∷ 0x69 ∷ 0x72 ∷ 0x6d
    ∷ []

-- The three values that `seal_confirm` takes from the direction.
abbrev pub confirm_type : Direction → MessageType
confirm_type client_to_server = client_confirm
confirm_type server_to_client = server_confirm

abbrev pub confirm_wire : Direction → ℕ
confirm_wire client_to_server = type_wire confirm_c2s_type
confirm_wire server_to_client = type_wire confirm_s2c_type

abbrev pub confirm_label : Direction → Bytes
confirm_label client_to_server = confirm_label_c2s
confirm_label server_to_client = confirm_label_s2c

abbrev pub confirm_message : Direction → ℕ → Bytes → ℕ → ℕ → Bytes → Message
confirm_message client_to_server = confirm_c2s
confirm_message server_to_client = confirm_s2c

-- The inner copy that a direction has.
abbrev pub confirm_body : Bytes → ℕ → Bytes → Bytes → Direction → ConfirmBody
confirm_body book_id segment client_nonce server_nonce direction = record {
  book_id = book_id;
  segment_index = segment;
  client_nonce = client_nonce;
  server_nonce = server_nonce;
  direction = direction;
  epoch = 0;
  seq = 0;
  body_type = confirm_wire direction;
  label = confirm_label direction;
}

abbrev pub seal_fault : Stop → Fault
seal_fault (fails e) = faulty (map_session_seal_err e)
seal_fault SessionState.panics = panics

-- The message of a sealed record; `copy_from_slice` panics where the length is not `SEALED_LEN`.
abbrev pub confirm_of : Direction → ℕ → Session → Record → Result Message Fault
confirm_of direction segment session r =
    if length r.sealed == sealed_len
    then ok (
        confirm_message direction segment
          (session_nonce session.ctx.client_nonce session.ctx.server_nonce) 0 r.sequence r.sealed)
    else err panics

abbrev pub confirm_after :
    Direction → ℕ → Result Record Stop × Session → Result Message Fault × Session
confirm_after direction segment (ok r, session) = (confirm_of direction segment session r, session)
confirm_after direction segment (err e, session) = (err (seal_fault e), session)

abbrev pub seal_body : Aead → Direction → ℕ → Result Bytes ErrorCode → Action Session Fault Message
seal_body aead direction segment (err e) session = (err (faulty (violation e)), session)
seal_body aead direction segment (ok plain) session =
    confirm_after direction segment (seal aead (confirm_type direction) plain session)

-- `seal_confirm`
unfoldable pub seal_confirm :
    Aead → Bytes → ℕ → Bytes → Bytes → Direction → Action Session Fault Message
seal_confirm aead book_id segment client_nonce server_nonce direction session =
    seal_body aead direction segment
      (encode_confirm_body (confirm_body book_id segment client_nonce server_nonce direction))
      session

unfoldable pub verify_confirm_outer :
    ℕ → Bytes → ℕ → ℕ → ℕ → Bytes → Result (Unit {0}) HandshakeError
verify_confirm_outer segment nonce epoch seq expect_segment expect_nonce = do
  fail_if (not (segment == expect_segment)) (authentication segment_binding)
  fail_if (not (bytes_eq nonce expect_nonce)) (authentication nonce_mismatch)
  fail_if (not (epoch == 0)) (violation epoch_mismatch)
  fail_if (not (seq == 0)) (violation seq_unexpected)

-- `ConfirmExpectations`: the fields of the inner copy, of which `epoch` and `seq` are always 0.
unfoldable pub verify_confirm_body : ConfirmBody → ConfirmBody → Result (Unit {0}) HandshakeError
verify_confirm_body body e = do
  fail_if (not (bytes_eq body.book_id e.book_id) || not (body.segment_index == e.segment_index))
      (authentication segment_binding)
  fail_if
      (not (bytes_eq body.client_nonce e.client_nonce)
        || not (bytes_eq body.server_nonce e.server_nonce))
      (authentication nonce_mismatch)
  fail_if
      (not (direction_eq body.direction e.direction)
        || (not (body.body_type == e.body_type) || not (bytes_eq body.label e.label)))
      (authentication segment_binding)
  fail_if (not (body.epoch == 0)) (violation epoch_mismatch)
  fail_if (not (body.seq == 0)) (violation seq_unexpected)
