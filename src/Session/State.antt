-- ===== src/Session/State.antt =====
-- crates/otp-session/src/session.rs and keys.rs: the session with its keys and sequence numbers. The
-- AEAD comes from the crate `chacha20poly1305` and is a parameter.
use jbuu.Base.{
  ℕ, ◌-◌, ◌<◌, ◌≡◌, u32_limit, if◌then◌else◌, Bool, true, false, not, ◌==◌, ltb, leb, Option, none,
  some, ◌++◌, length, take, drop,
}
use jbuu.Base.Result.{ok, err}
use jbuu.Base.State.{Action, pure, get, modify, or_raise, ◌>>=◌, ◌>>◌}
use jbuu.Base.Bytes.{Bytes}
use jbuu.Types.{
  Direction, client_to_server, server_to_client, opposite, send_direction, direction_key_len,
  tag_len, sequence_next,
}
use jbuu.Session.Nonce.{record_nonce}
use jbuu.Session.Aad.{
  MessageType, client_confirm, server_confirm, data_message, is_confirm, SessionContext,
  nonce_domain, build_aad,
}

-- The detached encryption and decryption of the crate: key, nonce, associated data, text.
pub record Aead : Type 0 where
  pub encrypt : Bytes → Bytes → Bytes → Bytes → Option (Bytes × Bytes)
  pub decrypt : Bytes → Bytes → Bytes → Bytes → Bytes → Option Bytes

-- What the session relies on: encryption in place keeps the length, a tag has 16 bytes, and what was
-- encrypted decrypts to itself.
pub record IsAead (aead : Aead) : Type 0 where
  pub tag_size :
      (key nonce aad plain ct tag : Bytes)
      → aead.encrypt key nonce aad plain ≡ some (ct, tag)
      → length tag ≡ tag_len
  pub text_size :
      (key nonce aad plain ct tag : Bytes)
      → aead.encrypt key nonce aad plain ≡ some (ct, tag)
      → length ct ≡ length plain
  pub decrypt-encrypt :
      (key nonce aad plain ct tag : Bytes)
      → aead.encrypt key nonce aad plain ≡ some (ct, tag)
      → aead.decrypt key nonce aad ct tag ≡ some plain

-- Encryption fails only where the text is too long for the cipher, which is more than 2^32 bytes.
pub record IsTotal (aead : Aead) : Type 0 where
  pub encrypts :
      (key nonce aad plain : Bytes)
      → length plain < u32_limit
      → (sealed : Bytes × Bytes) × (aead.encrypt key nonce aad plain ≡ some sealed)

pub data SessionError : Type 0 where
  authentication_failed sequence_replay sequence_unexpected sequence_overflow : SessionError
  wrong_way closed : SessionError

-- `SessionError::wire_code`
abbrev pub error_code : SessionError → Option ℕ
error_code authentication_failed = some 0x0201
error_code sequence_replay = some 0x0204
error_code sequence_unexpected = some 0x030b
error_code sequence_overflow = some 0x030b
error_code wrong_way = some 0x0306
error_code closed = none

pub data Termination : Type 0 where
  overflowed authentication sequence_violation misuse closed_normally : Termination

-- How a call stops early: with an error, or by the panic of `expect`.
pub data Stop : Type 0 where
  fails : SessionError → Stop
  panics : Stop

-- An array of two, indexed by `direction_index`.
pub record Both (A : Type 0) : Type 0 where
  pub c2s : A
  pub s2c : A

module _ {A : Type 0} where
  abbrev pub at : Direction → Both A → A
  at client_to_server b = b.c2s
  at server_to_client b = b.s2c

  abbrev pub put : Direction → A → Both A → Both A
  put client_to_server a b = record b { c2s = a }
  put server_to_client a b = record b { s2c = a }

-- `SessionKeys`, with `key_for`.
abbrev pub SessionKeys : Type 0
SessionKeys = Both Bytes

-- `SessionKeys::split`
abbrev pub split_keys : Bytes → SessionKeys
split_keys segment = record {
  c2s = take direction_key_len segment;
  s2c = drop direction_key_len segment;
}

pub record Session : Type 0 where
  pub ctx : SessionContext
  pub domain : Bytes
  pub keys : Option SessionKeys
  pub send_seq : Both ℕ
  pub recv_last : Both (Option ℕ)
  pub terminated : Option Termination

pub record Record : Type 0 where
  pub sequence : ℕ
  pub sealed : Bytes

-- `Session::new`
abbrev pub new : Bytes → SessionContext → Session
new segment ctx = record {
  ctx = ctx;
  domain = nonce_domain ctx;
  keys = some (split_keys segment);
  send_seq = record { c2s = 0; s2c = 0 };
  recv_last = record { c2s = none; s2c = none };
  terminated = none;
}

-- `Session::is_active`
abbrev pub is_active : Option Termination → Bool
is_active none = true
is_active (some _) = false

-- `Session::next_send_sequence`
abbrev pub next_send_sequence : Session → ℕ
next_send_sequence s = at (send_direction s.ctx.role) s.send_seq

-- `Session::last_accepted`
abbrev pub last_accepted : Session → Direction → Option ℕ
last_accepted s direction = at direction s.recv_last

abbrev pub pairing_valid : MessageType → Direction → Bool
pairing_valid client_confirm client_to_server = true
pairing_valid server_confirm server_to_client = true
pairing_valid data_message direction = true
pairing_valid _ _ = false

-- `seq_discipline_ok`
abbrev pub seq_discipline : MessageType → ℕ → Bool
seq_discipline mt seq = if is_confirm mt then seq == 0 else leb 1 seq

-- `Session::ensure_active`
abbrev pub ensure_active : Option Termination → Action Session Stop (Unit {0})
ensure_active none s = (ok tt, s)
ensure_active (some overflowed) s = (err (fails sequence_overflow), s)
ensure_active (some _) s = (err (fails closed), s)

-- `Session::terminate`, which burns and drops the keys.
abbrev pub terminate : Termination → Session → Session
terminate reason s = record s { keys = none; terminated = some reason }

-- A check whose failure terminates the session.
abbrev pub reject_if : Bool → Termination → SessionError → Action Session Stop (Unit {0})
reject_if true reason e s = (err (fails e), terminate reason s)
reject_if false reason e s = (ok tt, s)

abbrev pub or_reject : {A : Type 0} → Option A → Termination → SessionError → Action Session Stop A
or_reject none reason e s = (err (fails e), terminate reason s)
or_reject (some a) reason e s = (ok a, s)

-- `Session::aead_material`: nonce, associated data and key; the epoch is 0.
abbrev pub nonce_of : Session → Direction → ℕ → Bytes
nonce_of s direction seq = record_nonce s.domain direction seq

abbrev pub aad_of : Session → MessageType → Direction → ℕ → Bytes
aad_of s mt direction seq = build_aad s.ctx mt direction 0 seq

-- The number of the next record of the direction, or the end of the session.
abbrev pub advance_to : Option ℕ → Direction → Session → Session
advance_to (some next) direction s = record s { send_seq = put direction next s.send_seq }
advance_to none direction s = terminate overflowed s

-- `recv_last == Some(seq)`
abbrev pub is_number : Option ℕ → ℕ → Bool
is_number none seq = false
is_number (some n) seq = n == seq

abbrev pub expected_after : Option ℕ → Option ℕ
expected_after none = some 0
expected_after (some l) = sequence_next l

-- `Session::close`
abbrev pub close_if : Option Termination → Session → Session
close_if none s = terminate closed_normally s
close_if (some reason) s = s

abbrev pub close : Session → Session
close s = close_if s.terminated s

module _ (aead : Aead) where
  -- `Session::seal`
  unfoldable pub seal : MessageType → Bytes → Action Session Stop Record
  seal mt plaintext = do
    s ← get
    ensure_active s.terminated
    let direction = send_direction s.ctx.role
    reject_if (not (pairing_valid mt direction)) misuse wrong_way
    let seq = at direction s.send_seq
    reject_if (not (seq_discipline mt seq)) sequence_violation sequence_unexpected
    keys ← or_raise s.keys panics
    (ct, tag) ←
        or_reject
          (aead.encrypt (at direction keys) (nonce_of s direction seq) (aad_of s mt direction seq)
            plaintext)
          authentication authentication_failed
    modify (advance_to (sequence_next seq) direction)
    pure (record { sequence = seq; sealed = ct ++ tag })

  -- `Session::open`
  unfoldable pub open_record : MessageType → ℕ → Bytes → Action Session Stop Bytes
  open_record mt seq sealed = do
    s ← get
    ensure_active s.terminated
    let direction = opposite (send_direction s.ctx.role)
    reject_if (not (pairing_valid mt direction)) misuse wrong_way
    reject_if (not (seq_discipline mt seq)) sequence_violation sequence_unexpected
    let last = at direction s.recv_last
    reject_if (is_number last seq) sequence_violation sequence_replay
    reject_if (not (is_number (expected_after last) seq)) sequence_violation sequence_unexpected
    reject_if (ltb (length sealed) tag_len) authentication authentication_failed
    keys ← or_raise s.keys panics
    let cut = length sealed - tag_len
    plain ←
        or_reject
          (aead.decrypt (at direction keys) (nonce_of s direction seq) (aad_of s mt direction seq)
            (take cut sealed) (drop cut sealed))
          authentication authentication_failed
    modify (λ t. record t { recv_last = put direction (some seq) t.recv_last })
    pure plain
