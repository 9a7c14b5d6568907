-- ===== src/Handshake/Server.antt =====
-- crates/otp-handshake/src/lib.rs: `ServerHandshake`, in the way of the client.
pub mod Answers
pub mod Invariant
pub mod Greeting
use jbuu.Base.{
  ℕ, Bool, true, false, not, ◌||◌, ◌==◌, leb, ltb, if◌then◌else◌, Option, none, some, List, [], ◌∷◌,
}
use jbuu.Base.Result.{Result, ok, err}
use jbuu.Base.State.{Action, pure, raise, get, ◌>>=◌, ◌>>◌}
use jbuu.Base.Bytes.{Bytes, bytes_eq}
use jbuu.Types.{server, client_to_server, server_to_client}
use jbuu.Codec.ErrorCode.{ErrorCode, bad_version, bad_order, issue_pointer_mismatch, nonce_mismatch}
use jbuu.Codec.Message.{
  Message, hello, arbitrate, issue_request, confirm_c2s, version, ArbitrateResult, agreed_ok,
  server_is_ahead, book_exhausted, wrong_book, client_is_ahead,
}
use jbuu.Codec.Decode.{decode_confirm_body}
use jbuu.Allocator.Interfaces.{IssueError}
use jbuu.Session.Aad.{SessionContext, session_nonce, client_confirm}
use jbuu.Session.State.{Aead, Stop, fails, Session, open_record}
use jbuu.Session.State as SessionState
use jbuu.Handshake.Error.{
  HandshakeError, authentication, violation, issuer_failed, csprng, map_session_open_err, Fault,
  Step, await_peer, established, failed, panicked, step_of, SegmentIssuer,
}
use jbuu.Handshake.Confirm.{seal_confirm, verify_confirm_outer, verify_confirm_body, confirm_body}

-- `ServerPhase`
pub data Phase : Type 0 where
  idle issue_wait confirm_wait is_established ahead_pending is_failed : Phase

-- `ServerConfig`
pub record Config : Type 0 where
  pub version_field : ℕ
  pub book_id : Bytes
  pub local_pointer : ℕ
  pub segment_count : ℕ

-- `ServerHandshake`
pub record Server : Type 0 where
  pub cfg : Config
  pub phase : Phase
  pub client_nonce : Option Bytes
  pub server_nonce : Option Bytes
  pub agreed : Option ℕ
  pub session : Option Session

-- `ServerHandshake::new`
abbrev pub new : Config → Result Server HandshakeError
new cfg = elim (cfg.version_field == version) [
  | false ↦ err (violation bad_version)
  | true ↦ ok (record {
    cfg = cfg;
    phase = idle;
    client_nonce = none;
    server_nonce = none;
    agreed = none;
    session = none;
  })
]

abbrev pub burn : Server → Server
burn c = record c { session = none }

abbrev pub fail_phase : Server → Server
fail_phase c = record c { phase = is_failed }

-- `ServerHandshake::abort`
unfoldable pub abort : ErrorCode → Server → Step × Server
abort reason c = (failed (violation reason), fail_phase (burn c))

-- The arbitration of `on_hello`: own pointer, the client's and the number of segments.
unfoldable pub arbitration : ℕ → ℕ → ℕ → ArbitrateResult × ℕ
arbitration sp cp n =
    if leb n sp
    then (book_exhausted, n)
    else if ltb cp sp
    then (server_is_ahead, sp)
    else if ltb sp cp
    then (client_is_ahead, sp)
    else (agreed_ok, sp)

-- What the result does to the machine.
abbrev pub settle : ArbitrateResult → Bytes → ℕ → Server → Server
settle agreed_ok nonce sp c = record c {
  server_nonce = some nonce;
  agreed = some sp;
  phase = issue_wait;
}
settle server_is_ahead nonce sp c = record c {
  server_nonce = some nonce;
  agreed = some sp;
  phase = issue_wait;
}
settle book_exhausted nonce sp c = record c { phase = is_failed }
settle client_is_ahead nonce sp c = record c { phase = ahead_pending }
settle wrong_book nonce sp c = c

abbrev pub arbitrate_with :
    Bytes → ArbitrateResult × ℕ → Server → Result Message HandshakeError × Server
arbitrate_with nonce (result, sp_out) c =
    (ok (arbitrate nonce sp_out result), settle result nonce c.cfg.local_pointer c)

-- `on_hello` behind its guards; the book is compared before the arbitration.
abbrev pub answer_hello : Option Bytes → Bytes → ℕ → Server → Result Message HandshakeError × Server
answer_hello none book_id cp c = (err csprng, c)
answer_hello (some nonce) book_id cp c =
    if not (bytes_eq book_id c.cfg.book_id)
    then (ok (arbitrate nonce 0 wrong_book), fail_phase c)
    else arbitrate_with nonce (arbitration c.cfg.local_pointer cp c.cfg.segment_count) c

abbrev pub hello_at :
    Phase → Option Bytes → Message → Server → Result Message HandshakeError × Server
hello_at idle random (hello book_id client_nonce client_pointer features) c =
    answer_hello random book_id client_pointer (record c { client_nonce = some client_nonce })
hello_at idle random _ c = (err (violation bad_order), fail_phase c)
hello_at _ random msg c = (err (violation bad_order), fail_phase (burn c))

-- `ServerHandshake::on_hello`, with the nonce that the random source gives, if it gives one.
unfoldable pub on_hello : Option Bytes → Message → Server → Result Message HandshakeError × Server
on_hello random msg c = hello_at c.phase random msg c

abbrev pub Machine : Type 0 → Type 0 → Type 0
Machine I A = Action (Server × I) Step A

module _ {I A : Type 0} where
  abbrev pub fail : HandshakeError → Machine I A
  fail e (c, i) = (err (failed e), (fail_phase c, i))

  abbrev pub order_violation : Machine I A
  order_violation (c, i) = (err (failed (violation bad_order)), (fail_phase (burn c), i))

  abbrev pub expect : Option A → Machine I A
  expect none = order_violation
  expect (some a) = pure a

  abbrev pub checked : Result A HandshakeError → Machine I A
  checked (ok a) = pure a
  checked (err e) = fail e

  abbrev pub checked_code : Result A ErrorCode → Machine I A
  checked_code (ok a) = pure a
  checked_code (err code) = fail (violation code)

module _ {I : Type 0} where
  abbrev pub update : (Server → Server) → Machine I (Unit {0})
  update f (c, i) = (ok tt, (f c, i))

  -- A check whose failure fails the handshake.
  abbrev pub fail_if_any : Bool → HandshakeError → Machine I (Unit {0})
  fail_if_any true e = fail e
  fail_if_any false e = pure tt

  -- The check of the echoed nonces, whose failure also burns the session.
  abbrev pub reject_echo_if : Bool → Machine I (Unit {0})
  reject_echo_if true (c, i) =
      (err (failed (authentication nonce_mismatch)), (fail_phase (burn c), i))
  reject_echo_if false s = (ok tt, s)

  abbrev pub opened : Result Bytes Stop × Session → Machine I (Bytes × Session)
  opened (ok plain, session) = pure (plain, session)
  opened (err (fails e), session) = fail (map_session_open_err e)
  opened (err SessionState.panics, session) = raise panicked

  abbrev pub sealed_or_fail : Result Message Fault × Session → Machine I (Message × Session)
  sealed_or_fail (ok m, session) s = (ok (m, session), s)
  sealed_or_fail (err e, session) (c, i) = (err (step_of e), (fail_phase c, i))

abbrev pub issued :
    {I : Type 0} → Result Bytes IssueError × I → Server → Result Bytes Step × (Server × I)
issued (ok body, i) c = (ok body, (c, i))
issued (err e, i) c = (err (failed (issuer_failed e)), (fail_phase c, i))

module _ {I : Type 0} (issuer : SegmentIssuer I) where
  abbrev pub take_segment : Machine I Bytes
  take_segment (c, i) = issued (issuer.issue i) c

  unfoldable pub issue_for : ℕ → Bytes → Bytes → Machine I Step
  issue_for chosen client_nonce server_nonce = do
    (c, _) ← get
    i ← expect c.agreed
    fail_if_any (not (chosen == i)) (violation issue_pointer_mismatch)
    hello_client_nonce ← expect c.client_nonce
    self_server_nonce ← expect c.server_nonce
    reject_echo_if (
        not (bytes_eq client_nonce hello_client_nonce)
        || not (bytes_eq server_nonce self_server_nonce))
    segment ← take_segment
    let ctx : SessionContext = record {
      role = server;
      book_id = c.cfg.book_id;
      segment = i;
      client_nonce = hello_client_nonce;
      server_nonce = self_server_nonce;
    }
    update (λ d. record d { session = some (SessionState.new segment ctx); phase = confirm_wait })
    pure await_peer

  abbrev pub issue_at : Phase → Message → Machine I Step
  issue_at issue_wait (issue_request chosen client_nonce server_nonce) =
      issue_for chosen client_nonce server_nonce
  issue_at _ _ = order_violation

module _ (aead : Aead) {I : Type 0} where
  unfoldable pub establish : ℕ → Bytes → ℕ → ℕ → Bytes → Machine I Step
  establish segment_index nonce epoch seq sealed = do
    (c, _) ← get
    i ← expect c.agreed
    client_nonce ← expect c.client_nonce
    server_nonce ← expect c.server_nonce
    session ← expect c.session
    update burn
    checked (
        verify_confirm_outer segment_index nonce epoch seq i
          (session_nonce session.ctx.client_nonce session.ctx.server_nonce))
    (plain, session') ← opened (open_record aead client_confirm seq sealed session)
    body ← checked_code (decode_confirm_body plain)
    checked (
        verify_confirm_body body
          (confirm_body c.cfg.book_id i client_nonce server_nonce client_to_server))
    (confirm, session'') ←
        sealed_or_fail
          (seal_confirm aead c.cfg.book_id i client_nonce server_nonce server_to_client session')
    update (λ d. record d { phase = is_established })
    pure (established (confirm ∷ []) session'' i)

  abbrev pub confirm_at : Phase → Message → Machine I Step
  confirm_at confirm_wait (confirm_c2s segment nonce epoch seq sealed) =
      establish segment nonce epoch seq sealed
  confirm_at _ _ = order_violation

-- The step that a run ends in, early or not.
abbrev pub ended : {S : Type 0} → Result Step Step × S → Step × S
ended (ok step, s) = (step, s)
ended (err step, s) = (step, s)

-- `ServerHandshake::on_issue_request`
unfoldable pub on_issue_request :
    {I : Type 0} → SegmentIssuer I → Message → Server × I → Step × (Server × I)
on_issue_request issuer msg (c, i) = ended (issue_at issuer c.phase msg (c, i))

-- `ServerHandshake::on_confirm`, which takes no issuer.
unfoldable pub on_confirm : Aead → Message → Server → Step × Server
on_confirm aead msg c =
    let (step, s) = ended (confirm_at aead {I = Unit {0}} c.phase msg (c, tt)) in (step, s.0)
