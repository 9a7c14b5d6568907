-- ===== src/Handshake/Client.antt =====
-- crates/otp-handshake/src/lib.rs: `ClientHandshake`. A method runs on the machine and on the issuer;
-- an early `return` is the error of an action, which carries the step.
pub mod Answers
pub mod Invariant
pub mod Runs
use jbuu.Base.{
  ℕ, zero, suc, ◌+◌, ◌-◌, Bool, true, false, not, ◌==◌, leb, Option, none, some, List, [], ◌∷◌,
}
use jbuu.Base.Result.{Result, ok, err}
use jbuu.Base.State.{Action, pure, raise, or_raise, get, modify, ◌>>=◌, ◌>>◌}
use jbuu.Base.Bytes.{Bytes}
use jbuu.Types.{client, server, Direction, client_to_server, server_to_client}
use jbuu.Codec.ErrorCode.{ErrorCode, bad_version, bad_order, issue_pointer_mismatch}
use jbuu.Codec.Message.{
  Message, hello, arbitrate, issue_request, confirm_c2s, confirm_s2c, data_record, version,
  ArbitrateResult, agreed_ok, server_is_ahead, book_exhausted, wrong_book, client_is_ahead,
  ConfirmBody,
}
use jbuu.Codec.Decode.{decode_confirm_body}
use jbuu.Allocator.Interfaces.{IssueError}
use jbuu.Session.Aad.{SessionContext, session_nonce, server_confirm}
use jbuu.Session.State.{Aead, Stop, fails, Session, close, open_record}
use jbuu.Session.State as SessionState
use jbuu.Handshake.Error.{
  HandshakeError, books_differ, book_is_exhausted, client_leads, violation, issuer_failed, csprng,
  map_session_open_err, Fault, Step, send, established, failed, panicked, step_of, SegmentIssuer,
}
use jbuu.Handshake.Confirm.{seal_confirm, verify_confirm_outer, verify_confirm_body, confirm_body}

-- `ClientPhase`
pub data Phase : Type 0 where
  idle hello_sent confirm_sent is_established ahead_recovery is_failed : Phase

-- `ClientConfig`
pub record Config : Type 0 where
  pub version_field : ℕ
  pub book_id : Bytes
  pub local_pointer : ℕ
  pub segment_count : ℕ

-- `ClientHandshake`
pub record Client : Type 0 where
  pub cfg : Config
  pub phase : Phase
  pub client_nonce : Option Bytes
  pub server_nonce : Option Bytes
  pub agreed : Option ℕ
  pub session : Option Session
  pub wasted_gap : Option (ℕ × ℕ)

-- `ClientHandshake::new`
abbrev pub new : Config → Result Client HandshakeError
new cfg = elim (cfg.version_field == version) [
  | false ↦ err (violation bad_version)
  | true ↦ ok (record {
    cfg = cfg;
    phase = idle;
    client_nonce = none;
    server_nonce = none;
    agreed = none;
    session = none;
    wasted_gap = none;
  })
]

-- `burn_session`: the session is closed and dropped.
abbrev pub burn : Client → Client
burn c = record c { session = none }

abbrev pub fail_phase : Client → Client
fail_phase c = record c { phase = is_failed }

-- `ClientHandshake::start`, with the nonce that the random source gives, if it gives one.
abbrev pub start_at : Phase → Option Bytes → Client → Result Message HandshakeError × Client
start_at idle none c = (err csprng, c)
start_at idle (some nonce) c = (
  ok (hello c.cfg.book_id nonce c.cfg.local_pointer 0),
  record c { client_nonce = some nonce; phase = hello_sent },
)
start_at _ random c = (err (violation bad_order), fail_phase c)

unfoldable pub start : Option Bytes → Client → Result Message HandshakeError × Client
start random c = start_at c.phase random c

-- `ClientHandshake::abort`
unfoldable pub abort : ErrorCode → Client → Step × Client
abort reason c = (failed (violation reason), fail_phase (burn c))

abbrev pub Machine : Type 0 → Type 0 → Type 0
Machine I A = Action (Client × I) Step A

module _ {I A : Type 0} where
  -- `self.phase = ClientPhase::Failed; return Step::Failed(e)`
  abbrev pub fail : HandshakeError → Machine I A
  fail e (c, i) = (err (failed e), (fail_phase c, i))

  abbrev pub order_violation : Machine I A
  order_violation (c, i) = (err (failed (violation bad_order)), (fail_phase (burn c), i))

  abbrev pub fail_issuer : IssueError → Machine I A
  fail_issuer e (c, i) = (err (failed (issuer_failed e)), (fail_phase (burn c), i))

  -- `let Some(a) = … else { return self.order_violation() }`
  abbrev pub expect : Option A → Machine I A
  expect none = order_violation
  expect (some a) = pure a

module _ {I : Type 0} where
  abbrev pub update : (Client → Client) → Machine I (Unit {0})
  update f (c, i) = (ok tt, (f c, i))

  abbrev pub reject_pointer_if : Bool → Machine I (Unit {0})
  reject_pointer_if true = fail (violation issue_pointer_mismatch)
  reject_pointer_if false = pure tt

  -- `if let Err(e) = … { session.close(); self.phase = Failed; return Step::Failed(e) }`
  abbrev pub checked : {A : Type 0} → Result A HandshakeError → Machine I A
  checked (ok a) = pure a
  checked (err e) = fail e

  abbrev pub checked_code : {A : Type 0} → Result A ErrorCode → Machine I A
  checked_code (ok a) = pure a
  checked_code (err code) = fail (violation code)

  -- `session.open(…)`, whose error leaves the session dropped.
  abbrev pub opened : Result Bytes Stop × Session → Machine I (Bytes × Session)
  opened (ok plain, session) = pure (plain, session)
  opened (err (fails e), session) = fail (map_session_open_err e)
  opened (err SessionState.panics, session) = raise panicked

  -- The match on `seal_confirm`.
  abbrev pub sealed_or_fail : Result Message Fault × Session → Machine I (Message × Session)
  sealed_or_fail (ok m, session) s = (ok (m, session), s)
  sealed_or_fail (err e, session) (c, i) = (err (step_of e), (fail_phase (burn c), i))

module _ (aead : Aead) {I : Type 0} (issuer : SegmentIssuer I) where
  abbrev pub issued : Result Bytes IssueError × I → Client → Result Bytes Step × (Client × I)
  issued (ok body, i) c = (ok body, (c, i))
  issued (err e, i) c = fail_issuer e (c, i)

  -- `issuer.issue()`, whose error fails the handshake.
  abbrev pub take_segment : Machine I Bytes
  take_segment (c, i) = issued (issuer.issue i) c

  -- `for _ in cp..i`
  unfoldable pub skip : ℕ → Machine I (Unit {0})
  skip zero = pure tt
  skip (suc n) = do take_segment; skip n

  unfoldable pub issue_and_confirm : Machine I Step
  issue_and_confirm = do
    (c, _) ← get
    i ← expect c.agreed
    skip (i - c.cfg.local_pointer)
    segment ← take_segment
    client_nonce ← expect c.client_nonce
    server_nonce ← expect c.server_nonce
    let ctx : SessionContext = record {
      role = client;
      book_id = c.cfg.book_id;
      segment = i;
      client_nonce = client_nonce;
      server_nonce = server_nonce;
    }
    (confirm, session) ← sealed_or_fail (
        seal_confirm aead c.cfg.book_id i client_nonce server_nonce client_to_server
          (SessionState.new segment ctx))
    update (λ d. record d { session = some session; phase = confirm_sent })
    pure (send (issue_request i client_nonce server_nonce ∷ confirm ∷ []))

  unfoldable pub on_arbitrate : Bytes → ℕ → ArbitrateResult → Machine I Step
  on_arbitrate server_nonce sp wrong_book = fail books_differ
  on_arbitrate server_nonce sp book_exhausted = do
    (c, _) ← get
    reject_pointer_if (not (sp == c.cfg.segment_count))
    fail (book_is_exhausted sp)
  on_arbitrate server_nonce sp client_is_ahead = do
    (c, _) ← get
    reject_pointer_if (leb c.cfg.local_pointer sp)
    update (λ d. record d { phase = ahead_recovery })
    pure (failed (client_leads c.cfg.local_pointer sp))
  on_arbitrate server_nonce sp agreed_ok = do
    (c, _) ← get
    reject_pointer_if (not (sp == c.cfg.local_pointer))
    update (λ d. record d { server_nonce = some server_nonce; agreed = some sp })
    issue_and_confirm
  on_arbitrate server_nonce sp server_is_ahead = do
    (c, _) ← get
    reject_pointer_if (leb sp c.cfg.local_pointer)
    update (λ d. record d {
      wasted_gap = some (c.cfg.local_pointer, sp);
      server_nonce = some server_nonce;
      agreed = some sp;
    })
    issue_and_confirm

  unfoldable pub on_confirm_s2c : ℕ → Bytes → ℕ → ℕ → Bytes → Machine I Step
  on_confirm_s2c segment_index nonce epoch seq sealed = do
    (c, _) ← get
    i ← expect c.agreed
    client_nonce ← expect c.client_nonce
    server_nonce ← expect c.server_nonce
    session ← expect c.session
    update burn
    checked (
        verify_confirm_outer segment_index nonce epoch seq i
          (session_nonce session.ctx.client_nonce session.ctx.server_nonce))
    (plain, session') ← opened (open_record aead server_confirm seq sealed session)
    body ← checked_code (decode_confirm_body plain)
    checked (
        verify_confirm_body body
          (confirm_body c.cfg.book_id i client_nonce server_nonce server_to_client))
    update (λ d. record d { phase = is_established })
    pure (established [] session' i)

  -- The match of `handle`, on the phase and on the message.
  abbrev pub dispatch : Phase → Message → Machine I Step
  dispatch hello_sent (arbitrate server_nonce server_pointer result) =
      on_arbitrate server_nonce server_pointer result
  dispatch confirm_sent (confirm_s2c segment nonce epoch seq sealed) =
      on_confirm_s2c segment nonce epoch seq sealed
  dispatch _ _ = order_violation

-- The step that a run ends in, early or not.
abbrev pub ended : {S : Type 0} → Result Step Step × S → Step × S
ended (ok step, s) = (step, s)
ended (err step, s) = (step, s)

-- `ClientHandshake::handle`
unfoldable pub handle :
    Aead → {I : Type 0} → SegmentIssuer I → Message → Client × I → Step × (Client × I)
handle aead issuer msg (c, i) = ended (dispatch aead issuer c.phase msg (c, i))
