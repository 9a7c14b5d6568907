-- ===== src/Handshake/Server/Answers.antt =====
-- crates/otp-handshake/src/lib.rs: what the fields of `ServerHandshake` are in each phase, what a step
-- can answer, and rules for the parts of its methods.
use jbuu.Base.{
  ℕ, ◌<◌, ◌≡◌, refl, sym, subst, Bool, true, false, u64_limit, Option, none, some, [], ◌∷◌,
}
use jbuu.Base.Result.{Result, ok, err}
use jbuu.Base.State.{◌>>=◌, ◌>>◌}
use jbuu.Base.Actions.{Post, Ends}
use jbuu.Base.Bytes.{Bytes, IsArray}
use jbuu.Types.{server, server_to_client}
use jbuu.Codec.ErrorCode.{ErrorCode}
use jbuu.Codec.Message.{Message}
use jbuu.Session.Aad.{SessionContext}
use jbuu.Session.State.{Stop, Session}
use jbuu.Session.Steps.{OpenOutcome, opened, open_refused}
use jbuu.Session.Sequence.{IsActive, next_out}
use jbuu.Handshake.Error.{HandshakeError, Fault, Step, await_peer, established, failed}
use jbuu.Handshake.Sealing.{Terms, AreTyped, ConfirmOutcome, confirmed, refused}
use jbuu.Handshake.Server.{
  Phase, idle, issue_wait, confirm_wait, is_established, ahead_pending, is_failed, Config, Server,
  Machine, fail, order_violation, expect, checked, checked_code, fail_if_any, reject_echo_if,
  sealed_or_fail,
}
use jbuu.Handshake.Server as ServerSide

abbrev pub context_of : Terms → SessionContext
context_of t = record {
  role = server;
  book_id = t.book_id;
  segment = t.segment;
  client_nonce = t.client_nonce;
  server_nonce = t.server_nonce;
}

abbrev pub agreed_terms : Server → ℕ → Bytes → Bytes → Terms
agreed_terms c n cn sn = record {
  book_id = c.cfg.book_id;
  segment = n;
  client_nonce = cn;
  server_nonce = sn;
}

-- What was agreed on in answer to the HELLO.
pub record Agreed (c : Server) : Type 0 where
  pub terms : Terms
  pub typed : AreTyped terms
  pub book : terms.book_id ≡ c.cfg.book_id
  pub agreed : c.agreed ≡ some terms.segment
  pub client_nonce : c.client_nonce ≡ some terms.client_nonce
  pub server_nonce : c.server_nonce ≡ some terms.server_nonce

-- The session that waits for the CONFIRM of the client, and the terms it is bound to.
pub record Waiting (c : Server) : Type 0 where
  pub base : Agreed c
  pub session : Session
  pub has_session : c.session ≡ some session
  pub active : IsActive session
  pub ctx : session.ctx ≡ context_of base.terms
  pub unsent : next_out session ≡ 0

abbrev pub WellAt : Phase → Server → Type 0
WellAt idle c = c.session ≡ none
WellAt issue_wait c = (c.session ≡ none) × Agreed c
WellAt confirm_wait c = Waiting c
WellAt is_established c = c.session ≡ none
WellAt ahead_pending c = c.session ≡ none
WellAt is_failed c = c.session ≡ none

-- A session is held in the phase `ConfirmWait` only, and there it is bound to what was agreed.
pub record IsWell (c : Server) : Type 0 where
  pub book : IsArray 16 c.cfg.book_id
  pub pointer : c.cfg.local_pointer < u64_limit
  pub at_phase : WellAt c.phase c

-- What a step can answer, and the machine that it leaves: it never panics. `Waits` is what is known
-- where it waits, and `Hands` of a message that it answers and the session that it hands out.
pub data Answer (Waits : Type 0) (Hands : Message → Session → Type 0) (cfg : Config)
    : Step → Server → Type 0 where
  waits :
      {d : Server}
      → d.cfg ≡ cfg
      → d.phase ≡ confirm_wait
      → Waiting d
      → Waits
      → Answer Waits Hands cfg await_peer d
  establishes :
      {m : Message} {s : Session} {n : ℕ} {d : Server}
      → d.cfg ≡ cfg
      → d.phase ≡ is_established
      → d.session ≡ none
      → d.agreed ≡ some n
      → IsActive s
      → next_out s ≡ 1
      → (s.ctx.book_id ≡ cfg.book_id) × (s.ctx.segment ≡ n)
      → Hands m s
      → Answer Waits Hands cfg (established (m ∷ []) s n) d
  fails_with :
      {e : HandshakeError} {d : Server}
      → d.cfg ≡ cfg
      → d.session ≡ none
      → d.phase ≡ is_failed
      → Answer Waits Hands cfg (failed e) d

abbrev pub step_in : Result Step Step → Step
step_in (ok step) = step
step_in (err step) = step

module _ {I : Type 0} (Waits : Type 0) (Hands : Message → Session → Type 0) (cfg : Config) where
  abbrev pub Answers : Post (Server × I) Step Step
  Answers r (d, i) = Answer Waits Hands cfg (step_in r) d

  pub fail-Answers :
      {A : Type 0} (e : HandshakeError) (f : A → Machine I Step) (c : Server) (i : I)
      → c.cfg ≡ cfg
      → c.session ≡ none
      → Ends (fail e >>= f) (c, i) Answers
  fail-Answers e f c i same gone = fails_with same gone refl

  pub Ends-checked :
      {A : Type 0} (r : Result A HandshakeError) (f : A → Machine I Step) (c : Server) (i : I)
      → c.cfg ≡ cfg
      → c.session ≡ none
      → ((a : A) → r ≡ ok a → Ends (f a) (c, i) Answers)
      → Ends (checked r >>= f) (c, i) Answers
  Ends-checked (ok a) f c i same gone passes = passes a refl
  Ends-checked (err e) f c i same gone passes = fails_with same gone refl

  pub Ends-checked_code :
      {A : Type 0} (r : Result A ErrorCode) (f : A → Machine I Step) (c : Server) (i : I)
      → c.cfg ≡ cfg
      → c.session ≡ none
      → ((a : A) → r ≡ ok a → Ends (f a) (c, i) Answers)
      → Ends (checked_code r >>= f) (c, i) Answers
  Ends-checked_code (ok a) f c i same gone passes = passes a refl
  Ends-checked_code (err e) f c i same gone passes = fails_with same gone refl

  pub Ends-fail_if_any :
      (b : Bool) (e : HandshakeError) (k : Machine I Step) (c : Server) (i : I)
      → c.cfg ≡ cfg
      → c.session ≡ none
      → Ends k (c, i) Answers
      → Ends (fail_if_any b e >> k) (c, i) Answers
  Ends-fail_if_any true e k c i same gone passes = fails_with same gone refl
  Ends-fail_if_any false e k c i same gone passes = passes

  pub Ends-reject_echo_if :
      (b : Bool) (k : Machine I Step) (c : Server) (i : I)
      → c.cfg ≡ cfg
      → Ends k (c, i) Answers
      → Ends (reject_echo_if b >> k) (c, i) Answers
  Ends-reject_echo_if true k c i same passes = fails_with same refl refl
  Ends-reject_echo_if false k c i same passes = passes

  pub Ends-expect :
      {A : Type 0} (o : Option A) (a : A) (f : A → Machine I Step) (s : Server × I)
      (Q : Post (Server × I) Step Step)
      → o ≡ some a
      → Ends (f a) s Q
      → Ends (expect o >>= f) s Q
  Ends-expect o a f s Q h ends = subst (λ (x : Option _). Ends (expect x >>= f) s Q) (sym h) ends

  pub order_violation-Answers :
      (c : Server) (i : I) → c.cfg ≡ cfg → Ends order_violation (c, i) Answers
  order_violation-Answers c i same = fails_with same refl refl

  pub Ends-opened :
      (f : Bytes × Session → Machine I Step) (s : Session) (seq : ℕ) (r : Result Bytes Stop)
      (t : Session) (c : Server) (i : I)
      → c.cfg ≡ cfg
      → c.session ≡ none
      → OpenOutcome s seq r t
      → ((plain : Bytes)
          → r ≡ ok plain
          → t.ctx ≡ s.ctx
          → t.terminated ≡ s.terminated
          → t.keys ≡ s.keys
          → t.send_seq ≡ s.send_seq
          → Ends (f (plain, t)) (c, i) Answers)
      → Ends (ServerSide.opened (r, t) >>= f) (c, i) Answers
  Ends-opened f s seq (ok plain) _ c i same gone (opened e) passes =
      passes plain refl refl refl refl refl
  Ends-opened f s seq (err _) _ c i same gone open_refused passes = fails_with same gone refl

  pub Ends-sealed_or_fail :
      (f : Message × Session → Machine I Step) (ts : Terms) (s : Session) (r : Result Message Fault)
      (t : Session) (c : Server) (i : I)
      → c.cfg ≡ cfg
      → c.session ≡ none
      → ConfirmOutcome ts server_to_client s r t
      → ((m : Message)
          → r ≡ ok m
          → IsActive t
          → t.ctx ≡ s.ctx
          → next_out t ≡ 1
          → Ends (f (m, t)) (c, i) Answers)
      → Ends (sealed_or_fail (r, t) >>= f) (c, i) Answers
  Ends-sealed_or_fail f ts s _ t c i same gone (confirmed sealed size live ctx last next) passes =
      passes _ refl live ctx next
  Ends-sealed_or_fail f ts s _ t c i same gone refused passes = fails_with same gone refl
