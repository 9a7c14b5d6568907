-- ===== src/Handshake/Client/Answers.antt =====
-- crates/otp-handshake/src/lib.rs: what the fields of `ClientHandshake` are in each phase, what a step
-- can answer, and rules for the parts of its methods.
use jbuu.Base.{ℕ, ◌≡◌, refl, sym, subst, Bool, true, false, Option, none, some, [], ◌∷◌, ◌⊎◌, inl}
use jbuu.Base.Result.{Result, ok, err}
use jbuu.Base.State.{◌>>=◌, ◌>>◌}
use jbuu.Base.Actions.{Post, Ends}
use jbuu.Base.Bytes.{Bytes, IsArray}
use jbuu.Types.{client, client_to_server}
use jbuu.Codec.ErrorCode.{ErrorCode}
use jbuu.Codec.Message.{Message, issue_request}
use jbuu.Session.Aad.{SessionContext}
use jbuu.Session.State.{Aead, Stop, Session}
use jbuu.Session.State as SessionState
use jbuu.Session.Steps.{OpenOutcome, opened, open_refused}
use jbuu.Session.Sequence.{IsActive, next_out}
use jbuu.Handshake.Error.{HandshakeError, Fault, Step, send, established, failed}
use jbuu.Handshake.Sealing.{seal_for, Terms, AreTyped, ConfirmOutcome, confirmed, refused}
use jbuu.Handshake.Client.{
  Phase, idle, hello_sent, confirm_sent, is_established, ahead_recovery, is_failed, Config, Client,
  burn, fail_phase, Machine, fail, order_violation, expect, update, reject_pointer_if, checked,
  checked_code, sealed_or_fail, take_segment, skip, issue_and_confirm, on_arbitrate, on_confirm_s2c,
  dispatch, ended, handle, issued,
}
use jbuu.Handshake.Client as ClientSide

abbrev pub context_of : Terms → SessionContext
context_of t = record {
  role = client;
  book_id = t.book_id;
  segment = t.segment;
  client_nonce = t.client_nonce;
  server_nonce = t.server_nonce;
}

abbrev pub agreed_terms : Client → ℕ → Bytes → Bytes → Terms
agreed_terms c n cn sn = record {
  book_id = c.cfg.book_id;
  segment = n;
  client_nonce = cn;
  server_nonce = sn;
}

-- A session whose CONFIRM is sent, and the terms it is bound to.
pub record Confirming (c : Client) : Type 0 where
  pub terms : Terms
  pub typed : AreTyped terms
  pub book : terms.book_id ≡ c.cfg.book_id
  pub agreed : c.agreed ≡ some terms.segment
  pub client_nonce : c.client_nonce ≡ some terms.client_nonce
  pub server_nonce : c.server_nonce ≡ some terms.server_nonce
  pub session : Session
  pub has_session : c.session ≡ some session
  pub active : IsActive session
  pub ctx : session.ctx ≡ context_of terms
  pub sent : next_out session ≡ 1

abbrev pub HasNonce : Client → Type 0
HasNonce c = (n : Bytes) × (c.client_nonce ≡ some n) × IsArray 16 n

abbrev pub WellAt : Phase → Client → Type 0
WellAt idle c = c.session ≡ none
WellAt hello_sent c = (c.session ≡ none) × HasNonce c
WellAt confirm_sent c = Confirming c
WellAt is_established c = c.session ≡ none
WellAt ahead_recovery c = c.session ≡ none
WellAt is_failed c = c.session ≡ none

-- A session is held in the phase `ConfirmSent` only, and there it is bound to what was agreed.
pub record IsWell (c : Client) : Type 0 where
  pub book : IsArray 16 c.cfg.book_id
  pub at_phase : WellAt c.phase c

-- What a step can answer, and the machine that it leaves: it never waits and it never panics. What it
-- sends is the request for the agreed terms and the CONFIRM that the session it holds has sealed over
-- them, as its first record. `Hands` is what is known of a session that is handed out.
pub data Answer (aead : Aead) (Hands : Session → Type 0) (cfg : Config)
    : Step → Client → Type 0 where
  sends :
      {m : Message} {d : Client} (segment : Bytes)
      → d.cfg ≡ cfg
      → d.phase ≡ confirm_sent
      → (conf : Confirming d)
      → seal_for aead conf.terms client_to_server (SessionState.new segment (context_of conf.terms))
        ≡ (ok m, conf.session)
      → Answer aead Hands cfg
          (send (
            issue_request conf.terms.segment conf.terms.client_nonce conf.terms.server_nonce
            ∷ m
            ∷ []))
          d
  establishes :
      {s : Session} {n : ℕ} {d : Client}
      → d.cfg ≡ cfg
      → d.phase ≡ is_established
      → d.session ≡ none
      → d.agreed ≡ some n
      → IsActive s
      → next_out s ≡ 1
      → (s.ctx.book_id ≡ cfg.book_id) × (s.ctx.segment ≡ n)
      → Hands s
      → Answer aead Hands cfg (established [] s n) d
  fails_with :
      {e : HandshakeError} {d : Client}
      → d.cfg ≡ cfg
      → d.session ≡ none
      → (d.phase ≡ is_failed) ⊎ (d.phase ≡ ahead_recovery)
      → Answer aead Hands cfg (failed e) d

abbrev pub step_in : Result Step Step → Step
step_in (ok step) = step
step_in (err step) = step

module _ {I : Type 0} (aead : Aead) (Hands : Session → Type 0) (cfg : Config) where
  abbrev pub Answers : Post (Client × I) Step Step
  Answers r (d, i) = Answer aead Hands cfg (step_in r) d

  pub fail-Answers :
      {A : Type 0} (e : HandshakeError) (f : A → Machine I Step) (c : Client) (i : I)
      → c.cfg ≡ cfg
      → c.session ≡ none
      → Ends (fail e >>= f) (c, i) Answers
  fail-Answers e f c i same gone = fails_with same gone (inl refl)

  pub Ends-checked :
      {A : Type 0} (r : Result A HandshakeError) (f : A → Machine I Step) (c : Client) (i : I)
      → c.cfg ≡ cfg
      → c.session ≡ none
      → ((a : A) → r ≡ ok a → Ends (f a) (c, i) Answers)
      → Ends (checked r >>= f) (c, i) Answers
  Ends-checked (ok a) f c i same gone passes = passes a refl
  Ends-checked (err e) f c i same gone passes = fails_with same gone (inl refl)

  pub Ends-checked_code :
      {A : Type 0} (r : Result A ErrorCode) (f : A → Machine I Step) (c : Client) (i : I)
      → c.cfg ≡ cfg
      → c.session ≡ none
      → ((a : A) → r ≡ ok a → Ends (f a) (c, i) Answers)
      → Ends (checked_code r >>= f) (c, i) Answers
  Ends-checked_code (ok a) f c i same gone passes = passes a refl
  Ends-checked_code (err e) f c i same gone passes = fails_with same gone (inl refl)

  pub Ends-reject_pointer_if :
      (b : Bool) (k : Machine I Step) (c : Client) (i : I)
      → c.cfg ≡ cfg
      → c.session ≡ none
      → Ends k (c, i) Answers
      → Ends (reject_pointer_if b >> k) (c, i) Answers
  Ends-reject_pointer_if true k c i same gone passes = fails_with same gone (inl refl)
  Ends-reject_pointer_if false k c i same gone passes = passes

  pub Ends-expect :
      {A : Type 0} (o : Option A) (a : A) (f : A → Machine I Step) (s : Client × I)
      (Q : Post (Client × I) Step Step)
      → o ≡ some a
      → Ends (f a) s Q
      → Ends (expect o >>= f) s Q
  Ends-expect o a f s Q h ends = subst (λ (x : Option _). Ends (expect x >>= f) s Q) (sym h) ends

  pub order_violation-Answers :
      (c : Client) (i : I) → c.cfg ≡ cfg → Ends order_violation (c, i) Answers
  order_violation-Answers c i same = fails_with same refl (inl refl)

  pub Ends-opened :
      (f : Bytes × Session → Machine I Step) (s : Session) (seq : ℕ) (r : Result Bytes Stop)
      (t : Session) (c : Client) (i : I)
      → c.cfg ≡ cfg
      → c.session ≡ none
      → OpenOutcome s seq r t
      → ((plain : Bytes)
          → r ≡ ok plain
          → t.ctx ≡ s.ctx
          → t.terminated ≡ s.terminated
          → t.keys ≡ s.keys
          → t.send_seq ≡ s.send_seq
          → Ends (f (plain, t)) (c, i) Answers)
      → Ends (ClientSide.opened (r, t) >>= f) (c, i) Answers
  Ends-opened f s seq (ok plain) _ c i same gone (opened e) passes =
      passes plain refl refl refl refl refl
  Ends-opened f s seq (err _) _ c i same gone open_refused passes = fails_with same gone (inl refl)

  pub Ends-sealed_or_fail :
      (f : Message × Session → Machine I Step) (ts : Terms) (s : Session) (r : Result Message Fault)
      (t : Session) (c : Client) (i : I)
      → c.cfg ≡ cfg
      → ConfirmOutcome ts client_to_server s r t
      → ((m : Message)
          → r ≡ ok m
          → IsActive t
          → t.ctx ≡ s.ctx
          → next_out t ≡ 1
          → Ends (f (m, t)) (c, i) Answers)
      → Ends (sealed_or_fail (r, t) >>= f) (c, i) Answers
  Ends-sealed_or_fail f ts s _ t c i same (confirmed sealed size live ctx last next) passes =
      passes _ refl live ctx next
  Ends-sealed_or_fail f ts s _ t c i same refused passes = fails_with same refl (inl refl)
