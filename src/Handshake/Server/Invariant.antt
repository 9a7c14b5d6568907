-- ===== src/Handshake/Server/Invariant.antt =====
-- crates/otp-handshake/src/lib.rs: what `ServerHandshake` answers in each phase.
use jbuu.Base.{ℕ, ◌<◌, ◌≡◌, refl, sym, subst, ap, ap₂, ◌∙◌, not, ◌||◌, ◌==◌, u64_limit, none}
use jbuu.Base.Result.{Result, ok, err}
use jbuu.Base.State.{continue_with}
use jbuu.Base.Actions.{Ends}
use jbuu.Base.Bytes.{Bytes, IsArray, bytes_eq}
use jbuu.Types.{client_to_server, server_to_client, send_direction}
use jbuu.Codec.ErrorCode.{issue_pointer_mismatch}
use jbuu.Codec.Decode.{decode_confirm_body}
use jbuu.Codec.Message.{Message, issue_request, confirm_c2s}
use jbuu.Allocator.Interfaces.{IssueError}
use jbuu.Session.Aad.{SessionContext, session_nonce, client_confirm}
use jbuu.Session.State.{Aead, IsAead, Session, Both, at, open_record}
use jbuu.Session.Steps.{open_record-OpenOutcome}
use jbuu.Handshake.Error.{violation, Fault, Step, SegmentIssuer}
use jbuu.Handshake.Confirm.{verify_confirm_outer, verify_confirm_body, confirm_body}
use jbuu.Handshake.Sealing.{Terms, seal_for, AreTyped, seal_for-ConfirmOutcome}
use jbuu.Handshake.Accepting.{Accepted, accepted}
use jbuu.Handshake.Server.{
  Phase, issue_wait, confirm_wait, is_established, Config, Server, burn, Machine, issued, issue_for,
  issue_at, establish, confirm_at, ended, on_issue_request, on_confirm,
}
use jbuu.Handshake.Server.Answers.{
  context_of, agreed_terms, Agreed, Waiting, WellAt, IsWell, Answer, waits, establishes, fails_with,
  Answers, Ends-checked, Ends-checked_code, Ends-fail_if_any, Ends-reject_echo_if, Ends-expect,
  Ends-opened, Ends-sealed_or_fail,
}

own_book :
    (t : Terms) (book : Bytes)
    → t.book_id ≡ book
    → AreTyped t
    → AreTyped (record t { book_id = book })
own_book t book e h = record {
  book_id = subst (λ (b : Bytes). IsArray 16 b) e h.book_id;
  segment = h.segment;
  client_nonce = h.client_nonce;
  server_nonce = h.server_nonce;
}

module _ {I : Type 0} (issuer : SegmentIssuer I) (cfg : Config) where
  Ends-issued :
      (p : Result Bytes IssueError × I) (f : Bytes → Machine I Step) (c : Server)
      → c.cfg ≡ cfg
      → c.session ≡ none
      → ((segment : Bytes) (j : I) → Ends (f segment) (c, j) (Answers (Unit {0}) (λ _ _. ⊥) cfg))
      → Ends
          (λ (_ : Server × I). continue_with f (issued p c))
          (c, p.1)
          (Answers (Unit {0}) (λ _ _. ⊥) cfg)
  Ends-issued (ok segment, j) f c same gone passes = passes segment j
  Ends-issued (err e, j) f c same gone passes = fails_with same gone refl

  -- `on_issue_request`, in the phase `IssueWait`.
  issue_for-Answers :
      (chosen : ℕ) (cn sn : Bytes) (c : Server) (i : I)
      → c.cfg ≡ cfg
      → c.session ≡ none
      → Agreed c
      → Ends (issue_for issuer chosen cn sn) (c, i) (Answers (Unit {0}) (λ _ _. ⊥) cfg)
  unfolding issue_for
  issue_for-Answers chosen cn sn c i same gone agreed =
      let Q = Answers (Unit {0}) (λ _ _. ⊥) cfg in
      let t = agreed.terms in
      Ends-expect (Unit {0}) (λ _ _. ⊥) cfg c.agreed t.segment _ (c, i) Q agreed.agreed
        (Ends-fail_if_any (Unit {0}) (λ _ _. ⊥) cfg (not (chosen == t.segment))
          (violation issue_pointer_mismatch) _ c i same gone
          (Ends-expect (Unit {0}) (λ _ _. ⊥) cfg c.client_nonce t.client_nonce _ (c, i) Q
            agreed.client_nonce
            (Ends-expect (Unit {0}) (λ _ _. ⊥) cfg c.server_nonce t.server_nonce _ (c, i) Q
              agreed.server_nonce
              (Ends-reject_echo_if (Unit {0}) (λ _ _. ⊥) cfg
                (not (bytes_eq cn t.client_nonce) || not (bytes_eq sn t.server_nonce)) _ c i same
                (Ends-issued (issuer.issue i) _ c same gone (λ segment j.
                  waits same refl
                    (record {
                      base = record {
                        terms = t;
                        typed = agreed.typed;
                        book = agreed.book;
                        agreed = agreed.agreed;
                        client_nonce = agreed.client_nonce;
                        server_nonce = agreed.server_nonce;
                      };
                      session = _;
                      has_session = refl;
                      active = (refl, (_, refl));
                      ctx =
                          ap (λ (b : Bytes). record (context_of t) { book_id = b })
                            (sym agreed.book);
                      unsent = refl;
                    })
                    tt))))))

  issue_at-Answers :
      (p : Phase) (msg : Message) (c : Server) (i : I)
      → c.cfg ≡ cfg
      → WellAt p c
      → Ends (issue_at issuer p msg) (c, i) (Answers (Unit {0}) (λ _ _. ⊥) cfg)
  issue_at-Answers issue_wait (issue_request chosen cn sn) c i same (gone, agreed) =
      issue_for-Answers chosen cn sn c i same gone agreed
  issue_at-Answers p msg c i same well = fails_with same refl refl

-- What was agreed, with the own book.
abbrev own : (c : Server) → Waiting c → Terms
own c wait = let t = wait.base.terms in agreed_terms c t.segment t.client_nonce t.server_nonce

-- The message is the CONFIRM of the client for the session that waits, and `m` is the own CONFIRM that
-- the session then seals over the same terms, which leaves it as `left`.
abbrev pub Confirms : Aead → Server → Message → Message → Session → Type 0
Confirms aead c msg m left =
    (wait : Waiting c) × (u : Session) × Accepted aead (own c wait) client_to_server wait.session
      msg u
    × (seal_for aead (own c wait) server_to_client u ≡ (ok m, left))

module _ (aead : Aead) {I : Type 0} (Hands : Message → Session → Type 0) (cfg : Config) where
  -- `on_confirm`, in the phase `ConfirmWait`.
  establish-Answers :
      (segment : ℕ) (nonce : Bytes) (epoch seq : ℕ) (sealed : Bytes) (c : Server) (i : I)
      → IsAead aead
      → c.cfg ≡ cfg
      → (wait : Waiting c)
      → ((u : Session) (m : Message) (left : Session)
          → Accepted aead
              (own c wait)
              client_to_server
              wait.session
              (confirm_c2s segment nonce epoch seq sealed)
              u
          → seal_for aead (own c wait) server_to_client u ≡ (ok m, left)
          → Hands m left)
      → Ends (establish aead segment nonce epoch seq sealed) (c, i) (Answers ⊥ Hands cfg)
  unfolding establish
  establish-Answers segment nonce epoch seq sealed c i law same wait gives =
      let Q = Answers ⊥ Hands cfg in
      let s = wait.session in
      let base = wait.base in
      let t = base.terms in
      Ends-expect ⊥ Hands cfg c.agreed t.segment _ (c, i) Q base.agreed
        (Ends-expect ⊥ Hands cfg c.client_nonce t.client_nonce _ (c, i) Q base.client_nonce
          (Ends-expect ⊥ Hands cfg c.server_nonce t.server_nonce _ (c, i) Q base.server_nonce
            (Ends-expect ⊥ Hands cfg c.session s _ (c, i) Q wait.has_session
              (Ends-checked ⊥ Hands cfg
                (verify_confirm_outer segment nonce epoch seq t.segment
                  (session_nonce s.ctx.client_nonce s.ctx.server_nonce))
                _ (burn c) i same refl
                (λ _ outer.
                  Ends-opened ⊥ Hands cfg _ s seq _ _ (burn c) i same refl
                    (open_record-OpenOutcome aead s wait.active.0 wait.active.1.0 wait.active.1.1
                      client_confirm seq sealed)
                    (λ plain opens ctx live keys out.
                      Ends-checked_code ⊥ Hands cfg (decode_confirm_body plain) _ (burn c) i same
                        refl
                        (λ body decodes.
                          Ends-checked ⊥ Hands cfg
                            (verify_confirm_body body (
                              confirm_body c.cfg.book_id t.segment t.client_nonce t.server_nonce
                                client_to_server))
                            _ (burn c) i same refl
                            (λ _ inner.
                              let u = (open_record aead client_confirm seq sealed s).1 in
                              Ends-sealed_or_fail ⊥ Hands cfg _
                                (record t { book_id = c.cfg.book_id }) u _ _ (burn c) i same refl
                                (seal_for-ConfirmOutcome aead (record t { book_id = c.cfg.book_id })
                                  server_to_client u law
                                  (own_book t c.cfg.book_id base.book base.typed)
                                  (live ∙ wait.active.0, (wait.active.1.0, keys ∙ wait.active.1.1))
                                  (ap₂
                                      (λ (k : SessionContext) (b : Both ℕ).
                                        at (send_direction k.role) b)
                                      ctx out
                                    ∙ wait.unsent))
                                (λ m made active ctx' next.
                                  establishes
                                    {d = record c { session = none; phase = is_established }} same
                                    refl refl base.agreed active next
                                    (
                                      ap (λ (k : SessionContext). k.book_id) (ctx' ∙ ctx ∙ wait.ctx)
                                          ∙ base.book
                                          ∙ ap (λ (k : Config). k.book_id) same,
                                      ap (λ (k : SessionContext). k.segment)
                                          (ctx' ∙ ctx ∙ wait.ctx),
                                    )
                                    (gives u m _
                                      (accepted aead (own c wait) client_to_server s segment nonce
                                        epoch seq sealed plain body outer opens decodes inner)
                                      (ap
                                        (λ (r : Result Message Fault).
                                          (r, (seal_for aead (own c wait) server_to_client u).1))
                                        made)))))))))))

  confirm_at-Answers :
      (p : Phase) (msg : Message) (c : Server) (i : I)
      → IsAead aead
      → c.cfg ≡ cfg
      → WellAt p c
      → ((m : Message) (left : Session) → Confirms aead c msg m left → Hands m left)
      → Ends (confirm_at aead p msg) (c, i) (Answers ⊥ Hands cfg)
  confirm_at-Answers confirm_wait (confirm_c2s n nonce epoch seq sealed) c i law same wait gives =
      establish-Answers n nonce epoch seq sealed c i law same wait
        (λ u m left a e. gives m left (wait, u, a, e))
  confirm_at-Answers p msg c i law same well gives = fails_with same refl refl

ended-Answer :
    {I : Type 0} (Waits : Type 0) (Hands : Message → Session → Type 0) (cfg : Config)
    (p : Result Step Step × (Server × I))
    → Answers Waits Hands cfg p.0 p.1
    → Answer Waits Hands cfg (ended p).0 (ended p).1.0
ended-Answer Waits Hands cfg (ok step, s) h = h
ended-Answer Waits Hands cfg (err step, s) h = h

pub IsWell-with :
    (cfg : Config) (p : Phase) (d : Server)
    → IsArray 16 cfg.book_id × (cfg.local_pointer < u64_limit)
    → d.cfg ≡ cfg
    → d.phase ≡ p
    → WellAt p d
    → IsWell d
IsWell-with cfg p d (book, small) same at_p well = record {
  book = subst (λ (k : Config). IsArray 16 k.book_id) (sym same) book;
  pointer = subst (λ (k : Config). k.local_pointer < u64_limit) (sym same) small;
  at_phase = subst (λ (x : Phase). WellAt x d) (sym at_p) well;
}

Answer-IsWell :
    (Waits : Type 0) (Hands : Message → Session → Type 0) (cfg : Config) (step : Step) (d : Server)
    → IsArray 16 cfg.book_id × (cfg.local_pointer < u64_limit)
    → Answer Waits Hands cfg step d
    → IsWell d
Answer-IsWell Waits Hands cfg _ d typed (waits same p wait _) =
    IsWell-with cfg _ d typed same p wait
Answer-IsWell Waits Hands cfg _ d typed (establishes same p gone _ _ _ _ _) =
    IsWell-with cfg _ d typed same p gone
Answer-IsWell Waits Hands cfg _ d typed (fails_with same gone p) =
    IsWell-with cfg _ d typed same p gone

-- A server that is well takes any message to `on_issue_request`, with any issuer, to a server that is
-- well, and does not panic: it waits for the CONFIRM with a session bound to the agreed terms, or it
-- fails and keeps no session.
pub on_issue_request-IsWell :
    {I : Type 0} (issuer : SegmentIssuer I) (msg : Message) (c : Server) (i : I)
    → IsWell c
    → (let (step, (d, j)) = on_issue_request issuer msg (c, i) in
        IsWell d × Answer (Unit {0}) (λ _ _. ⊥) c.cfg step d)
unfolding on_issue_request
on_issue_request-IsWell issuer msg c i well =
    let answer =
      ended-Answer (Unit {0}) (λ _ _. ⊥) c.cfg _
        (issue_at-Answers issuer c.cfg c.phase msg c i refl well.at_phase) in
    (Answer-IsWell _ _ _ _ _ (well.book, well.pointer) answer, answer)

-- A server that is well takes any message to `on_confirm`, with an AEAD that keeps sizes, to a server
-- that is well, and does not panic. The message was the CONFIRM of the client, which the waiting session
-- opens to the inner copy of the agreed terms, and then it answers its own CONFIRM, which the same
-- session has sealed over those terms as its first record, and hands that session out, active and bound
-- to the book and the agreed segment, without keeping it; or it fails and keeps no session.
pub on_confirm-IsWell :
    (aead : Aead) (msg : Message) (c : Server)
    → IsAead aead
    → IsWell c
    → (let (step, d) = on_confirm aead msg c in
        IsWell d × Answer ⊥ (Confirms aead c msg) c.cfg step d)
unfolding on_confirm
on_confirm-IsWell aead msg c law well =
    let answer = ended-Answer ⊥ (Confirms aead c msg) c.cfg _ (
      confirm_at-Answers aead (Confirms aead c msg) c.cfg c.phase msg c tt law refl well.at_phase
        (λ m left a. a)) in
    (Answer-IsWell _ _ _ _ _ (well.book, well.pointer) answer, answer)
