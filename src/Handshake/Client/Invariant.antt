-- ===== src/Handshake/Client/Invariant.antt =====
-- crates/otp-handshake/src/lib.rs: what `ClientHandshake::handle` answers in each phase.
use jbuu.Base.{
  ℕ, zero, suc, ◌-◌, ◌<◌, ◌≡◌, refl, sym, subst, ap, ap₂, ◌∙◌, not, ◌==◌, leb, u64_limit, none,
  some, inl, inr,
}
use jbuu.Base.Result.{Result, ok, err}
use jbuu.Base.State.{continue_with, pure, ◌>>=◌, ◌>>◌}
use jbuu.Base.Actions.{Ends, Ends-assoc}
use jbuu.Base.Bytes.{Bytes, IsArray}
use jbuu.Types.{client_to_server, server_to_client, send_direction}
use jbuu.Codec.Decode.{decode_confirm_body}
use jbuu.Codec.Message.{
  Message, arbitrate, confirm_s2c, IsTyped, ArbitrateResult, agreed_ok, server_is_ahead,
  book_exhausted, wrong_book, client_is_ahead,
}
use jbuu.Allocator.Interfaces.{IssueError}
use jbuu.Session.Aad.{SessionContext, session_nonce, server_confirm}
use jbuu.Session.State.{Aead, IsAead, Stop, fails, Both, at, Session, open_record}
use jbuu.Session.State as SessionState
use jbuu.Session.Steps.{open_record-OpenOutcome}
use jbuu.Handshake.Error.{book_is_exhausted, client_leads, Fault, Step, failed, SegmentIssuer}
use jbuu.Handshake.Confirm.{verify_confirm_outer, verify_confirm_body, confirm_body}
use jbuu.Handshake.Sealing.{Terms, seal_for, AreTyped, seal_for-ConfirmOutcome}
use jbuu.Handshake.Accepting.{Accepted, accepted}
use jbuu.Handshake.Client.{
  Phase, hello_sent, confirm_sent, is_established, ahead_recovery, Config, Client, burn, Machine,
  fail, update, take_segment, skip, issue_and_confirm, on_arbitrate, on_confirm_s2c, dispatch,
  ended, handle, issued,
}
use jbuu.Handshake.Client.Answers.{
  context_of, agreed_terms, Confirming, HasNonce, WellAt, IsWell, Answer, sends, establishes,
  fails_with, Answers, Ends-checked, Ends-checked_code, Ends-reject_pointer_if, Ends-expect,
  Ends-opened, Ends-sealed_or_fail,
}

-- The terms of a session whose CONFIRM is sent, with the own book.
abbrev own : (c : Client) → Confirming c → Terms
own c conf = agreed_terms c conf.terms.segment conf.terms.client_nonce conf.terms.server_nonce

-- The message is the CONFIRM of the server for the session that the client holds, which it leaves as
-- `left`.
abbrev pub Accepts : Aead → Client → Message → Session → Type 0
Accepts aead c msg left =
    (conf : Confirming c) × Accepted aead (own c conf) server_to_client conf.session msg left

module _ (aead : Aead) {I : Type 0} (issuer : SegmentIssuer I) (Hands : Session → Type 0)
    (cfg : Config) where
  Ends-issued :
      (p : Result Bytes IssueError × I) (f : Bytes → Machine I Step) (c : Client)
      → c.cfg ≡ cfg
      → ((segment : Bytes) (j : I) → Ends (f segment) (c, j) (Answers aead Hands cfg))
      → Ends
          (λ (_ : Client × I). continue_with f (issued aead issuer p c))
          (c, p.1)
          (Answers aead Hands cfg)
  Ends-issued (ok segment, j) f c same passes = passes segment j
  Ends-issued (err e, j) f c same passes = fails_with same refl (inl refl)

  Ends-take_segment :
      (f : Bytes → Machine I Step) (c : Client) (i : I)
      → c.cfg ≡ cfg
      → ((segment : Bytes) (j : I) → Ends (f segment) (c, j) (Answers aead Hands cfg))
      → Ends (take_segment aead issuer >>= f) (c, i) (Answers aead Hands cfg)
  Ends-take_segment f c i same passes = Ends-issued (issuer.issue i) f c same passes

  Ends-skip :
      (n : ℕ) (k : Machine I Step) (c : Client) (i : I)
      → c.cfg ≡ cfg
      → ((j : I) → Ends k (c, j) (Answers aead Hands cfg))
      → Ends (skip aead issuer n >> k) (c, i) (Answers aead Hands cfg)
  unfolding skip
  Ends-skip zero k c i same passes = passes i
  Ends-skip (suc n) k c i same passes =
      Ends-assoc (take_segment aead issuer) (λ _. skip aead issuer n) (λ _. k) (c, i)
        (Answers aead Hands cfg)
        (Ends-take_segment _ c i same (λ _ j. Ends-skip n k c j same passes))

  issue_and_confirm-Answers :
      (n : ℕ) (cn sn : Bytes) (c : Client) (i : I)
      → IsAead aead
      → c.cfg ≡ cfg
      → AreTyped (agreed_terms c n cn sn)
      → c.agreed ≡ some n
      → c.client_nonce ≡ some cn
      → c.server_nonce ≡ some sn
      → Ends (issue_and_confirm aead issuer) (c, i) (Answers aead Hands cfg)
  unfolding issue_and_confirm
  issue_and_confirm-Answers n cn sn c i law same typed has_agreed has_cn has_sn =
      let t = agreed_terms c n cn sn in
      Ends-expect aead Hands cfg c.agreed n _ (c, i) (Answers aead Hands cfg) has_agreed
        (Ends-skip (n - c.cfg.local_pointer) _ c i same (λ j.
          Ends-take_segment _ c j same (λ segment k.
            Ends-expect aead Hands cfg c.client_nonce cn _ (c, k) (Answers aead Hands cfg) has_cn
              (Ends-expect aead Hands cfg c.server_nonce sn _ (c, k) (Answers aead Hands cfg) has_sn
                (let s = SessionState.new segment (context_of t) in
                  Ends-sealed_or_fail aead Hands cfg _ t s _ _ c k same
                    (seal_for-ConfirmOutcome aead t client_to_server s law typed (refl, (_, refl))
                      refl)
                    (λ m made live ctx next.
                      sends segment same refl
                        (record {
                          terms = t;
                          typed = typed;
                          book = refl;
                          agreed = has_agreed;
                          client_nonce = has_cn;
                          server_nonce = has_sn;
                          session = _;
                          has_session = refl;
                          active = live;
                          ctx = ctx;
                          sent = next;
                        })
                        (ap
                          (λ (r : Result Message Fault).
                            (r, (seal_for aead t client_to_server s).1))
                          made)))))))

  -- `on_arbitrate`, in the phase `HelloSent`.
  on_arbitrate-Answers :
      (server_nonce : Bytes) (sp : ℕ) (result : ArbitrateResult) (c : Client) (i : I)
      → IsAead aead
      → IsArray 16 server_nonce
      → sp < u64_limit
      → c.cfg ≡ cfg
      → IsArray 16 c.cfg.book_id
      → c.session ≡ none
      → HasNonce c
      → Ends (on_arbitrate aead issuer server_nonce sp result) (c, i) (Answers aead Hands cfg)
  unfolding on_arbitrate
  on_arbitrate-Answers sn sp wrong_book c i law array small same book gone nonce =
      fails_with same gone (inl refl)
  on_arbitrate-Answers sn sp book_exhausted c i law array small same book gone nonce =
      Ends-reject_pointer_if aead Hands cfg (not (sp == c.cfg.segment_count))
        (fail (book_is_exhausted sp)) c i same gone (fails_with same gone (inl refl))
  on_arbitrate-Answers sn sp client_is_ahead c i law array small same book gone nonce =
      Ends-reject_pointer_if aead Hands cfg (leb c.cfg.local_pointer sp)
        (update (λ d. record d { phase = ahead_recovery })
          >> pure (failed (client_leads c.cfg.local_pointer sp)))
        c i same gone (fails_with same gone (inr refl))
  on_arbitrate-Answers sn sp agreed_ok c i law array small same book gone (cn, has, size) =
      let d : Client = record c { server_nonce = some sn; agreed = some sp } in
      Ends-reject_pointer_if aead Hands cfg (not (sp == c.cfg.local_pointer))
        (update (λ e. record e { server_nonce = some sn; agreed = some sp })
          >> issue_and_confirm aead issuer)
        c i same gone
        (issue_and_confirm-Answers sp cn sn d i law same
          (record { book_id = book; segment = small; client_nonce = size; server_nonce = array })
          refl has refl)
  on_arbitrate-Answers sn sp server_is_ahead c i law array small same book gone (cn, has, size) =
      let d : Client = record c {
        wasted_gap = some (c.cfg.local_pointer, sp);
        server_nonce = some sn;
        agreed = some sp;
      } in
      Ends-reject_pointer_if aead Hands cfg (leb sp c.cfg.local_pointer)
        (update (λ e. record e {
          wasted_gap = some (c.cfg.local_pointer, sp);
          server_nonce = some sn;
          agreed = some sp;
        })
          >> issue_and_confirm aead issuer)
        c i same gone
        (issue_and_confirm-Answers sp cn sn d i law same
          (record { book_id = book; segment = small; client_nonce = size; server_nonce = array })
          refl has refl)

  -- `on_confirm_s2c`, in the phase `ConfirmSent`.
  on_confirm_s2c-Answers :
      (segment : ℕ) (nonce : Bytes) (epoch seq : ℕ) (sealed : Bytes) (c : Client) (i : I)
      → c.cfg ≡ cfg
      → (conf : Confirming c)
      → ((left : Session)
          → Accepted aead
              (own c conf)
              server_to_client
              conf.session
              (confirm_s2c segment nonce epoch seq sealed)
              left
          → Hands left)
      → Ends
          (on_confirm_s2c aead issuer segment nonce epoch seq sealed)
          (c, i)
          (Answers aead Hands cfg)
  unfolding on_confirm_s2c
  on_confirm_s2c-Answers segment nonce epoch seq sealed c i same conf gives =
      let Q = Answers aead Hands cfg in
      let s = conf.session in
      let t = conf.terms in
      Ends-expect aead Hands cfg c.agreed t.segment _ (c, i) Q conf.agreed
        (Ends-expect aead Hands cfg c.client_nonce t.client_nonce _ (c, i) Q conf.client_nonce
          (Ends-expect aead Hands cfg c.server_nonce t.server_nonce _ (c, i) Q conf.server_nonce
            (Ends-expect aead Hands cfg c.session s _ (c, i) Q conf.has_session
              (Ends-checked aead Hands cfg
                (verify_confirm_outer segment nonce epoch seq t.segment
                  (session_nonce s.ctx.client_nonce s.ctx.server_nonce))
                _ (burn c) i same refl
                (λ _ outer.
                  Ends-opened aead Hands cfg _ s seq _ _ (burn c) i same refl
                    (open_record-OpenOutcome aead s conf.active.0 conf.active.1.0 conf.active.1.1
                      server_confirm seq sealed)
                    (λ plain opens ctx live keys out.
                      Ends-checked_code aead Hands cfg (decode_confirm_body plain) _ (burn c) i same
                        refl
                        (λ body decodes.
                          Ends-checked aead Hands cfg
                            (verify_confirm_body body (
                              confirm_body c.cfg.book_id t.segment t.client_nonce t.server_nonce
                                server_to_client))
                            _ (burn c) i same refl
                            (λ _ inner.
                              establishes {d = record c { session = none; phase = is_established }}
                                same refl refl conf.agreed
                                (live ∙ conf.active.0, (conf.active.1.0, keys ∙ conf.active.1.1))
                                (ap₂
                                    (λ (k : SessionContext) (b : Both ℕ).
                                      at (send_direction k.role) b)
                                    ctx out
                                  ∙ conf.sent)
                                (
                                  ap (λ (k : SessionContext). k.book_id) (ctx ∙ conf.ctx)
                                      ∙ conf.book
                                      ∙ ap (λ (k : Config). k.book_id) same,
                                  ap (λ (k : SessionContext). k.segment) (ctx ∙ conf.ctx),
                                )
                                (gives _ (
                                  accepted aead (own c conf) server_to_client s segment nonce epoch
                                    seq sealed plain body outer opens decodes inner))))))))))

  dispatch-Answers :
      (p : Phase) (msg : Message) (c : Client) (i : I)
      → IsAead aead
      → IsTyped msg
      → c.cfg ≡ cfg
      → IsArray 16 c.cfg.book_id
      → WellAt p c
      → ((left : Session) → Accepts aead c msg left → Hands left)
      → Ends (dispatch aead issuer p msg) (c, i) (Answers aead Hands cfg)
  dispatch-Answers hello_sent (arbitrate sn sp result) c i law (array, small) same book
        (gone, nonce) gives =
      on_arbitrate-Answers sn sp result c i law array small same book gone nonce
  dispatch-Answers confirm_sent (confirm_s2c n nonce epoch seq sealed) c i law _ same book conf
        gives =
      on_confirm_s2c-Answers n nonce epoch seq sealed c i same conf (λ left a. gives left (conf, a))
  dispatch-Answers p msg c i law _ same book well gives = fails_with same refl (inl refl)

  ended-Answer :
      (p : Result Step Step × (Client × I))
      → Answers aead Hands cfg p.0 p.1
      → Answer aead Hands cfg (ended p).0 (ended p).1.0
  ended-Answer (ok step, s) h = h
  ended-Answer (err step, s) h = h

Answer-IsWell :
    (aead : Aead) (Hands : Session → Type 0) (cfg : Config) (step : Step) (d : Client)
    → IsArray 16 cfg.book_id
    → Answer aead Hands cfg step d
    → IsWell d
Answer-IsWell aead Hands cfg _ d book (sends _ same p conf _) = record {
  book = subst (λ (k : Config). IsArray 16 k.book_id) (sym same) book;
  at_phase = subst (λ (x : Phase). WellAt x d) (sym p) conf;
}
Answer-IsWell aead Hands cfg _ d book (establishes same p gone _ _ _ _ _) = record {
  book = subst (λ (k : Config). IsArray 16 k.book_id) (sym same) book;
  at_phase = subst (λ (x : Phase). WellAt x d) (sym p) gone;
}
Answer-IsWell aead Hands cfg _ d book (fails_with same gone (inl p)) = record {
  book = subst (λ (k : Config). IsArray 16 k.book_id) (sym same) book;
  at_phase = subst (λ (x : Phase). WellAt x d) (sym p) gone;
}
Answer-IsWell aead Hands cfg _ d book (fails_with same gone (inr p)) = record {
  book = subst (λ (k : Config). IsArray 16 k.book_id) (sym same) book;
  at_phase = subst (λ (x : Phase). WellAt x d) (sym p) gone;
}

-- A client that is well takes any typed message, with any issuer and any AEAD that keeps sizes, to a
-- client that is well, and does not panic. It sends the request for the agreed terms and the CONFIRM
-- over them that a fresh session has sealed, and holds that session; or the message was the CONFIRM of
-- the server, which the session that it held opens to the inner copy of the agreed terms, and it hands
-- that session out, active and bound to the book and to the agreed segment, and keeps none; or it fails
-- and keeps none.
pub handle-IsWell :
    (aead : Aead) {I : Type 0} (issuer : SegmentIssuer I) (msg : Message) (c : Client) (i : I)
    → IsAead aead
    → IsTyped msg
    → IsWell c
    → (let (step, (d, j)) = handle aead issuer msg (c, i) in
        IsWell d × Answer aead (Accepts aead c msg) c.cfg step d)
unfolding handle
handle-IsWell aead issuer msg c i law typed well =
    let Hands = Accepts aead c msg in
    let answer = ended-Answer aead issuer Hands c.cfg _ (
      dispatch-Answers aead issuer Hands c.cfg c.phase msg c i law typed refl well.book
        well.at_phase (λ left a. a)) in
    (Answer-IsWell aead Hands _ _ _ well.book answer, answer)
