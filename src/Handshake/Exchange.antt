-- ===== src/Handshake/Exchange.antt =====
-- crates/otp-handshake/src/lib.rs: each step of a handshake that goes well, as an equation.
use jbuu.Base.{
  Bool-cases, inl, inr, ◌==◌, ℕ, suc, ◌-◌, ◌<◌, ◌≤◌, ◌≡◌, refl, ap, ◌∙◌, arith, true, false, not,
  leb, ltb, if◌then◌else◌, Option, none, some, [], ◌∷◌,
}
use jbuu.Base.Result.{Result, ok}
use jbuu.Base.State.{◌>>=◌, ◌>>◌}
use jbuu.Base.Bytes.{Bytes, bytes_eq_iff}
use jbuu.Types.{client_to_server, server_to_client}
use jbuu.Codec.Message.{
  hello, arbitrate, issue_request, confirm_c2s, confirm_s2c, version, ArbitrateResult, agreed_ok,
  server_is_ahead,
}
use jbuu.Codec.Encode.{confirm_bytes}
use jbuu.Codec.Decode.Body.{decode_confirm_body-confirm_bytes}
use jbuu.Session.Aad.{session_nonce, client_confirm, server_confirm}
use jbuu.Session.State.{Aead, IsAead, IsTotal, Session, open_record}
use jbuu.Session.State as SessionState
use jbuu.Handshake.Error.{Step, send, established, await_peer, SegmentIssuer}
use jbuu.Handshake.Sealing.{Terms, AreTyped, body_of, body_of-IsTyped}
use jbuu.Handshake.Sending.{
  after_send, after_receive, Sends, verify_confirm_outer_refl, verify_confirm_body_refl,
}
use jbuu.Handshake.Client.{
  Client, start, handle, skip, take_segment, issue_and_confirm, on_arbitrate, on_confirm_s2c,
}
use jbuu.Handshake.Client as ClientSide
use jbuu.Handshake.Client.Answers as ClientAnswers
use jbuu.Handshake.Server.{
  Server, arbitration, on_hello, issue_for, on_issue_request, establish, on_confirm,
}
use jbuu.Handshake.Server as ServerSide
use jbuu.Handshake.Server.Answers as ServerAnswers

-- The issuer gives `n` segments and then this one.
pub data Yields {I : Type 0} (issuer : SegmentIssuer I) : ℕ → I → Bytes → I → Type 0 where
  last : {i j : I} {body : Bytes} → issuer.issue i ≡ (ok body, j) → Yields issuer 0 i body j
  more :
      {n : ℕ} {i j k : I} {skipped body : Bytes}
      → issuer.issue i ≡ (ok skipped, j)
      → Yields issuer n j body k
      → Yields issuer (suc n) i body k

abbrev pub client_config : Terms → ℕ → ℕ → ClientSide.Config
client_config t cp n = record {
  version_field = version;
  book_id = t.book_id;
  local_pointer = cp;
  segment_count = n;
}

abbrev pub server_config : Terms → ℕ → ServerSide.Config
server_config t n = record {
  version_field = version;
  book_id = t.book_id;
  local_pointer = t.segment;
  segment_count = n;
}

abbrev pub arbitrated : ℕ → ℕ → ArbitrateResult
arbitrated cp sp = if ltb cp sp then server_is_ahead else agreed_ok

abbrev pub gap_of : ℕ → ℕ → Option (ℕ × ℕ)
gap_of cp sp = if ltb cp sp then some (cp, sp) else none

arbitration-eq : (sp cp n : ℕ) → cp ≤ sp → sp < n → arbitration sp cp n ≡ (arbitrated cp sp, sp)
unfolding arbitration
arbitration-eq sp cp n h k = ground arith

module _ (aead : Aead) {I : Type 0} (issuer : SegmentIssuer I) where
  skip-Yields :
      {n : ℕ} {i j : I} {body : Bytes} (f : Bytes → ClientSide.Machine I Step) (c : Client)
      → Yields issuer n i body j
      → (skip aead issuer n >> (take_segment aead issuer >>= f)) (c, i) ≡ f body (c, j)
  unfolding skip
  skip-Yields f c (last e) = rw e refl
  skip-Yields f c (more e rest) = rw e (skip-Yields f c rest)

  -- The client after the ARBITRATE.
  abbrev pub ready : Terms → ℕ → ℕ → Option (ℕ × ℕ) → Client
  ready t cp n gap = record {
    cfg = client_config t cp n;
    phase = ClientSide.hello_sent;
    client_nonce = some t.client_nonce;
    server_nonce = some t.server_nonce;
    agreed = some t.segment;
    session = none;
    wasted_gap = gap;
  }

  abbrev pub sent : Client → Session → Client
  sent c s = record c {
    session = some (after_send client_to_server s);
    phase = ClientSide.confirm_sent;
  }

  issue_and_confirm-eq :
      {i j : I} {body : Bytes} (t : Terms) (cp n : ℕ) (gap : Option (ℕ × ℕ))
      → Yields issuer (t.segment - cp) i body j
      → (let s = SessionState.new body (ClientAnswers.context_of t) in
          (made : Sends aead t client_to_server s)
          → issue_and_confirm aead issuer (ready t cp n gap, i) ≡ (
            ok (
                send (
                  issue_request t.segment t.client_nonce t.server_nonce
                  ∷ confirm_c2s t.segment
                      (session_nonce t.client_nonce t.server_nonce)
                      0
                      0
                      made.sealed
                  ∷ [])),
            (sent (ready t cp n gap) s, j),
          ))
  unfolding issue_and_confirm
  issue_and_confirm-eq t cp n gap yields made =
      skip-Yields _ (ready t cp n gap) yields ∙ rw made.sends refl

  abbrev pub greeted : Terms → ℕ → ℕ → Client
  greeted t cp n = record (ready t cp n none) { server_nonce = none; agreed = none }

  pub handle-arbitrate :
      {i j : I} {body : Bytes} (t : Terms) (cp n : ℕ)
      → cp ≤ t.segment
      → Yields issuer (t.segment - cp) i body j
      → (let s = SessionState.new body (ClientAnswers.context_of t) in
          (made : Sends aead t client_to_server s)
          → handle aead issuer
              (arbitrate t.server_nonce t.segment (arbitrated cp t.segment))
              (greeted t cp n, i)
            ≡ (
              send (
                  issue_request t.segment t.client_nonce t.server_nonce
                  ∷ confirm_c2s t.segment
                      (session_nonce t.client_nonce t.server_nonce)
                      0
                      0
                      made.sealed
                  ∷ []),
              (sent (ready t cp n (gap_of cp t.segment)) s, j),
            ))
  unfolding handle on_arbitrate
  handle-arbitrate t cp n h yields made = elim (Bool-cases (ltb cp t.segment)) [
    | inl e ↦
        let guard : leb t.segment cp ≡ false = ground arith in
        rw (e, guard)
          (ap (λ (p : Result Step Step × (Client × I)). ClientSide.ended p)
            (issue_and_confirm-eq t cp n (some (cp, t.segment)) yields made))
    | inr e ↦
        let guard : not (t.segment == cp) ≡ false = ground arith in
        rw (e, guard)
          (ap (λ (p : Result Step Step × (Client × I)). ClientSide.ended p)
            (issue_and_confirm-eq t cp n none yields made))
  ]

  pub handle-confirm :
      {i : I} (t : Terms) (c : Client) (s : Session) (sealed : Bytes)
      → AreTyped t
      → c.cfg.book_id ≡ t.book_id
      → c.agreed ≡ some t.segment
      → c.client_nonce ≡ some t.client_nonce
      → c.server_nonce ≡ some t.server_nonce
      → c.session ≡ some s
      → session_nonce s.ctx.client_nonce s.ctx.server_nonce
        ≡ session_nonce t.client_nonce t.server_nonce
      → open_record aead server_confirm 0 sealed s
        ≡ (ok (confirm_bytes (body_of t server_to_client)), after_receive s)
      → on_confirm_s2c aead issuer t.segment
          (session_nonce t.client_nonce t.server_nonce)
          0
          0
          sealed
          (c, i)
        ≡ (
          ok (established [] (after_receive s) t.segment),
          (record c { session = none; phase = ClientSide.is_established }, i),
        )
  unfolding on_confirm_s2c
  handle-confirm t c s sealed typed book agreed cn sn has nonce opens =
      rw
        (
          agreed,
          cn,
          sn,
          has,
          book,
          nonce,
          opens,
          verify_confirm_outer_refl t.segment (session_nonce t.client_nonce t.server_nonce),
          decode_confirm_body-confirm_bytes _ (body_of-IsTyped t server_to_client typed),
          verify_confirm_body_refl t server_to_client,
        )
        refl

abbrev pub fresh_server : Terms → ℕ → Server
fresh_server t n = record {
  cfg = server_config t n;
  phase = ServerSide.idle;
  client_nonce = none;
  server_nonce = none;
  agreed = none;
  session = none;
}

-- The server after the HELLO.
abbrev pub hearing : Terms → ℕ → Server
hearing t n = record (fresh_server t n) {
  phase = ServerSide.issue_wait;
  client_nonce = some t.client_nonce;
  server_nonce = some t.server_nonce;
  agreed = some t.segment;
}

abbrev pub holding : Server → Session → Server
holding c s = record c { session = some s; phase = ServerSide.confirm_wait }

pub hello-eq :
    (t : Terms) (cp n : ℕ)
    → cp ≤ t.segment
    → t.segment < n
    → on_hello (some t.server_nonce) (hello t.book_id t.client_nonce cp 0) (fresh_server t n)
      ≡ (ok (arbitrate t.server_nonce t.segment (arbitrated cp t.segment)), hearing t n)
unfolding on_hello
hello-eq t cp n h k =
    rw ((bytes_eq_iff t.book_id t.book_id).1 refl, arbitration-eq t.segment cp n h k)
      (elim (Bool-cases (ltb cp t.segment)) [ inl e ↦ rw e refl | inr e ↦ rw e refl ])

pub request-eq :
    {J : Type 0} (issuer : SegmentIssuer J) {j j' : J} {body : Bytes} (t : Terms) (n : ℕ)
    → issuer.issue j ≡ (ok body, j')
    → on_issue_request issuer
        (issue_request t.segment t.client_nonce t.server_nonce)
        (hearing t n, j)
      ≡ (
        await_peer,
        (holding (hearing t n) (SessionState.new body (ServerAnswers.context_of t)), j'),
      )
unfolding on_issue_request issue_for
request-eq issuer t n e =
    let a = (bytes_eq_iff t.client_nonce t.client_nonce).1 refl in
    let b = (bytes_eq_iff t.server_nonce t.server_nonce).1 refl in
    let c : (t.segment == t.segment) ≡ true = ground arith in rw (c, a, b, e) refl

pub confirm-eq :
    (aead : Aead) (t : Terms) (n : ℕ) (s : Session) (sealed : Bytes)
    → AreTyped t
    → session_nonce s.ctx.client_nonce s.ctx.server_nonce
      ≡ session_nonce t.client_nonce t.server_nonce
    → open_record aead client_confirm 0 sealed s
      ≡ (ok (confirm_bytes (body_of t client_to_server)), after_receive s)
    → (made : Sends aead t server_to_client (after_receive s))
    → on_confirm aead
        (confirm_c2s t.segment (session_nonce t.client_nonce t.server_nonce) 0 0 sealed)
        (holding (hearing t n) s)
      ≡ (
        established
            (confirm_s2c t.segment (session_nonce t.client_nonce t.server_nonce) 0 0 made.sealed
              ∷ [])
            (after_send server_to_client (after_receive s))
            t.segment,
        record (hearing t n) { phase = ServerSide.is_established },
      )
unfolding on_confirm establish
confirm-eq aead t n s sealed typed nonce opens made =
    rw
      (
        nonce,
        opens,
        verify_confirm_outer_refl t.segment (session_nonce t.client_nonce t.server_nonce),
        decode_confirm_body-confirm_bytes _ (body_of-IsTyped t client_to_server typed),
        verify_confirm_body_refl t client_to_server,
        made.sends,
        nonce,
      )
      refl
