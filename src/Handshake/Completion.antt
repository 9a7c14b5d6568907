-- ===== src/Handshake/Completion.antt =====
-- crates/otp-handshake/src/lib.rs: a client and a server that answer each other.
use jbuu.Base.{ℕ, ◌-◌, ◌<◌, ◌≤◌, ◌≡◌, refl, ap, none, some, [], ◌∷◌}
use jbuu.Base.Result.{Result, ok}
use jbuu.Base.Bytes.{Bytes}
use jbuu.Types.{client_to_server, server_to_client}
use jbuu.Codec.Message.{Message}
use jbuu.Session.Aad.{nonce_domain}
use jbuu.Session.State.{Aead, IsAead, IsTotal, Session, open_record}
use jbuu.Session.State as SessionState
use jbuu.Session.Sequence.{next_out}
use jbuu.Session.RoundTrip.{Receives}
use jbuu.Handshake.Error.{Step, send, established, await_peer, SegmentIssuer}
use jbuu.Handshake.Sealing.{Terms, AreTyped}
use jbuu.Handshake.Sending.{after_send, after_receive, seal_for-Sends}
use jbuu.Handshake.Client.{
  Client, start, handle, skip, take_segment, issue_and_confirm, on_arbitrate, on_confirm_s2c,
}
use jbuu.Handshake.Client as ClientSide
use jbuu.Handshake.Client.Answers as ClientAnswers
use jbuu.Handshake.Server.{
  Server, arbitration, on_hello, issue_for, on_issue_request, establish, on_confirm,
}
use jbuu.Handshake.Server as ServerSide
use jbuu.Handshake.Server.Answers as ServerAnswers
use jbuu.Handshake.Exchange.{
  Yields, client_config, server_config, gap_of, ready, sent, greeted, handle-arbitrate,
  handle-confirm, fresh_server, hello-eq, request-eq, confirm-eq,
}

-- A whole exchange: each message is the answer to the one before it, both sides end established at the
-- same segment, and each session receives what the other one sends, from number 1 on.
pub record Completes (aead : Aead) {I J : Type 0} (client_issuer : SegmentIssuer I)
    (server_issuer : SegmentIssuer J) (t : Terms) (cp n : ℕ) (i : I) (i' : I) (j j' : J)
    : Type 0 where
  pub client0 : Client
  pub client1 : Client
  pub client2 : Client
  pub client3 : Client
  pub server0 : Server
  pub server1 : Server
  pub server2 : Server
  pub server3 : Server
  pub greeting : Message
  pub answer : Message
  pub request : Message
  pub sealed : Message
  pub confirm : Message
  pub client_session : Session
  pub server_session : Session
  pub new_client : ClientSide.new (client_config t cp n) ≡ ok client0
  pub new_server : ServerSide.new (server_config t n) ≡ ok server0
  pub starts : start (some t.client_nonce) client0 ≡ (ok greeting, client1)
  pub arbitrates : on_hello (some t.server_nonce) greeting server0 ≡ (ok answer, server1)
  pub requests :
      handle aead client_issuer answer (client1, i) ≡ (send (request ∷ sealed ∷ []), (client2, i'))
  pub waits : on_issue_request server_issuer request (server1, j) ≡ (await_peer, (server2, j'))
  pub confirms :
      on_confirm aead sealed server2
      ≡ (established (confirm ∷ []) server_session t.segment, server3)
  pub establishes :
      handle aead client_issuer confirm (client2, i')
      ≡ (established [] client_session t.segment, (client3, i'))
  pub to_server : Receives client_session server_session
  pub to_client : Receives server_session client_session
  pub numbers : (next_out client_session ≡ 1) × (next_out server_session ≡ 1)

abbrev client_start : Terms → Bytes → Session
client_start t body = SessionState.new body (ClientAnswers.context_of t)

abbrev server_start : Terms → Bytes → Session
server_start t body = SessionState.new body (ServerAnswers.context_of t)

first-Receives : (t : Terms) (body : Bytes) → Receives (client_start t body) (server_start t body)
unfolding nonce_domain
first-Receives t body = record {
  active = (refl, (_, refl));
  way = refl;
  domain = refl;
  ctx = refl;
  keys = refl;
  next = refl;
}

answer-Receives :
    (t : Terms) (body : Bytes)
    → Receives
        (after_receive (server_start t body))
        (after_send client_to_server (client_start t body))
unfolding nonce_domain
answer-Receives t body = record {
  active = (refl, (_, refl));
  way = refl;
  domain = refl;
  ctx = refl;
  keys = refl;
  next = refl;
}

final_to_server-Receives :
    (t : Terms) (body : Bytes)
    → Receives
        (after_receive (after_send client_to_server (client_start t body)))
        (after_send server_to_client (after_receive (server_start t body)))
unfolding nonce_domain
final_to_server-Receives t body = record {
  active = (refl, (_, refl));
  way = refl;
  domain = refl;
  ctx = refl;
  keys = refl;
  next = refl;
}

final_to_client-Receives :
    (t : Terms) (body : Bytes)
    → Receives
        (after_send server_to_client (after_receive (server_start t body)))
        (after_receive (after_send client_to_server (client_start t body)))
unfolding nonce_domain
final_to_client-Receives t body = record {
  active = (refl, (_, refl));
  way = refl;
  domain = refl;
  ctx = refl;
  keys = refl;
  next = refl;
}

-- Where both sides are made for the same book with nonces of 16 bytes, the client is not ahead of the
-- server, the server's pointer is below the number of segments, the client's issuer gives the segments
-- that are skipped and then the one that the server's issuer gives, and the AEAD keeps sizes, opens
-- what it sealed and does not fail on short texts: the whole exchange succeeds. Each message is
-- accepted, both sides end established at the server's pointer, and each session receives what the
-- other one sends from number 1 on.
pub handshake-Completes :
    (aead : Aead) {I J : Type 0} (client_issuer : SegmentIssuer I) (server_issuer : SegmentIssuer J)
    (t : Terms) (cp n : ℕ) {i i' : I} {j j' : J} {body : Bytes}
    → IsAead aead
    → IsTotal aead
    → AreTyped t
    → cp ≤ t.segment
    → t.segment < n
    → Yields client_issuer (t.segment - cp) i body i'
    → server_issuer.issue j ≡ (ok body, j')
    → Completes aead client_issuer server_issuer t cp n i i' j j'
unfolding start handle
handshake-Completes aead client_issuer server_issuer t cp n {i' = i'} {body = body} law total typed
      h k yields issued =
    let a = client_start t body in
    let b = server_start t body in
    let c = seal_for-Sends aead t client_to_server a law total typed (refl, (_, refl)) refl refl in
    let d =
      seal_for-Sends aead t server_to_client (after_receive b) law total typed (refl, (_, refl))
        refl refl in
    let waiting =
      sent aead client_issuer (ready aead client_issuer t cp n (gap_of cp t.segment)) a in
    record {
      client0 = record (greeted aead client_issuer t cp n) {
        phase = ClientSide.idle;
        client_nonce = none;
      };
      client1 = _;
      client2 = waiting;
      client3 = _;
      server0 = fresh_server t n;
      server1 = _;
      server2 = _;
      server3 = _;
      greeting = _;
      answer = _;
      request = _;
      sealed = _;
      confirm = _;
      client_session = after_receive (after_send client_to_server a);
      server_session = after_send server_to_client (after_receive b);
      new_client = refl;
      new_server = refl;
      starts = refl;
      arbitrates = hello-eq t cp n h k;
      requests = handle-arbitrate aead client_issuer t cp n h yields c;
      waits = request-eq server_issuer t n issued;
      confirms = confirm-eq aead t n b c.sealed typed refl (c.opens b (first-Receives t body)) d;
      establishes =
          ap (λ (p : Result Step Step × (Client × _)). ClientSide.ended p)
            (handle-confirm aead client_issuer t waiting (after_send client_to_server a) d.sealed
              typed refl refl refl refl refl refl
              (d.opens (after_send client_to_server a) (answer-Receives t body)));
      to_server = final_to_server-Receives t body;
      to_client = final_to_client-Receives t body;
      numbers = (refl, refl);
    }
