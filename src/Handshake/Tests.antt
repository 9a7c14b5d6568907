-- ===== src/Handshake/Tests.antt =====
-- Runs of the handshake (crates/otp-handshake) with a cipher that leaves the text as it is, and with
-- issuers that count.
use jbuu.Base.{ℕ, ◌+◌, ◌<◌, ◌≤◌, ◌≡◌, refl, arith, none, some, replicate, inl}
use jbuu.Base.{List, [], ◌∷◌}
use jbuu.Base.Result.{ok}
use jbuu.Base.Bytes.{IsArray}
use jbuu.Codec.Message.{
  Message, hello, arbitrate, issue_request, confirm_c2s, server_is_ahead, book_exhausted,
}
use jbuu.Session.State.{Aead, IsAead, IsTotal}
use jbuu.Session.State as SessionState
use jbuu.Handshake.Error.{failed, book_is_exhausted, SegmentIssuer}
use jbuu.Handshake.Sealing.{Terms, AreTyped}
use jbuu.Handshake.Exchange.{last, more}
use jbuu.Handshake.Completion.{Completes, handshake-Completes}
use jbuu.Handshake.Refusals.{Spends, on_issue_request-Spends, refused_arbitration}
use jbuu.Handshake.Client.{Client, handle, hello_sent}
use jbuu.Handshake.Client.Answers as ClientAnswers
use jbuu.Handshake.Client.Invariant.{Accepts, handle-IsWell}
use jbuu.Handshake.Client.Runs.{sessions, sessions-le}
use jbuu.Handshake.Server.{
  Server, idle, issue_wait, confirm_wait, on_hello, on_issue_request, on_confirm,
}
use jbuu.Handshake.Server as ServerSide
use jbuu.Handshake.Server.Answers as ServerAnswers
use jbuu.Handshake.Server.Invariant.{Confirms, on_issue_request-IsWell, on_confirm-IsWell}
use jbuu.Handshake.Server.Greeting.{HelloEnds, on_hello-IsWell}

abbrev null_cipher : Aead
null_cipher = record {
  encrypt = λ key nonce aad plain. some (plain, replicate 16 0);
  decrypt = λ key nonce aad ct tag. some ct;
}

null_cipher-IsAead : IsAead null_cipher
null_cipher-IsAead = record {
  tag_size = λ key nonce aad plain ct tag e. ground arith;
  text_size = λ key nonce aad plain ct tag e. ground arith;
  decrypt-encrypt = λ key nonce aad plain ct tag e. ground arith;
}

null_cipher-IsTotal : IsTotal null_cipher
null_cipher-IsTotal = record { encrypts = λ key nonce aad plain short. (_, refl) }

-- Gives segment after segment, and never ends.
abbrev counting : SegmentIssuer ℕ
counting = record { issue = λ i. (ok (replicate 64 i), i + 1) }

abbrev terms : Terms
terms = record {
  book_id = replicate 16 9;
  segment = 7;
  client_nonce = replicate 16 1;
  server_nonce = replicate 16 2;
}

is_array : (b : ℕ) → b < 256 → IsArray 16 (replicate 16 b)
is_array b h = record { size = refl; bytes = ground arith }

terms-AreTyped : AreTyped terms
terms-AreTyped = record {
  book_id = is_array 9 (ground arith);
  segment = ground arith;
  client_nonce = is_array 1 (ground arith);
  server_nonce = is_array 2 (ground arith);
}

handshake-Completes_example : Completes null_cipher counting counting terms 5 10 5 8 7 8
handshake-Completes_example =
    handshake-Completes null_cipher counting counting terms 5 10 {body = replicate 64 7}
      null_cipher-IsAead null_cipher-IsTotal terms-AreTyped (ground arith) (ground arith)
      (more refl (more refl (last refl))) refl

abbrev greeting_client : Client
greeting_client = record {
  cfg = record {
    version_field = 2;
    book_id = terms.book_id;
    local_pointer = 5;
    segment_count = 10;
  };
  phase = hello_sent;
  client_nonce = some terms.client_nonce;
  server_nonce = none;
  agreed = none;
  session = none;
  wasted_gap = none;
}

handle-IsWell_example :
    (let (step, (d, j)) =
        handle null_cipher counting
          (arbitrate (replicate 16 2) 7 server_is_ahead)
          (greeting_client, 5) in
      ClientAnswers.IsWell d
      × ClientAnswers.Answer null_cipher
          (Accepts null_cipher greeting_client (arbitrate (replicate 16 2) 7 server_is_ahead))
          greeting_client.cfg
          step
          d)
handle-IsWell_example =
    handle-IsWell null_cipher counting (arbitrate (replicate 16 2) 7 server_is_ahead)
      greeting_client 5 null_cipher-IsAead (is_array 2 (ground arith), ground arith)
      (record {
        book = is_array 9 (ground arith);
        at_phase = (refl, (_, refl, is_array 1 (ground arith)));
      })

refused_arbitration_example :
    ((handle null_cipher counting
        (arbitrate (replicate 16 2) 10 book_exhausted)
        (greeting_client, 5)).0
      ≡ failed (book_is_exhausted 10))
    × ((handle null_cipher counting
          (arbitrate (replicate 16 2) 10 book_exhausted)
          (greeting_client, 5)).1.1
        ≡ 5)
unfolding ServerSide.arbitration
refused_arbitration_example =
    refused_arbitration null_cipher counting (replicate 16 2) 12 greeting_client 5 refl
      (inl (ground arith))

abbrev new_server : Server
new_server = record {
  cfg = record {
    version_field = 2;
    book_id = terms.book_id;
    local_pointer = 7;
    segment_count = 10;
  };
  phase = idle;
  client_nonce = none;
  server_nonce = none;
  agreed = none;
  session = none;
}

abbrev greeting : Message
greeting = hello terms.book_id terms.client_nonce 5 0

on_hello-IsWell_example :
    (let (r, d) = on_hello (some terms.server_nonce) greeting new_server in
      ServerAnswers.IsWell d
      × (d.session ≡ none)
      × HelloEnds (some terms.server_nonce) new_server greeting r d)
on_hello-IsWell_example =
    on_hello-IsWell (some terms.server_nonce) greeting new_server (is_array 2 (ground arith))
      (is_array 9 (ground arith), is_array 1 (ground arith), ground arith, ground arith)
      (record { book = is_array 9 (ground arith); pointer = ground arith; at_phase = refl })

abbrev waiting_server : Server
waiting_server = record new_server {
  phase = issue_wait;
  client_nonce = some terms.client_nonce;
  server_nonce = some terms.server_nonce;
  agreed = some 7;
}

waiting_server-Agreed : ServerAnswers.Agreed waiting_server
waiting_server-Agreed = record {
  terms = terms;
  typed = terms-AreTyped;
  book = refl;
  agreed = refl;
  client_nonce = refl;
  server_nonce = refl;
}

abbrev request : Message
request = issue_request 7 terms.client_nonce terms.server_nonce

on_issue_request-IsWell_example :
    (let (step, (d, j)) = on_issue_request counting request (waiting_server, 7) in
      ServerAnswers.IsWell d × ServerAnswers.Answer (Unit {0}) (λ _ _. ⊥) waiting_server.cfg step d)
on_issue_request-IsWell_example =
    on_issue_request-IsWell counting request waiting_server 7 (record {
      book = is_array 9 (ground arith);
      pointer = ground arith;
      at_phase = (refl, waiting_server-Agreed);
    })

on_issue_request-Spends_example :
    Spends counting waiting_server request 7
      (on_issue_request counting request (waiting_server, 7)).1.1
on_issue_request-Spends_example = on_issue_request-Spends counting request waiting_server 7

abbrev holding_server : Server
holding_server = record waiting_server {
  phase = confirm_wait;
  session = some (SessionState.new (replicate 64 7) (ServerAnswers.context_of terms));
}

abbrev forged : Message
forged = confirm_c2s 7 (replicate 16 3) 0 0 (replicate 103 0)

on_confirm-IsWell_example :
    (let (step, d) = on_confirm null_cipher forged holding_server in
      ServerAnswers.IsWell d
      × ServerAnswers.Answer ⊥
          (Confirms null_cipher holding_server forged)
          holding_server.cfg
          step
          d)
on_confirm-IsWell_example =
    on_confirm-IsWell null_cipher forged holding_server null_cipher-IsAead (record {
      book = is_array 9 (ground arith);
      pointer = ground arith;
      at_phase = record {
        base = record {
          terms = terms;
          typed = terms-AreTyped;
          book = refl;
          agreed = refl;
          client_nonce = refl;
          server_nonce = refl;
        };
        session = _;
        has_session = refl;
        active = (refl, (_, refl));
        ctx = refl;
        unsent = refl;
      };
    })

-- A message in the ranges of its types, and another behind it that comes out of order.
abbrev two_messages : List Message
two_messages =
    arbitrate (replicate 16 2) 7 server_is_ahead ∷ arbitrate (replicate 16 2) 7 server_is_ahead ∷ []

sessions-le_example : sessions null_cipher counting two_messages (greeting_client, 5) ≤ 1
sessions-le_example =
    sessions-le null_cipher counting two_messages greeting_client 5 null_cipher-IsAead
      ((is_array 2 (ground arith), ground arith), ((is_array 2 (ground arith), ground arith), tt))
      (record {
        book = is_array 9 (ground arith);
        at_phase = (refl, (_, refl, is_array 1 (ground arith)));
      })
