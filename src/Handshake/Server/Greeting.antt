-- ===== src/Handshake/Server/Greeting.antt =====
-- crates/otp-handshake/src/lib.rs: what `ServerHandshake::on_hello` leaves.
use jbuu.Base.{
  ℕ, ◌<◌, ◌≤◌, ◌≡◌, ◌≢◌, refl, sym, ap, subst, ◌∙◌, ◌⊎◌, inl, inr, arith, true, false, not, leb,
  ltb, leb→le, leb_false→lt, ltb→lt, Bool-cases, if◌then◌else◌, u64_limit, Option, none, some,
}
use jbuu.Base.Result.{Result, ok, err}
use jbuu.Base.Bytes.{Bytes, IsArray, bytes_eq, bytes_eq_iff}
use jbuu.Codec.Message.{
  Message, hello, arbitrate, IsTyped, ArbitrateResult, agreed_ok, server_is_ahead, book_exhausted,
  wrong_book, client_is_ahead,
}
use jbuu.Codec.ErrorCode.{bad_order}
use jbuu.Session.State.{Session}
use jbuu.Handshake.Error.{HandshakeError, violation, csprng}
use jbuu.Handshake.Server.{
  Phase, idle, issue_wait, ahead_pending, is_failed, Server, fail_phase, arbitration,
  arbitrate_with, settle, answer_hello, hello_at, on_hello,
}
use jbuu.Handshake.Server.Answers.{Agreed, WellAt, IsWell}
use jbuu.Handshake.Server.Invariant.{IsWell-with}

Agreed-with :
    (sn cn : Bytes) (c : Server)
    → IsArray 16 c.cfg.book_id × (c.cfg.local_pointer < u64_limit)
    → IsArray 16 cn
    → IsArray 16 sn
    → c.client_nonce ≡ some cn
    → Agreed (settle agreed_ok sn c.cfg.local_pointer c)
Agreed-with sn cn c (book, small) h k has = record {
  terms = record {
    book_id = c.cfg.book_id;
    segment = c.cfg.local_pointer;
    client_nonce = cn;
    server_nonce = sn;
  };
  typed = record { book_id = book; segment = small; client_nonce = h; server_nonce = k };
  book = refl;
  agreed = refl;
  client_nonce = has;
  server_nonce = refl;
}

arbitrate_with-IsWell :
    (sn cn : Bytes) (result : ArbitrateResult) (out : ℕ) (c : Server)
    → IsArray 16 c.cfg.book_id × (c.cfg.local_pointer < u64_limit)
    → IsArray 16 cn
    → IsArray 16 sn
    → c.client_nonce ≡ some cn
    → c.phase ≡ idle
    → c.session ≡ none
    → IsWell (arbitrate_with sn (result, out) c).1
arbitrate_with-IsWell sn cn agreed_ok out c typed h k has p gone =
    IsWell-with c.cfg issue_wait _ typed refl refl (gone, Agreed-with sn cn c typed h k has)
arbitrate_with-IsWell sn cn server_is_ahead out c typed h k has p gone =
    IsWell-with c.cfg issue_wait _ typed refl refl (gone, Agreed-with sn cn c typed h k has)
arbitrate_with-IsWell sn cn book_exhausted out c typed h k has p gone =
    IsWell-with c.cfg is_failed _ typed refl refl gone
arbitrate_with-IsWell sn cn client_is_ahead out c typed h k has p gone =
    IsWell-with c.cfg ahead_pending _ typed refl refl gone
arbitrate_with-IsWell sn cn wrong_book out c typed h k has p gone =
    IsWell-with c.cfg idle _ typed refl p gone

abbrev pub IsNonce : Option Bytes → Type 0
IsNonce none = Unit {0}
IsNonce (some n) = IsArray 16 n

answer_hello-IsWell :
    (random : Option Bytes) (book_id cn : Bytes) (cp : ℕ) (c : Server)
    → IsArray 16 c.cfg.book_id × (c.cfg.local_pointer < u64_limit)
    → IsNonce random
    → IsArray 16 cn
    → c.client_nonce ≡ some cn
    → c.phase ≡ idle
    → c.session ≡ none
    → IsWell (answer_hello random book_id cp c).1
answer_hello-IsWell none book_id cn cp c typed _ h has p gone =
    IsWell-with c.cfg idle _ typed refl p gone
answer_hello-IsWell (some sn) book_id cn cp c typed k h has p gone =
    elim (not (bytes_eq book_id c.cfg.book_id))
      as (λ b.
        IsWell
          (if b
            then (ok (arbitrate sn 0 wrong_book), fail_phase c)
            else arbitrate_with sn (arbitration c.cfg.local_pointer cp c.cfg.segment_count) c).1) [
              | true ↦ IsWell-with c.cfg is_failed _ typed refl refl gone
              | false ↦
                  (let (result, out) = arbitration c.cfg.local_pointer cp c.cfg.segment_count in
                    arbitrate_with-IsWell sn cn result out c typed h k has p gone)
            ]

hello_at-IsWell :
    (p : Phase) (random : Option Bytes) (msg : Message) (c : Server)
    → c.phase ≡ p
    → IsArray 16 c.cfg.book_id × (c.cfg.local_pointer < u64_limit)
    → IsNonce random
    → IsTyped msg
    → WellAt p c
    → IsWell (hello_at p random msg c).1
hello_at-IsWell idle random (hello book_id cn cp features) c e typed k (_, h, _, _) gone =
    answer_hello-IsWell random book_id cn cp _ typed k h refl e gone
hello_at-IsWell idle random msg c e typed k _ gone =
    IsWell-with c.cfg is_failed _ typed refl refl gone
hello_at-IsWell p random msg c e typed k _ well = IsWell-with c.cfg is_failed _ typed refl refl refl

-- The ends of the arbitration of the own pointer with the one of the client.
data Arbitrated (sp cp n : ℕ) : ArbitrateResult × ℕ → Type 0 where
  none_left : n ≤ sp → Arbitrated sp cp n (book_exhausted, n)
  ahead : sp < n → cp < sp → Arbitrated sp cp n (server_is_ahead, sp)
  behind : sp < n → sp < cp → Arbitrated sp cp n (client_is_ahead, sp)
  equal : sp < n → cp ≡ sp → Arbitrated sp cp n (agreed_ok, sp)

arbitration-Arbitrated : (sp cp n : ℕ) → Arbitrated sp cp n (arbitration sp cp n)
unfolding arbitration
arbitration-Arbitrated sp cp n = elim (Bool-cases (leb n sp)) [
  | inl out ↦ rw out (none_left (leb→le _ _ out))
  | inr some_left ↦
      let less : sp < n = leb_false→lt some_left in
      elim (Bool-cases (ltb cp sp)) [
        | inl high ↦ rw (some_left, high) (ahead less (ltb→lt _ _ high))
        | inr high ↦ elim (Bool-cases (ltb sp cp)) [
          | inl low ↦ rw (some_left, high, low) (behind less (ltb→lt _ _ low))
          | inr low ↦ rw (some_left, high, low) (equal less (ground (arith, high, low)))
        ]
      ]
]

-- The ends of `on_hello`: the answer, and the machine that it leaves. `go_on` keeps the terms, and
-- only there they are kept.
pub data HelloEnds (random : Option Bytes) (c : Server)
    : Message → Result Message HandshakeError → Server → Type 0 where
  go_on :
      {book_id cn sn : Bytes} {cp f : ℕ} {result : ArbitrateResult} {d : Server}
      → c.phase ≡ idle
      → random ≡ some sn
      → book_id ≡ c.cfg.book_id
      → c.cfg.local_pointer < c.cfg.segment_count
      → ((result ≡ agreed_ok) × (cp ≡ c.cfg.local_pointer))
        ⊎ ((result ≡ server_is_ahead) × (cp < c.cfg.local_pointer))
      → d ≡ record c {
        client_nonce = some cn;
        server_nonce = some sn;
        agreed = some c.cfg.local_pointer;
        phase = issue_wait;
      }
      → HelloEnds random c (hello book_id cn cp f) (ok (arbitrate sn c.cfg.local_pointer result)) d
  client_leads :
      {book_id cn sn : Bytes} {cp f : ℕ} {d : Server}
      → c.phase ≡ idle
      → random ≡ some sn
      → book_id ≡ c.cfg.book_id
      → c.cfg.local_pointer < c.cfg.segment_count
      → c.cfg.local_pointer < cp
      → d ≡ record c { client_nonce = some cn; phase = ahead_pending }
      → HelloEnds random c
          (hello book_id cn cp f)
          (ok (arbitrate sn c.cfg.local_pointer client_is_ahead))
          d
  exhausted :
      {book_id cn sn : Bytes} {cp f : ℕ} {d : Server}
      → c.phase ≡ idle
      → random ≡ some sn
      → book_id ≡ c.cfg.book_id
      → c.cfg.segment_count ≤ c.cfg.local_pointer
      → d ≡ record c { client_nonce = some cn; phase = is_failed }
      → HelloEnds random c
          (hello book_id cn cp f)
          (ok (arbitrate sn c.cfg.segment_count book_exhausted))
          d
  other_book :
      {book_id cn sn : Bytes} {cp f : ℕ} {d : Server}
      → c.phase ≡ idle
      → random ≡ some sn
      → book_id ≢ c.cfg.book_id
      → d ≡ record c { client_nonce = some cn; phase = is_failed }
      → HelloEnds random c (hello book_id cn cp f) (ok (arbitrate sn 0 wrong_book)) d
  no_random :
      {book_id cn : Bytes} {cp f : ℕ} {d : Server}
      → c.phase ≡ idle
      → random ≡ none
      → d ≡ record c { client_nonce = some cn }
      → HelloEnds random c (hello book_id cn cp f) (err csprng) d
  out_of_order :
      {msg : Message} {d : Server}
      → (c.phase ≢ idle) ⊎ ((b n : Bytes) (p f : ℕ) → msg ≢ hello b n p f)
      → d ≡ record c { session = none; phase = is_failed }
      → HelloEnds random c msg (err (violation bad_order)) d

settled :
    (c : Server) (book_id cn sn : Bytes) (cp f : ℕ) (a : ArbitrateResult × ℕ)
    → c.phase ≡ idle
    → book_id ≡ c.cfg.book_id
    → Arbitrated c.cfg.local_pointer cp c.cfg.segment_count a
    → (let (r, d) = arbitrate_with sn a (record c { client_nonce = some cn }) in
        HelloEnds (some sn) c (hello book_id cn cp f) r d)
settled c book_id cn sn cp f _ e same (none_left h) = exhausted e refl same h refl
settled c book_id cn sn cp f _ e same (ahead h k) = go_on e refl same h (inr (refl, k)) refl
settled c book_id cn sn cp f _ e same (behind h k) = client_leads e refl same h k refl
settled c book_id cn sn cp f _ e same (equal h k) = go_on e refl same h (inl (refl, k)) refl

burnt :
    (c : Server) → c.session ≡ none → fail_phase c ≡ record c { session = none; phase = is_failed }
burnt c gone =
    let with_session : Option Session → Server = λ o. record c { session = o; phase = is_failed } in
    ap with_session gone

hello_at-HelloEnds :
    (p : Phase) (random : Option Bytes) (msg : Message) (c : Server)
    → c.phase ≡ p
    → WellAt p c
    → (let (r, d) = hello_at p random msg c in HelloEnds random c msg r d)
hello_at-HelloEnds idle none (hello book_id cn cp f) c e gone = no_random e refl refl
hello_at-HelloEnds idle (some sn) (hello book_id cn cp f) c e gone =
    elim (Bool-cases (bytes_eq book_id c.cfg.book_id)) [
      | inl same ↦ rw same (
          settled c book_id cn sn cp f _ e ((bytes_eq_iff _ _).0 same)
            (arbitration-Arbitrated c.cfg.local_pointer cp c.cfg.segment_count))
      | inr other ↦
          rw other (
            other_book e refl (λ h. let same = (bytes_eq_iff book_id c.cfg.book_id).1 h in cc) refl)
    ]
hello_at-HelloEnds idle random msg c e gone =
    out_of_order (inr (λ b n p f h. absurd cc)) (burnt c gone)
hello_at-HelloEnds p random msg c e well =
    out_of_order (inl (λ h. let k = sym e ∙ h in absurd cc)) refl

HelloEnds-session :
    {random : Option Bytes} {msg : Message} {r : Result Message HandshakeError} (c d : Server)
    → (c.phase ≡ idle → c.session ≡ none)
    → HelloEnds random c msg r d
    → d.session ≡ none
HelloEnds-session c d gone (go_on e _ _ _ _ h) = ap (λ (x : Server). x.session) h ∙ gone e
HelloEnds-session c d gone (client_leads e _ _ _ _ h) = ap (λ (x : Server). x.session) h ∙ gone e
HelloEnds-session c d gone (exhausted e _ _ _ h) = ap (λ (x : Server). x.session) h ∙ gone e
HelloEnds-session c d gone (other_book e _ _ h) = ap (λ (x : Server). x.session) h ∙ gone e
HelloEnds-session c d gone (no_random e _ h) = ap (λ (x : Server). x.session) h ∙ gone e
HelloEnds-session c d gone (out_of_order _ h) = ap (λ (x : Server). x.session) h

-- A server that is well takes any typed message to `on_hello`, with a random nonce of 16 bytes or
-- without one, to a server that is well and holds no session. In the phase `Idle`, a HELLO with the own
-- book is answered by the arbitration of the two pointers: where it allows to go on, both nonces and
-- the own pointer are kept as the terms and the server waits for the request; where the client is ahead
-- or the book is exhausted, the server is in the phase for that. A HELLO with another book is answered
-- with that and fails the server; without a random nonce only the nonce of the client is kept; and any
-- other message, or any message in another phase, is a violation of the order, which fails the server.
pub on_hello-IsWell :
    (random : Option Bytes) (msg : Message) (c : Server)
    → IsNonce random
    → IsTyped msg
    → IsWell c
    → (let (r, d) = on_hello random msg c in
        IsWell d × (d.session ≡ none) × HelloEnds random c msg r d)
unfolding on_hello
on_hello-IsWell random msg c k typed well =
    let ends = hello_at-HelloEnds c.phase random msg c refl well.at_phase in
    (
      hello_at-IsWell c.phase random msg c refl (well.book, well.pointer) k typed well.at_phase,
      HelloEnds-session c _ (λ e. subst (λ (p : Phase). WellAt p c) e well.at_phase) ends,
      ends,
    )
