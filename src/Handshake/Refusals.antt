-- ===== src/Handshake/Refusals.antt =====
-- crates/otp-handshake/src/lib.rs: which requests take a segment, and what the client makes of an
-- arbitration that does not let it go on.
use jbuu.Base.{
  ℕ, ◌<◌, ◌≤◌, ◌≡◌, refl, sym, subst, ap, ◌∙◌, arith, Bool, true, false, not, ◌||◌, ◌==◌, leb, ltb,
  if◌then◌else◌, ◌⊎◌, inl, inr, Bool-cases, Option, none, some,
}
use jbuu.Base.Result.{Result, ok, err}
use jbuu.Base.State.{continue_with, ◌>>=◌, ◌>>◌}
use jbuu.Base.Actions.{Post, Ends}
use jbuu.Base.Bytes.{Bytes, bytes_eq, bytes_eq_iff}
use jbuu.Codec.ErrorCode.{issue_pointer_mismatch}
use jbuu.Codec.Message.{Message, arbitrate, issue_request}
use jbuu.Allocator.Interfaces.{IssueError}
use jbuu.Session.State.{Aead}
use jbuu.Handshake.Error.{Step, failed, SegmentIssuer, violation, book_is_exhausted, client_leads}
use jbuu.Handshake.Client as ClientSide
use jbuu.Handshake.Client.{handle, on_arbitrate}
use jbuu.Handshake.Server.{
  Phase, issue_wait, Server, Machine, expect, fail_if_any, reject_echo_if, issued, issue_for,
  issue_at, ended, on_issue_request, arbitration,
}

-- What is left of the issuer: untouched, or one segment taken, for a request that names the agreed
-- pointer and echoes both nonces.
pub data Spends {I : Type 0} (issuer : SegmentIssuer I) (c : Server) (msg : Message) (i : I)
    : I → Type 0 where
  untouched : Spends issuer c msg i i
  spent :
      (n : ℕ) (cn sn : Bytes)
      → msg ≡ issue_request n cn sn
      → c.phase ≡ issue_wait
      → c.agreed ≡ some n
      → c.client_nonce ≡ some cn
      → c.server_nonce ≡ some sn
      → Spends issuer c msg i (issuer.issue i).1

echoes : (a b x y : Bytes) → not (bytes_eq a b) || not (bytes_eq x y) ≡ false → (a ≡ b) × (x ≡ y)
echoes a b x y h = ground (arith, bytes_eq_iff a b, bytes_eq_iff x y)

module _ {I : Type 0} (issuer : SegmentIssuer I) (c : Server) (msg : Message) (i : I) where
  abbrev Q : Post (Server × I) Step Step
  Q r (d, j) = Spends issuer c msg i j

  Ends-expect :
      {A : Type 0} (o : Option A) (f : A → Machine I Step)
      → ((a : A) → o ≡ some a → Ends (f a) (c, i) Q)
      → Ends (expect o >>= f) (c, i) Q
  Ends-expect none f passes = untouched
  Ends-expect (some a) f passes = passes a refl

  Ends-reject_echo_if :
      (b : Bool) (k : Machine I Step)
      → (b ≡ false → Ends k (c, i) Q)
      → Ends (reject_echo_if b >> k) (c, i) Q
  Ends-reject_echo_if true k passes = untouched
  Ends-reject_echo_if false k passes = passes refl

  Ends-fail_if_any :
      (b : Bool) (k : Machine I Step)
      → (b ≡ false → Ends k (c, i) Q)
      → Ends (fail_if_any b (violation issue_pointer_mismatch) >> k) (c, i) Q
  Ends-fail_if_any true k passes = untouched
  Ends-fail_if_any false k passes = passes refl

  after_issue :
      (p : Result Bytes IssueError × I) (f : Bytes → Machine I Step)
      → ((segment : Bytes) (j : I) → (f segment (c, j)).1.1 ≡ j)
      → (continue_with f (issued p c)).1.1 ≡ p.1
  after_issue (ok segment, j) f keeps = keeps segment j
  after_issue (err e, j) f keeps = refl

  issue_for-Spends :
      (n : ℕ) (cn sn : Bytes)
      → msg ≡ issue_request n cn sn
      → c.phase ≡ issue_wait
      → Ends (issue_for issuer n cn sn) (c, i) Q
  unfolding issue_for
  issue_for-Spends n cn sn is_request at_wait = Ends-expect c.agreed _ (λ m agreed.
      Ends-fail_if_any (not (n == m)) _ (λ named. Ends-expect c.client_nonce _ (λ cn' has_cn.
        Ends-expect c.server_nonce _ (λ sn' has_sn.
          Ends-reject_echo_if (not (bytes_eq cn cn') || not (bytes_eq sn sn')) _ (λ echoed.
            let same : n ≡ m = ground arith in
            let (same_cn, same_sn) = echoes cn cn' sn sn' echoed in
            subst (λ (j : I). Spends issuer c msg i j)
              (sym (after_issue (issuer.issue i) _ (λ segment j. refl)))
              (spent n cn sn is_request at_wait (agreed ∙ ap (λ (x : ℕ). some x) (sym same))
                (has_cn ∙ ap (λ (x : Bytes). some x) (sym same_cn))
                (has_sn ∙ ap (λ (x : Bytes). some x) (sym same_sn))))))))

  issue_at-Spends :
      (p : Phase) (m : Message) → c.phase ≡ p → msg ≡ m → Ends (issue_at issuer p m) (c, i) Q
  issue_at-Spends issue_wait (issue_request n cn sn) at_wait is_request =
      issue_for-Spends n cn sn is_request at_wait
  issue_at-Spends p m _ _ = untouched

  ended-Spends :
      (p : Result Step Step × (Server × I)) → Q p.0 p.1 → Spends issuer c msg i (ended p).1.1
  ended-Spends (ok step, s) h = h
  ended-Spends (err step, s) h = h

-- Whatever state the server is in and whatever it is given, `on_issue_request` takes no segment of the
-- issuer, or it takes one, in the phase `IssueWait`, for a request that names the agreed pointer and
-- echoes the nonce of the client and that of the server.
pub on_issue_request-Spends :
    {I : Type 0} (issuer : SegmentIssuer I) (msg : Message) (c : Server) (i : I)
    → Spends issuer c msg i (on_issue_request issuer msg (c, i)).1.1
unfolding on_issue_request
on_issue_request-Spends issuer msg c i =
    ended-Spends issuer c msg i _ (issue_at-Spends issuer c msg i c.phase msg refl refl)

-- A client that has sent its HELLO, and gets the arbitration of its pointer by a server with the same
-- number of segments: where the server's pointer is behind the last segment or behind the client's
-- own, it fails as the server says, with the book exhausted or with itself ahead, never with a pointer
-- mismatch, and it takes no segment.
pub refused_arbitration :
    (aead : Aead) {I : Type 0} (issuer : SegmentIssuer I) (sn : Bytes) (sp : ℕ)
    (c : ClientSide.Client) (i : I)
    → c.phase ≡ ClientSide.hello_sent
    → (c.cfg.segment_count ≤ sp) ⊎ (sp < c.cfg.local_pointer)
    → (let (result, out) = arbitration sp c.cfg.local_pointer c.cfg.segment_count in
        let e =
          if leb c.cfg.segment_count sp
          then book_is_exhausted c.cfg.segment_count
          else client_leads c.cfg.local_pointer sp in
        ((handle aead issuer (arbitrate sn out result) (c, i)).0 ≡ failed e)
        × ((handle aead issuer (arbitrate sn out result) (c, i)).1.1 ≡ i))
unfolding handle on_arbitrate arbitration
refused_arbitration aead issuer sn sp c i at_hello h =
    rw at_hello (elim (Bool-cases (leb c.cfg.segment_count sp)) [
      | inl e ↦
          let same : not (c.cfg.segment_count == c.cfg.segment_count) ≡ false = ground arith in
          rw (e, same) (refl, refl)
      | inr e ↦
          let ahead : ltb c.cfg.local_pointer sp ≡ false = ground arith in
          let behind : ltb sp c.cfg.local_pointer ≡ true = ground arith in
          let guard : leb c.cfg.local_pointer sp ≡ false = ground arith in
          rw (e, ahead, behind, guard) (refl, refl)
    ])
