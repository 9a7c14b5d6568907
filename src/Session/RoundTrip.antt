-- ===== src/Session/RoundTrip.antt =====
-- crates/otp-session/src/session.rs: `open` at the peer after `seal`.
use jbuu.Base.{
  ℕ, ◌-◌, ◌≡◌, refl, ap, ap₂, arith, Bool, true, false, not, ltb, Option, none, some, ◌++◌, length,
  length-append, take, drop, take-append, drop-append, checked_add-eq-some,
}
use jbuu.Base.Result.{Result, ok, err}
use jbuu.Base.Actions.{Post, Ends, Ends-at, Ends-or_raise}
use jbuu.Base.Bytes.{Bytes}
use jbuu.Types.{Direction, opposite, tag_len}
use jbuu.Session.Aad.{MessageType, SessionContext, build_aad}
use jbuu.Session.State.{
  Aead, IsAead, authentication_failed, sequence_replay, sequence_unexpected, wrong_way,
  authentication, sequence_violation, misuse, Stop, panics, at, put, SessionKeys, Session, Record,
  pairing_valid, seq_discipline, nonce_of, aad_of, is_number, expected_after, seal, open_record,
}
use jbuu.Session.Steps.{Ends-ensure_active, Ends-reject_if, Ends-or_reject, out_of}
use jbuu.Session.Sequence.{next_out, IsActive}

-- A receiver of what a session sends: same keys and context but for the role, and the number that it
-- expects is the one that is sent next.
pub record Receives (s r : Session) : Type 0 where
  pub active : IsActive r
  pub way : opposite (out_of r) ≡ out_of s
  pub domain : r.domain ≡ s.domain
  pub ctx : r.ctx ≡ record s.ctx { role = r.ctx.role }
  pub keys : r.keys ≡ s.keys
  pub next : expected_after (at (out_of s) r.recv_last) ≡ some (next_out s)

-- The parts of a record that was sealed.
pub record Sealed (aead : Aead) (s : Session) (mt : MessageType) (plain : Bytes) (r : Record)
    : Type 0 where
  pub sequence : r.sequence ≡ next_out s
  pub paired : pairing_valid mt (out_of s) ≡ true
  pub disciplined : seq_discipline mt (next_out s) ≡ true
  pub keys : SessionKeys
  pub has_keys : s.keys ≡ some keys
  pub ct : Bytes
  pub tag : Bytes
  pub whole : r.sealed ≡ ct ++ tag
  pub encrypted :
      aead.encrypt
        (at (out_of s) keys)
        (nonce_of s (out_of s) (next_out s))
        (aad_of s mt (out_of s) (next_out s))
        plain
      ≡ some (ct, tag)

abbrev pub OkSealed : Aead → Session → MessageType → Bytes → Post Session Stop Record
OkSealed aead s mt plain (ok r) t = Sealed aead s mt plain r
OkSealed aead s mt plain (err _) t = Unit {0}

not-false : (b : Bool) → not b ≡ false → b ≡ true
not-false true h = refl
not-false false h = absurd cc

pub seal-OkSealed :
    (aead : Aead) (s : Session) (mt : MessageType) (plain : Bytes)
    → s.terminated ≡ none
    → Ends (seal aead mt plain) s (OkSealed aead s mt plain)
unfolding seal
seal-OkSealed aead s mt plain live =
    let Q = OkSealed aead s mt plain in
    let d = out_of s in
    let seq = at d s.send_seq in
    Ends-ensure_active _ s Q live (
      Ends-reject_if (not (pairing_valid mt d)) misuse wrong_way _ s Q (λ _. tt)
        (λ paired.
          Ends-reject_if (not (seq_discipline mt seq)) sequence_violation sequence_unexpected _ s Q
            (λ _. tt)
            (λ disciplined.
              Ends-or_raise s.keys panics _ s Q (λ _. tt)
                (λ ks has.
                  Ends-or_reject
                    (aead.encrypt (at d ks) (nonce_of s d seq) (aad_of s mt d seq) plain)
                    authentication authentication_failed _ s Q (λ _. tt)
                    (λ sealed e. record {
                      sequence = refl;
                      paired = not-false _ paired;
                      disciplined = not-false _ disciplined;
                      keys = ks;
                      has_keys = has;
                      ct = sealed.0;
                      tag = sealed.1;
                      whole = refl;
                      encrypted = e;
                    })))))

aad-role :
    (c k : SessionContext) (mt : MessageType) (d : Direction) (seq : ℕ)
    → k ≡ record c { role = k.role }
    → build_aad k mt d 0 seq ≡ build_aad c mt d 0 seq
unfolding build_aad
aad-role c k mt d seq h = ap (λ (x : SessionContext). build_aad x mt d 0 seq) h

is_number-expected : (o : Option ℕ) (seq : ℕ) → o ≡ some seq → is_number o seq ≡ true
is_number-expected none seq h = absurd cc
is_number-expected (some n) seq h = ground arith

not_replayed : (o : Option ℕ) (seq : ℕ) → expected_after o ≡ some seq → is_number o seq ≡ false
not_replayed none seq h = refl
not_replayed (some l) seq h = let e = (checked_add-eq-some l 1 h).0 in ground arith

-- Where a tag is cut off.
cut_off :
    (ct tag : Bytes)
    → length tag ≡ tag_len
    → (take (length (ct ++ tag) - tag_len) (ct ++ tag) ≡ ct)
      × (drop (length (ct ++ tag) - tag_len) (ct ++ tag) ≡ tag)
      × (ltb (length (ct ++ tag)) tag_len ≡ false)
cut_off ct tag h =
    let n : length ct ≡ length (ct ++ tag) - tag_len = omega (arith, length-append ct tag) in
    (take-append ct tag _ n, drop-append ct tag _ n, ground (arith, length-append ct tag))

-- The end of `open`: this plaintext, and the number is accepted.
record Opens (r : Session) (plain : Bytes) (seq : ℕ) (x : Result Bytes Stop) (t : Session)
    : Type 0 where
  answer : x ≡ ok plain
  state : t ≡ record r { recv_last = put (opposite (out_of r)) (some seq) r.recv_last }

open_record-Opens :
    (aead : Aead) (s r : Session) (mt : MessageType) (plain ct tag : Bytes) (keys : SessionKeys)
    → IsAead aead
    → Receives s r
    → pairing_valid mt (out_of s) ≡ true
    → seq_discipline mt (next_out s) ≡ true
    → s.keys ≡ some keys
    → aead.encrypt
        (at (out_of s) keys)
        (nonce_of s (out_of s) (next_out s))
        (aad_of s mt (out_of s) (next_out s))
        plain
      ≡ some (ct, tag)
    → Ends (open_record aead mt (next_out s) (ct ++ tag)) r (Opens r plain (next_out s))
unfolding open_record
open_record-Opens aead s r mt plain ct tag keys law to paired disciplined has e =
    let seq = next_out s in
    let Q = Opens r plain seq in
    let d = opposite (out_of r) in
    let last = at d r.recv_last in
    let cut = length (ct ++ tag) - tag_len in
    let (front, back, long) = cut_off ct tag (law.tag_size _ _ _ _ _ _ e) in
    let pair : pairing_valid mt d ≡ true = rw to.way paired in
    let next : expected_after last ≡ some seq = rw to.way to.next in
    Ends-ensure_active _ r Q to.active.0 (
      Ends-reject_if (not (pairing_valid mt d)) misuse wrong_way _ r Q (λ h. absurd cc)
        (λ _.
          Ends-reject_if (not (seq_discipline mt seq)) sequence_violation sequence_unexpected _ r Q
            (λ h. absurd cc)
            (λ _.
              Ends-reject_if (is_number last seq) sequence_violation sequence_replay _ r Q
                (λ h. let no = not_replayed last seq next in absurd cc)
                (λ _.
                  Ends-reject_if (not (is_number (expected_after last) seq)) sequence_violation
                    sequence_unexpected _ r Q
                    (λ h. let yes_ = is_number-expected (expected_after last) seq next in absurd cc)
                    (λ _.
                      Ends-reject_if (ltb (length (ct ++ tag)) tag_len) authentication
                        authentication_failed _ r Q (λ h. absurd cc)
                        (λ _.
                          Ends-or_raise r.keys panics _ r Q (λ h. let k = to.keys in absurd cc)
                            (λ ks hk.
                              let same : aead.decrypt (at d ks) (nonce_of r d seq)
                                    (aad_of r mt d seq) (take cut (ct ++ tag))
                                    (drop cut (ct ++ tag))
                                  ≡ some plain =
                                let dec = law.decrypt-encrypt _ _ _ _ _ _ e in
                                let bound = aad-role s.ctx r.ctx mt (out_of s) seq to.ctx in
                                let way = to.way in
                                let domain = to.domain in let shared = to.keys in cc in
                              Ends-or_reject
                                (aead.decrypt (at d ks) (nonce_of r d seq) (aad_of r mt d seq)
                                  (take cut (ct ++ tag)) (drop cut (ct ++ tag)))
                                authentication authentication_failed _ r Q (λ h. absurd cc)
                                (λ p hp. record { answer = cc; state = refl }))))))))

-- Where the AEAD decrypts what it encrypts: what an active session seals, a receiver with the same
-- keys and context, which expects that number, opens to the same plaintext, and it changes nothing but
-- the last number that it has accepted, which is the number of the record.
pub open_record-seal :
    (aead : Aead) (s r s' : Session) (mt : MessageType) (plain : Bytes) (sent : Record)
    → IsAead aead
    → s.terminated ≡ none
    → Receives s r
    → seal aead mt plain s ≡ (ok sent, s')
    → open_record aead mt sent.sequence sent.sealed r ≡ (
      ok plain,
      record r { recv_last = put (opposite (out_of r)) (some sent.sequence) r.recv_last },
    )
open_record-seal aead s r s' mt plain sent law live to e =
    let done =
      Ends-at (seal aead mt plain) s (OkSealed aead s mt plain) e
        (seal-OkSealed aead s mt plain live) in
    let ends =
      open_record-Opens aead s r mt plain done.ct done.tag done.keys law to done.paired
        done.disciplined done.has_keys done.encrypted in
    rw (done.sequence, done.whole)
      (ap₂ (λ (x : Result Bytes Stop) (t : Session). (x, t)) ends.answer ends.state)
