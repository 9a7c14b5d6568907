-- ===== src/Session/Steps.antt =====
-- crates/otp-session/src/session.rs: everything that `seal`, `open` and `close` can leave behind.
use jbuu.Base.{
  ℕ, ◌+◌, ◌-◌, ◌≤◌, ◌≡◌, refl, sym, subst, ap, arith, u64_limit, Bool, true, false, not, ltb,
  Option, none, some, length, take, drop, checked_add-eq-some,
}
use jbuu.Base.Result.{Result, ok, err}
use jbuu.Base.State.{Action, ◌>>=◌, ◌>>◌}
use jbuu.Base.Actions.{Post, Ends, Ends-or_raise}
use jbuu.Base.Bytes.{Bytes}
use jbuu.Types.{
  Direction, client_to_server, server_to_client, opposite, send_direction, sequence_next, tag_len,
}
use jbuu.Session.Aad.{MessageType}
use jbuu.Session.State.{
  Aead, SessionError, authentication_failed, sequence_replay, sequence_unexpected, wrong_way,
  Termination, overflowed, authentication, sequence_violation, misuse, closed_normally, Stop, fails,
  panics, Both, at, put, SessionKeys, Session, Record, pairing_valid, seq_discipline, ensure_active,
  terminate, reject_if, or_reject, advance_to, nonce_of, aad_of, is_number, expected_after, seal,
  open_record,
}

module _ {B : Type 0} where
  pub Ends-ensure_active :
      (k : Action Session Stop B) (s : Session) (Q : Post Session Stop B)
      → s.terminated ≡ none
      → Ends k s Q
      → Ends (ensure_active s.terminated >> k) s Q
  Ends-ensure_active k s Q live ends =
      subst (λ (o : Option Termination). Ends (ensure_active o >> k) s Q) (sym live) ends

  pub Ends-reject_if :
      (b : Bool) (reason : Termination) (e : SessionError) (k : Action Session Stop B) (s : Session)
      (Q : Post Session Stop B)
      → (b ≡ true → Q (err (fails e)) (terminate reason s))
      → (b ≡ false → Ends k s Q)
      → Ends (reject_if b reason e >> k) s Q
  Ends-reject_if true reason e k s Q rejects passes = rejects refl
  Ends-reject_if false reason e k s Q rejects passes = passes refl

  pub Ends-or_reject :
      {A : Type 0} (o : Option A) (reason : Termination) (e : SessionError)
      (f : A → Action Session Stop B) (s : Session) (Q : Post Session Stop B)
      → (o ≡ none → Q (err (fails e)) (terminate reason s))
      → ((a : A) → o ≡ some a → Ends (f a) s Q)
      → Ends (or_reject o reason e >>= f) s Q
  Ends-or_reject none reason e f s Q rejects passes = rejects refl
  Ends-or_reject (some a) reason e f s Q rejects passes = passes a refl

pub at-put : {A : Type 0} (d : Direction) (a : A) (b : Both A) → at d (put d a b) ≡ a
at-put client_to_server a b = refl
at-put server_to_client a b = refl

abbrev pub out_of : Session → Direction
out_of s = send_direction s.ctx.role

-- The ends of `seal` on a session that is active and has its keys.
pub data SealOutcome (s : Session) : Result Record Stop → Session → Type 0 where
  sealed_next :
      {r : Record} {s' : Session}
      → r.sequence ≡ at (out_of s) s.send_seq
      → s' ≡ record s { send_seq = put (out_of s) (r.sequence + 1) s.send_seq }
      → SealOutcome s (ok r) s'
  sealed_last :
      {r : Record} {s' : Session}
      → r.sequence ≡ at (out_of s) s.send_seq
      → u64_limit ≤ r.sequence + 1
      → s' ≡ terminate overflowed s
      → SealOutcome s (ok r) s'
  seal_refused :
      {e : SessionError} {reason : Termination} → SealOutcome s (err (fails e)) (terminate reason s)

-- The ends of `open` on a session that is active and has its keys.
pub data OpenOutcome (s : Session) (seq : ℕ) : Result Bytes Stop → Session → Type 0 where
  opened :
      {plain : Bytes}
      → expected_after (at (opposite (out_of s)) s.recv_last) ≡ some seq
      → OpenOutcome s seq
          (ok plain)
          (record s { recv_last = put (opposite (out_of s)) (some seq) s.recv_last })
  open_refused :
      {e : SessionError} {reason : Termination}
      → OpenOutcome s seq (err (fails e)) (terminate reason s)

advance_to-SealOutcome :
    (s : Session) (r : Record) (o : Option ℕ)
    → r.sequence ≡ at (out_of s) s.send_seq
    → sequence_next r.sequence ≡ o
    → SealOutcome s (ok r) (advance_to o (out_of s) s)
advance_to-SealOutcome s r none e h = sealed_last e (ground arith) refl
advance_to-SealOutcome s r (some next) e h = sealed_next e (
    ap (λ (n : ℕ). record s { send_seq = put (out_of s) n s.send_seq })
      (checked_add-eq-some r.sequence 1 h).0)

is_number-eq : (o : Option ℕ) (seq : ℕ) → not (is_number o seq) ≡ false → o ≡ some seq
is_number-eq none seq h = absurd cc
is_number-eq (some n) seq h = ground arith

module _ (aead : Aead) (s : Session) (live : s.terminated ≡ none) (keys : SessionKeys)
    (has : s.keys ≡ some keys) where
  pub seal-SealOutcome :
      (mt : MessageType) (plaintext : Bytes) → Ends (seal aead mt plaintext) s (SealOutcome s)
  unfolding seal
  seal-SealOutcome mt plaintext =
      let Q = SealOutcome s in
      let d = out_of s in
      let seq = at d s.send_seq in
      Ends-ensure_active _ s Q live (
        Ends-reject_if (not (pairing_valid mt d)) misuse wrong_way _ s Q (λ _. seal_refused)
          (λ _.
            Ends-reject_if (not (seq_discipline mt seq)) sequence_violation sequence_unexpected _ s
              Q (λ _. seal_refused)
              (λ _.
                Ends-or_raise s.keys panics _ s Q (λ h. absurd cc)
                  (λ ks _.
                    Ends-or_reject
                      (aead.encrypt (at d ks) (nonce_of s d seq) (aad_of s mt d seq) plaintext)
                      authentication authentication_failed _ s Q (λ _. seal_refused)
                      (λ sealed _. advance_to-SealOutcome s _ (sequence_next seq) refl refl)))))

  pub open_record-OpenOutcome :
      (mt : MessageType) (seq : ℕ) (sealed : Bytes)
      → Ends (open_record aead mt seq sealed) s (OpenOutcome s seq)
  unfolding open_record
  open_record-OpenOutcome mt seq sealed =
      let Q = OpenOutcome s seq in
      let d = opposite (out_of s) in
      let last = at d s.recv_last in
      let cut = length sealed - tag_len in
      Ends-ensure_active _ s Q live (
        Ends-reject_if (not (pairing_valid mt d)) misuse wrong_way _ s Q (λ _. open_refused)
          (λ _.
            Ends-reject_if (not (seq_discipline mt seq)) sequence_violation sequence_unexpected _ s
              Q (λ _. open_refused)
              (λ _.
                Ends-reject_if (is_number last seq) sequence_violation sequence_replay _ s Q
                  (λ _. open_refused)
                  (λ _.
                    Ends-reject_if (not (is_number (expected_after last) seq)) sequence_violation
                      sequence_unexpected _ s Q (λ _. open_refused)
                      (λ next.
                        Ends-reject_if (ltb (length sealed) tag_len) authentication
                          authentication_failed _ s Q (λ _. open_refused)
                          (λ _.
                            Ends-or_raise s.keys panics _ s Q (λ h. absurd cc)
                              (λ ks _.
                                Ends-or_reject
                                  (aead.decrypt (at d ks) (nonce_of s d seq) (aad_of s mt d seq)
                                    (take cut sealed) (drop cut sealed))
                                  authentication authentication_failed _ s Q (λ _. open_refused)
                                  (λ plain _.
                                    opened (is_number-eq (expected_after last) seq next)))))))))

-- The end of a call on a session that is terminated: an error, and nothing changes.
pub data Silent {A : Type 0} (s : Session) : Result A Stop → Session → Type 0 where
  silent : {e : Stop} → Silent s (err e) s

ensure_active-Silent :
    {B : Type 0} (o : Termination) (k : Action Session Stop B) (s : Session)
    → Ends (ensure_active (some o) >> k) s (Silent s)
ensure_active-Silent overflowed k s = silent
ensure_active-Silent authentication k s = silent
ensure_active-Silent sequence_violation k s = silent
ensure_active-Silent misuse k s = silent
ensure_active-Silent closed_normally k s = silent

Ends-ended :
    {B : Type 0} (k : Action Session Stop B) (s : Session) (o : Termination)
    → s.terminated ≡ some o
    → Ends (ensure_active s.terminated >> k) s (Silent s)
Ends-ended k s o over =
    subst (λ (x : Option Termination). Ends (ensure_active x >> k) s (Silent s)) (sym over)
      (ensure_active-Silent o k s)

module _ (aead : Aead) (s : Session) (o : Termination) (over : s.terminated ≡ some o) where
  pub seal-Silent :
      (mt : MessageType) (plaintext : Bytes) → Ends (seal aead mt plaintext) s (Silent s)
  unfolding seal
  seal-Silent mt plaintext = Ends-ended _ s o over

  pub open_record-Silent :
      (mt : MessageType) (seq : ℕ) (sealed : Bytes)
      → Ends (open_record aead mt seq sealed) s (Silent s)
  unfolding open_record
  open_record-Silent mt seq sealed = Ends-ended _ s o over
