-- ===== src/Session/Progress.antt =====
-- crates/otp-session/src/session.rs: where `seal` succeeds, and what it makes.
use jbuu.Base.{
  ℕ, ◌+◌, ◌<◌, ◌≡◌, refl, arith, u32_limit, u64_limit, true, not, ◌++◌, length, length-append,
  checked_add-fits,
}
use jbuu.Base.Result.{Result, ok}
use jbuu.Base.Actions.{Ends, Ends-or_raise}
use jbuu.Base.Bytes.{Bytes}
use jbuu.Types.{tag_len, sequence_next}
use jbuu.Session.Aad.{MessageType}
use jbuu.Session.State.{
  Aead, IsAead, IsTotal, authentication_failed, sequence_unexpected, wrong_way, authentication,
  sequence_violation, misuse, Stop, panics, at, put, Session, Record, pairing_valid, seq_discipline,
  nonce_of, aad_of, advance_to, seal,
}
use jbuu.Session.Steps.{Ends-ensure_active, Ends-reject_if, Ends-or_reject, out_of}
use jbuu.Session.Sequence.{next_out, IsActive}

-- The end of a `seal` that succeeds and is not the last one.
pub record Seals (s : Session) (plain : Bytes) (x : Result Record Stop) (t : Session) : Type 0 where
  pub record_of : Record
  pub answer : x ≡ ok record_of
  pub state : t ≡ record s { send_seq = put (out_of s) (next_out s + 1) s.send_seq }
  pub number : record_of.sequence ≡ next_out s
  pub size : length record_of.sealed ≡ length plain + tag_len

advance_to-next :
    (s : Session) (seq : ℕ)
    → seq + 1 < u64_limit
    → advance_to (sequence_next seq) (out_of s) s
      ≡ record s { send_seq = put (out_of s) (seq + 1) s.send_seq }
advance_to-next s seq h = rw (checked_add-fits seq 1 h)

pub seal-Seals :
    (aead : Aead) (s : Session) (mt : MessageType) (plain : Bytes)
    → IsAead aead
    → IsTotal aead
    → IsActive s
    → pairing_valid mt (out_of s) ≡ true
    → seq_discipline mt (next_out s) ≡ true
    → next_out s + 1 < u64_limit
    → length plain < u32_limit
    → Ends (seal aead mt plain) s (Seals s plain)
unfolding seal
seal-Seals aead s mt plain law total (live, (keys, has)) paired disciplined more short =
    let Q = Seals s plain in
    let d = out_of s in
    let seq = next_out s in
    Ends-ensure_active _ s Q live (
      Ends-reject_if (not (pairing_valid mt d)) misuse wrong_way _ s Q (λ h. absurd cc)
        (λ _.
          Ends-reject_if (not (seq_discipline mt seq)) sequence_violation sequence_unexpected _ s Q
            (λ h. absurd cc)
            (λ _.
              Ends-or_raise s.keys panics _ s Q (λ h. absurd cc)
                (λ ks _.
                  Ends-or_reject
                    (aead.encrypt (at d ks) (nonce_of s d seq) (aad_of s mt d seq) plain)
                    authentication authentication_failed _ s Q
                    (λ h.
                      let done =
                        total.encrypts (at d ks) (nonce_of s d seq) (aad_of s mt d seq) plain
                          short in
                      let e = done.1 in absurd cc)
                    (λ sealed e. record {
                      record_of = record { sequence = seq; sealed = sealed.0 ++ sealed.1 };
                      answer = refl;
                      state = advance_to-next s seq more;
                      number = refl;
                      size = omega (
                        arith,
                        length-append sealed.0 sealed.1,
                        law.text_size _ _ _ _ _ _ e,
                        law.tag_size _ _ _ _ _ _ e,
                      );
                    })))))
