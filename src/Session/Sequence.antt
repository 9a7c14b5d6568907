-- ===== src/Session/Sequence.antt =====
-- crates/otp-session/src/session.rs: the sequence numbers over any run of a session. The number of a
-- record stands in its nonce, so that these numbers decide whether a nonce is used twice.
use jbuu.Base.{
  ℕ, ◌+◌, ◌≡◌, refl, sym, subst, ap, ◌∙◌, Option, none, some, List, [], ◌∷◌, checked_add-eq-some,
}
use jbuu.Base.Result.{Result, ok, err}
use jbuu.Base.Bytes.{Bytes}
use jbuu.Types.{opposite}
use jbuu.Session.Aad.{MessageType}
use jbuu.Session.State.{
  Aead, Termination, overflowed, closed_normally, Stop, at, SessionKeys, Session, Record,
  expected_after, close_if, close, seal, open_record,
}
use jbuu.Session.Steps.{
  silent, Silent, seal-Silent, open_record-Silent, out_of, at-put, SealOutcome, sealed_next,
  sealed_last, seal_refused, OpenOutcome, opened, open_refused, seal-SealOutcome,
  open_record-OpenOutcome,
}

-- What the owner of a session can do with it.
pub data Op : Type 0 where
  seal_op : MessageType → Bytes → Op
  open_op : MessageType → ℕ → Bytes → Op
  close_op : Op

abbrev sent_number : Result Record Stop → Option ℕ
sent_number (ok r) = some r.sequence
sent_number (err _) = none

abbrev accepted_number : ℕ → Result Bytes Stop → Option ℕ
accepted_number seq (ok _) = some seq
accepted_number seq (err _) = none

abbrev put_number : Option ℕ → List ℕ → List ℕ
put_number none ns = ns
put_number (some n) ns = n ∷ ns

module _ (aead : Aead) where
  -- The number that is sent, the number that is accepted, and the session afterwards.
  unfoldable pub step : Op → Session → Option ℕ × Option ℕ × Session
  step (seal_op mt plaintext) s = let (r, t) = seal aead mt plaintext s in (sent_number r, none, t)
  step (open_op mt seq sealed) s =
      let (r, t) = open_record aead mt seq sealed s in (none, accepted_number seq r, t)
  step close_op s = (none, none, close s)

  -- The numbers that a run sends and those that it accepts.
  unfoldable pub run : List Op → Session → List ℕ × List ℕ
  run [] s = ([], [])
  run (x ∷ xs) s =
      let (sent, accepted, t) = step x s in
      let (p, q) = run xs t in (put_number sent p, put_number accepted q)

-- Each number is the one behind the number before it.
abbrev pub Consecutive : ℕ → List ℕ → Type 0
Consecutive n [] = Unit {0}
Consecutive n (x ∷ xs) = (x ≡ n) × Consecutive (n + 1) xs

abbrev pub behind : Option ℕ → ℕ
behind none = 0
behind (some l) = l + 1

-- The numbers that a session sends and accepts next.
abbrev pub next_out : Session → ℕ
next_out s = at (out_of s) s.send_seq

abbrev pub next_in : Session → ℕ
next_in s = behind (at (opposite (out_of s)) s.recv_last)

abbrev Ended : Session → Type 0
Ended s = (t : Termination) × (s.terminated ≡ some t)

-- Not terminated, and the keys are there.
abbrev pub IsActive : Session → Type 0
IsActive s = (s.terminated ≡ none) × ((ks : SessionKeys) × (s.keys ≡ some ks))

data Moved (s : Session) : Option ℕ → Option ℕ → Session → Type 0 where
  sent_one :
      {x : ℕ} {t : Session}
      → x ≡ next_out s
      → next_out t ≡ x + 1
      → next_in t ≡ next_in s
      → IsActive t
      → Moved s (some x) none t
  sent_last : {x : ℕ} {t : Session} → x ≡ next_out s → Ended t → Moved s (some x) none t
  accepted_one :
      {y : ℕ} {t : Session}
      → y ≡ next_in s
      → next_in t ≡ y + 1
      → next_out t ≡ next_out s
      → IsActive t
      → Moved s none (some y) t
  ended : {t : Session} → Ended t → Moved s none none t

SealOutcome-Moved :
    (s : Session) (r : Result Record Stop) (t : Session)
    → IsActive s
    → SealOutcome s r t
    → Moved s (sent_number r) none t
SealOutcome-Moved s (ok r) t (live, keys) (sealed_next e same) =
    sent_one e
      (ap (λ (u : Session). next_out u) same ∙ at-put (out_of s) (r.sequence + 1) s.send_seq)
      (ap (λ (u : Session). next_in u) same)
      (
        ap (λ (u : Session). u.terminated) same ∙ live,
        (keys.0, ap (λ (u : Session). u.keys) same ∙ keys.1),
      )
SealOutcome-Moved s (ok r) t active (sealed_last e _ same) =
    sent_last e (overflowed, ap (λ (u : Session). u.terminated) same)
SealOutcome-Moved s (err _) _ active (seal_refused {reason = reason}) = ended (reason, refl)

expected_after-behind :
    (last : Option ℕ) (seq : ℕ) → expected_after last ≡ some seq → seq ≡ behind last
expected_after-behind none seq h = cc
expected_after-behind (some l) seq h = (checked_add-eq-some l 1 h).0

OpenOutcome-Moved :
    (s : Session) (seq : ℕ) (r : Result Bytes Stop) (t : Session)
    → IsActive s
    → OpenOutcome s seq r t
    → Moved s none (accepted_number seq r) t
OpenOutcome-Moved s seq (ok _) _ active (opened e) =
    accepted_one (expected_after-behind _ seq e)
      (ap behind (at-put (opposite (out_of s)) (some seq) s.recv_last)) refl active
OpenOutcome-Moved s seq (err _) _ active (open_refused {reason = reason}) = ended (reason, refl)

abbrev Step : Type 0
Step = Option ℕ × Option ℕ × Session

Silent-seal :
    (s : Session) (r : Result Record Stop) (t : Session)
    → Silent s r t
    → ◌≡◌ {A = Step} (sent_number r, none, t) (none, none, s)
Silent-seal s _ _ silent = refl

Silent-open :
    (s : Session) (n : ℕ) (r : Result Bytes Stop) (t : Session)
    → Silent s r t
    → ◌≡◌ {A = Step} (none, accepted_number n r, t) (none, none, s)
Silent-open s n _ _ silent = refl

module _ (aead : Aead) where
  -- Nothing is sent or accepted after the end, and the session is the same.
  step-Ended : (x : Op) (s : Session) → Ended s → ◌≡◌ {A = Step} (step aead x s) (none, none, s)
  unfolding step
  step-Ended (seal_op mt plaintext) s (o, over) =
      Silent-seal s _ _ (seal-Silent aead s o over mt plaintext)
  step-Ended (open_op mt seq sealed) s (o, over) =
      Silent-open s seq _ _ (open_record-Silent aead s o over mt seq sealed)
  step-Ended close_op s (o, over) =
      ap {B = Step} (λ (x : Option Termination). (none, none, close_if x s)) over

  step-Moved :
      (x : Op) (s : Session)
      → IsActive s
      → (let (sent, accepted, t) = step aead x s in Moved s sent accepted t)
  unfolding step
  step-Moved (seal_op mt plaintext) s active =
      SealOutcome-Moved s _ _ active
        (seal-SealOutcome aead s active.0 active.1.0 active.1.1 mt plaintext)
  step-Moved (open_op mt seq sealed) s active =
      OpenOutcome-Moved s seq _ _ active
        (open_record-OpenOutcome aead s active.0 active.1.0 active.1.1 mt seq sealed)
  step-Moved close_op s active =
      ended (closed_normally, ap (λ (x : Option Termination). (close_if x s).terminated) active.0)

  -- The numbers of a run that has done one step.
  abbrev behind_step : List Op → Step → List ℕ × List ℕ
  behind_step xs p = (put_number p.0 (run aead xs p.2).0, put_number p.1 (run aead xs p.2).1)

  abbrev AreConsecutive : ℕ → ℕ → List ℕ × List ℕ → Type 0
  AreConsecutive m n p = Consecutive m p.0 × Consecutive n p.1

  run-Ended :
      (xs : List Op) (s : Session) → Ended s → (m n : ℕ) → AreConsecutive m n (run aead xs s)
  unfolding run
  run-Ended [] s over m n = (tt, tt)
  run-Ended (x ∷ xs) s over m n =
      subst (λ (p : Step). AreConsecutive m n (behind_step xs p)) (sym (step-Ended x s over))
        (run-Ended xs s over m n)

  -- From an active session, a run sends the numbers from the next one on, without a gap and without a
  -- repetition, and accepts the numbers from the next expected one on in the same way, whatever it is
  -- given to open and wherever it ends.
  pub run-Consecutive :
      (xs : List Op) (s : Session)
      → IsActive s
      → Consecutive (next_out s) (run aead xs s).0 × Consecutive (next_in s) (run aead xs s).1
  unfolding run
  run-Consecutive [] s active = (tt, tt)
  run-Consecutive (x ∷ xs) s active =
      after _ _ _ (step-Moved x s active) (run-Consecutive xs (step aead x s).2)
    where
      after :
          (a b : Option ℕ) (t : Session)
          → Moved s a b t
          → (IsActive t → AreConsecutive (next_out t) (next_in t) (run aead xs t))
          → AreConsecutive (next_out s) (next_in s) (behind_step xs (a, b, t))
      after _ _ t (sent_one {x = y} e out in_ live) rest =
          let (p, q) = rest live in
          (
            (
              e,
              subst (λ (n : ℕ). Consecutive n (run aead xs t).0) (out ∙ ap (λ (n : ℕ). n + 1) e) p,
            ),
            subst (λ (n : ℕ). Consecutive n (run aead xs t).1) in_ q,
          )
      after _ _ t (sent_last {x = y} e over) rest =
          let (p, q) = run-Ended xs t over (next_out s + 1) (next_in s) in ((e, p), q)
      after _ _ t (accepted_one {y = y} e in_ out live) rest =
          let (p, q) = rest live in
          (
            subst (λ (n : ℕ). Consecutive n (run aead xs t).0) out p,
            (
              e,
              subst (λ (n : ℕ). Consecutive n (run aead xs t).1) (in_ ∙ ap (λ (n : ℕ). n + 1) e) q,
            ),
          )
      after _ _ t (ended over) rest = run-Ended xs t over (next_out s) (next_in s)
