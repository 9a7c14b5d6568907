-- ===== src/Handshake/Client/Runs.antt =====
-- crates/otp-handshake/src/lib.rs: sequences of messages to one `ClientHandshake`.
use jbuu.Base.{ℕ, ◌+◌, ◌≤◌, ◌≡◌, refl, arith, List, [], ◌∷◌, All, ◌⊎◌, inl, inr}
use jbuu.Codec.Message.{Message, IsTyped}
use jbuu.Codec.ErrorCode.{bad_order}
use jbuu.Session.State.{Aead, IsAead}
use jbuu.Handshake.Error.{
  Step, send, established, await_peer, failed, panicked, violation, SegmentIssuer,
}
use jbuu.Handshake.Client.{is_established, is_failed, Config, Client, burn, fail_phase, handle}
use jbuu.Session.State.{Session}
use jbuu.Handshake.Client.Answers.{IsWell, Answer, sends, establishes, fails_with}
use jbuu.Handshake.Client.Invariant.{handle-IsWell}

abbrev sessions_of : Step → ℕ
sessions_of (send _) = 0
sessions_of (established _ _ _) = 1
sessions_of await_peer = 0
sessions_of (failed _) = 0
sessions_of panicked = 0

module _ (aead : Aead) {I : Type 0} (issuer : SegmentIssuer I) where
  -- The number of the sessions that are handed out, message after message.
  unfoldable pub sessions : List Message → Client × I → ℕ
  sessions [] s = 0
  sessions (msg ∷ msgs) s =
      let (step, s') = handle aead issuer msg s in sessions_of step + sessions msgs s'

  -- Behind the end every message is out of order.
  handle-failed :
      (msg : Message) (c : Client) (i : I)
      → (c.phase ≡ is_failed) ⊎ (c.phase ≡ is_established)
      → handle aead issuer msg (c, i) ≡ (failed (violation bad_order), (fail_phase (burn c), i))
  unfolding handle
  handle-failed msg c i (inl e) = rw e refl
  handle-failed msg c i (inr e) = rw e refl

  sessions-ended :
      (msgs : List Message) (c : Client) (i : I)
      → (c.phase ≡ is_failed) ⊎ (c.phase ≡ is_established)
      → sessions msgs (c, i) ≡ 0
  unfolding sessions
  sessions-ended [] c i h = refl
  sessions-ended (msg ∷ msgs) c i h =
      let rest = sessions-ended msgs (fail_phase (burn c)) i (inl refl) in
      rw (handle-failed msg c i h) (omega arith)

  at_most_one :
      (Hands : Session → Type 0) (cfg : Config) (step : Step) (d : Client) (n : ℕ)
      → Answer aead Hands cfg step d
      → n ≤ 1
      → (d.phase ≡ is_established → n ≡ 0)
      → sessions_of step + n ≤ 1
  at_most_one Hands cfg _ d n (sends _ _ _ _ _) h k = omega arith
  at_most_one Hands cfg _ d n (establishes _ p _ _ _ _ _ _) h k = let e = k p in omega arith
  at_most_one Hands cfg _ d n (fails_with _ _ _) h k = omega arith

  -- A client that is well, given any sequence of typed messages, with any issuer and an AEAD that keeps
  -- sizes, hands out one session at most.
  pub sessions-le :
      (msgs : List Message) (c : Client) (i : I)
      → IsAead aead
      → All IsTyped msgs
      → IsWell c
      → sessions msgs (c, i) ≤ 1
  unfolding sessions
  sessions-le [] c i law typed well = omega arith
  sessions-le (msg ∷ msgs) c i law (typed, rest) well =
      let (still, answer) = handle-IsWell aead issuer msg c i law typed well in
      let s = (handle aead issuer msg (c, i)).1 in
      at_most_one _ c.cfg _ s.0 (sessions msgs s) answer (sessions-le msgs s.0 s.1 law rest still)
        (λ p. sessions-ended msgs s.0 s.1 (inr p))
