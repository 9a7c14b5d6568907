-- ===== src/Anchor/Decide.antt =====
-- crates/otp-anchor-spec/src/lib.rs, `decide`: which of two anchor copies a start adopts.
use Prim.Native.Nat.{Ordering}
use jbuu.Base.{
  ◌≤◌, ◌≡◌, refl, arith, not, Bool-cases, ◌∙◌, sym, subst, ◌⊎◌, inl, inr, if◌then◌else◌, leb,
  Option, none, some,
}
use jbuu.Base.Result.{Result, ok, err}
use jbuu.Base.Bytes.{Bytes, bytes_eq, bytes_eq_iff}
use jbuu.Anchor.{AnchorRecord, state_cmp, record_eq, record_eq→eq, record_eq_refl}

pub data AnchorCopy : Type 0 where
  copy_a copy_b : AnchorCopy

pub data ReadFailure : Type 0 where
  corrupt unreadable : ReadFailure

-- The `reason` strings.
pub data Reason : Type 0 where
  anchor_a_invalid anchor_b_invalid both_anchors_invalid book_id_mismatch : Reason
  same_order_different_bytes order_contradiction : Reason

pub data RecoveryDecision : Type 0 where
  consistent : AnchorRecord → RecoveryDecision
  -- adopted, stale
  adopt_higher : AnchorRecord → AnchorCopy → RecoveryDecision
  quarantine_corrupt : AnchorCopy → Reason → RecoveryDecision
  cannot_prove_safe : Reason → RecoveryDecision
  both_unreadable : RecoveryDecision

-- The case of two readable copies of one book, by their comparison.
unfoldable pub decide_order : Ordering → AnchorRecord → AnchorRecord → RecoveryDecision
decide_order Ordering.eq a b =
    if record_eq a b then consistent a else cannot_prove_safe same_order_different_bytes
decide_order Ordering.gt a b =
    if leb b.next a.next then adopt_higher a copy_b else cannot_prove_safe order_contradiction
decide_order Ordering.lt a b =
    if leb a.next b.next then adopt_higher b copy_a else cannot_prove_safe order_contradiction

unfoldable pub decide :
    Result AnchorRecord ReadFailure → Result AnchorRecord ReadFailure → RecoveryDecision
decide (err unreadable) (err unreadable) = both_unreadable
decide (err corrupt) (err _) = cannot_prove_safe both_anchors_invalid
decide (err unreadable) (err corrupt) = cannot_prove_safe both_anchors_invalid
decide (err _) (ok _) = quarantine_corrupt copy_a anchor_a_invalid
decide (ok _) (err _) = quarantine_corrupt copy_b anchor_b_invalid
decide (ok a) (ok b) =
    if not (bytes_eq a.book_id b.book_id)
    then cannot_prove_safe book_id_mismatch
    else decide_order (state_cmp a b) a b

-- The record that a decision lets the program continue from.
abbrev pub adopted : RecoveryDecision → Option AnchorRecord
adopted (consistent r) = some r
adopted (adopt_higher r _) = some r
adopted (quarantine_corrupt _ _) = none
adopted (cannot_prove_safe _) = none
adopted both_unreadable = none

-- One copy is at least as advanced as the other, and of the same book.
pub record Dominates (r s : AnchorRecord) : Type 0 where
  pub book : r.book_id ≡ s.book_id
  pub next : s.next ≤ r.next
  pub generation : s.generation ≤ r.generation

-- Where the decision on two readable copies adopts a record, that record is one of the two, and it is
-- behind neither: both are of its book, and neither has a higher pointer or a higher generation.
pub decide_never_lowers :
    (a b r : AnchorRecord)
    → adopted (decide (ok a) (ok b)) ≡ some r
    → ((r ≡ a) ⊎ (r ≡ b)) × Dominates r a × Dominates r b
unfolding decide decide_order state_cmp
decide_never_lowers a b r h = ground (arith, bytes_eq_iff a.book_id b.book_id, record_eq→eq a b)

-- The same decision with the two copies exchanged.
abbrev pub exchange_copy : AnchorCopy → AnchorCopy
exchange_copy copy_a = copy_b
exchange_copy copy_b = copy_a

abbrev pub exchange_reason : Reason → Reason
exchange_reason anchor_a_invalid = anchor_b_invalid
exchange_reason anchor_b_invalid = anchor_a_invalid
exchange_reason both_anchors_invalid = both_anchors_invalid
exchange_reason book_id_mismatch = book_id_mismatch
exchange_reason same_order_different_bytes = same_order_different_bytes
exchange_reason order_contradiction = order_contradiction

abbrev pub exchange : RecoveryDecision → RecoveryDecision
exchange (consistent r) = consistent r
exchange (adopt_higher r c) = adopt_higher r (exchange_copy c)
exchange (quarantine_corrupt c e) = quarantine_corrupt (exchange_copy c) (exchange_reason e)
exchange (cannot_prove_safe e) = cannot_prove_safe (exchange_reason e)
exchange both_unreadable = both_unreadable

record_eq_comm : (a b : AnchorRecord) → record_eq a b ≡ record_eq b a
record_eq_comm a b = elim (Bool-cases (record_eq a b)) [
  | inl same ↦
      subst (λ (x : AnchorRecord). record_eq a x ≡ record_eq x a) (record_eq→eq a b same) refl
  | inr differs ↦ elim (Bool-cases (record_eq b a)) [
    | inl same ↦
        subst (λ (x : AnchorRecord). record_eq x b ≡ record_eq b x) (record_eq→eq b a same) refl
    | inr also ↦ differs ∙ sym also
  ]
]

bytes_eq_comm : (xs ys : Bytes) → bytes_eq xs ys ≡ bytes_eq ys xs
bytes_eq_comm xs ys = ground (arith, bytes_eq_iff xs ys, bytes_eq_iff ys xs)

decide_both_comm : (a b : AnchorRecord) → decide (ok b) (ok a) ≡ exchange (decide (ok a) (ok b))
unfolding decide decide_order state_cmp
decide_both_comm a b =
    ground (arith, bytes_eq_comm a.book_id b.book_id, record_eq_comm a b, record_eq→eq a b)

-- Which copy is called A does not matter: exchanging the copies exchanges the decision.
decide_comm : (x y : Result AnchorRecord ReadFailure) → decide y x ≡ exchange (decide x y)
unfolding decide
decide_comm (err corrupt) (err corrupt) = refl
decide_comm (err corrupt) (err unreadable) = refl
decide_comm (err unreadable) (err corrupt) = refl
decide_comm (err unreadable) (err unreadable) = refl
decide_comm (err corrupt) (ok b) = refl
decide_comm (err unreadable) (ok b) = refl
decide_comm (ok a) (err corrupt) = refl
decide_comm (ok a) (err unreadable) = refl
decide_comm (ok a) (ok b) = decide_both_comm a b

-- Two equal copies are consistent.
pub decide_same : (a : AnchorRecord) → decide (ok a) (ok a) ≡ consistent a
unfolding decide decide_order state_cmp
decide_same a = ground (arith, (bytes_eq_iff a.book_id a.book_id).1 refl, record_eq_refl a)
