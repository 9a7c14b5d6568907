-- ===== src/Session/Nonce.antt =====
-- crates/otp-session/src/nonce.rs: the 12 bytes of a record nonce.
use jbuu.Base.{
  ℕ, ◌<◌, ◌==◌, if◌then◌else◌, ◌≡◌, refl, sym, ap, ◌∙◌, arith, Option, none, some, [], ◌∷◌, ◌++◌,
  length, take, drop, take-append, drop-append, u64_limit,
}
use jbuu.Base.Bytes.{Bytes, to_be, from_be, from_be-to_be}
use jbuu.Types.{Direction, client_to_server, server_to_client}

abbrev pub session_domain_len : ℕ
session_domain_len = 3

abbrev pub record_nonce_len : ℕ
record_nonce_len = 12

abbrev pub direction_wire : Direction → ℕ
direction_wire client_to_server = 0x01
direction_wire server_to_client = 0x02

unfoldable pub direction_from_wire : ℕ → Option Direction
direction_from_wire b =
    if b == 0x01 then some client_to_server else if b == 0x02 then some server_to_client else none

-- `SessionNonceDomain::from_session_nonce`
abbrev pub from_session_nonce : Bytes → Bytes
from_session_nonce session_nonce = take session_domain_len session_nonce

unfoldable pub record_nonce : Bytes → Direction → ℕ → Bytes
record_nonce domain direction seq = domain ++ (direction_wire direction ∷ to_be 8 seq)

abbrev pub first_byte : Bytes → ℕ
first_byte [] = 0
first_byte (b ∷ bs) = b

pub direction_wire-injective : (d e : Direction) → direction_wire d ≡ direction_wire e → d ≡ e
direction_wire-injective client_to_server client_to_server h = refl
direction_wire-injective client_to_server server_to_client h = absurd (omega arith)
direction_wire-injective server_to_client client_to_server h = absurd (omega arith)
direction_wire-injective server_to_client server_to_client h = refl

-- Two nonces of domains of 3 bytes are equal only where the domain, the direction and the sequence
-- number, a u64, are.
pub record_nonce-injective :
    (a b : Bytes) (d e : Direction) (s t : ℕ)
    → length a ≡ session_domain_len
    → length b ≡ session_domain_len
    → s < u64_limit
    → t < u64_limit
    → record_nonce a d s ≡ record_nonce b e t
    → (a ≡ b) × (d ≡ e) × (s ≡ t)
unfolding record_nonce
record_nonce-injective a b d e s t la lb ls lt h =
    let rest : direction_wire d ∷ to_be 8 s ≡ direction_wire e ∷ to_be 8 t =
      sym (drop-append a _ 3 la) ∙ ap (drop 3) h ∙ drop-append b _ 3 lb in
    (
      sym (take-append a _ 3 la) ∙ ap (take 3) h ∙ take-append b _ 3 lb,
      direction_wire-injective d e (ap first_byte rest),
      sym (from_be-to_be 8 s ls) ∙ ap from_be (ap (drop 1) rest) ∙ from_be-to_be 8 t lt,
    )
