-- ===== src/Session/Aad.antt =====
-- crates/otp-session/src/aad.rs and `SessionContext` of session.rs: the 73 bytes that bind a record to
-- its session.
use Prim.Native.Nat.{bit_xor}
use jbuu.Base.{
  ℕ, ◌^◌, ◌<◌, ◌≡◌, refl, sym, ap, ◌∙◌, arith, Bool, true, false, Option, none, some, [], ◌∷◌, ◌++◌,
  length, take, drop, take-append, drop-append, u32_limit, u64_limit,
}
use jbuu.Base.Bytes.{Bytes, IsArray, to_be, from_be, from_be-to_be, length-to_be}
use jbuu.Types.{Direction, client_to_server, server_to_client, Role}
use jbuu.Session.Nonce.{direction_wire, direction_wire-injective, first_byte, from_session_nonce}

pub data MessageType : Type 0 where
  client_confirm server_confirm data_message : MessageType

abbrev pub wire_code : MessageType → ℕ
wire_code client_confirm = 0x0004
wire_code server_confirm = 0x0005
wire_code data_message = 0x0006

abbrev pub confirm_direction : MessageType → Option Direction
confirm_direction client_confirm = some client_to_server
confirm_direction server_confirm = some server_to_client
confirm_direction data_message = none

abbrev pub is_confirm : MessageType → Bool
is_confirm client_confirm = true
is_confirm server_confirm = true
is_confirm data_message = false

pub record SessionContext : Type 0 where
  pub role : Role
  pub book_id : Bytes
  pub segment : ℕ
  pub client_nonce : Bytes
  pub server_nonce : Bytes

-- The ranges of the Rust types.
pub record IsTypedContext (c : SessionContext) : Type 0 where
  pub book_id : IsArray 16 c.book_id
  pub segment : c.segment < u64_limit
  pub client_nonce : IsArray 16 c.client_nonce
  pub server_nonce : IsArray 16 c.server_nonce

-- `SessionContext::session_nonce`
unfoldable pub session_nonce : Bytes → Bytes → Bytes
session_nonce (c ∷ cs) (s ∷ ss) = bit_xor c s ∷ session_nonce cs ss
session_nonce _ _ = []

-- `SessionContext::nonce_domain`
unfoldable pub nonce_domain : SessionContext → Bytes
nonce_domain c = from_session_nonce (session_nonce c.client_nonce c.server_nonce)

abbrev pub aad_version : ℕ
aad_version = 0x0002

-- `SessionContext::build_aad`
unfoldable pub build_aad : SessionContext → MessageType → Direction → ℕ → ℕ → Bytes
build_aad c mt direction epoch seq =
    to_be 2 aad_version
    ++ (to_be 2 (wire_code mt)
        ++ (direction_wire direction
            ∷ (c.book_id
                ++ (to_be 8 c.segment
                    ++ (c.client_nonce ++ (c.server_nonce ++ (to_be 4 epoch ++ to_be 8 seq)))))))

-- Two parts of the same length split in the same way.
split :
    (n : ℕ) (a b c d : Bytes) → length a ≡ n → length c ≡ n → a ++ b ≡ c ++ d → (a ≡ c) × (b ≡ d)
split n a b c d ha hc h = (
  sym (take-append a b n ha) ∙ ap (take n) h ∙ take-append c d n hc,
  sym (drop-append a b n ha) ∙ ap (drop n) h ∙ drop-append c d n hc,
)

split_int :
    (w v u : ℕ) (b d : Bytes)
    → v < 256 ^ w
    → u < 256 ^ w
    → to_be w v ++ b ≡ to_be w u ++ d
    → (v ≡ u) × (b ≡ d)
split_int w v u b d hv hu h =
    let (e, rest) = split w (to_be w v) b (to_be w u) d (length-to_be w v) (length-to_be w u) h in
    (sym (from_be-to_be w v hv) ∙ ap from_be e ∙ from_be-to_be w u hu, rest)

wire_code-injective : (m n : MessageType) → wire_code m ≡ wire_code n → m ≡ n
wire_code-injective client_confirm client_confirm h = refl
wire_code-injective server_confirm server_confirm h = refl
wire_code-injective data_message data_message h = refl
wire_code-injective client_confirm server_confirm h = absurd (omega arith)
wire_code-injective client_confirm data_message h = absurd (omega arith)
wire_code-injective server_confirm client_confirm h = absurd (omega arith)
wire_code-injective server_confirm data_message h = absurd (omega arith)
wire_code-injective data_message client_confirm h = absurd (omega arith)
wire_code-injective data_message server_confirm h = absurd (omega arith)

wire_code-lt : (m : MessageType) → wire_code m < 65536
wire_code-lt client_confirm = ground arith
wire_code-lt server_confirm = ground arith
wire_code-lt data_message = ground arith

context_eq :
    (r : Role) {a b : Bytes} {s t : ℕ} {c d e f : Bytes}
    → a ≡ b
    → s ≡ t
    → c ≡ d
    → e ≡ f
    → ◌≡◌ {A = SessionContext}
        (record { role = r; book_id = a; segment = s; client_nonce = c; server_nonce = e })
        (record { role = r; book_id = b; segment = t; client_nonce = d; server_nonce = f })
context_eq r p q u v = cc

-- Equal associated data come from the same message type, direction, epoch and sequence number and
-- from contexts that differ at most in the role, where all values are in the ranges of their types.
pub build_aad-injective :
    (c k : SessionContext) (m n : MessageType) (d e : Direction) (p q s t : ℕ)
    → IsTypedContext c
    → IsTypedContext k
    → (p < u32_limit) × (q < u32_limit)
    → (s < u64_limit) × (t < u64_limit)
    → build_aad c m d p s ≡ build_aad k n e q t
    → (m ≡ n) × (d ≡ e) × (p ≡ q) × (s ≡ t) × (c ≡ record k { role = c.role })
unfolding build_aad
build_aad-injective c k m n d e p q s t hc hk (hp, hq) (hs, ht) h =
    let (_, h1) = split_int 2 aad_version aad_version _ _ (ground arith) (ground arith) h in
    let (mt, h2) =
      split_int 2 (wire_code m) (wire_code n) _ _ (wire_code-lt m) (wire_code-lt n) h1 in
    let (book, h3) =
      split 16 c.book_id _ k.book_id _ hc.book_id.size hk.book_id.size (ap (drop 1) h2) in
    let (seg, h4) = split_int 8 c.segment k.segment _ _ hc.segment hk.segment h3 in
    let (cn, h5) =
      split 16 c.client_nonce _ k.client_nonce _ hc.client_nonce.size hk.client_nonce.size h4 in
    let (sn, h6) =
      split 16 c.server_nonce _ k.server_nonce _ hc.server_nonce.size hk.server_nonce.size h5 in
    let (ep, h7) = split_int 4 p q _ _ hp hq h6 in
    (
      wire_code-injective m n mt,
      direction_wire-injective d e (ap first_byte h2),
      ep,
      sym (from_be-to_be 8 s hs) ∙ ap from_be h7 ∙ from_be-to_be 8 t ht,
      context_eq c.role book seg cn sn,
    )
