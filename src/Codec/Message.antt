-- ===== src/Codec/Message.antt =====
-- crates/otp-codec/src/message.rs: the message types, their registry and the wire values.
use jbuu.Base.{
  ℕ, ◌<◌, ◌≡◌, refl, arith, Bool, true, false, ◌&&◌, Option, none, some, ◌==◌, leb, if◌then◌else◌,
  u16_limit, u32_limit, u64_limit, All,
}
use jbuu.Base.Bytes.{Bytes, IsByte, IsArray}
use jbuu.Types.{Direction, client_to_server, server_to_client}

-- `crate::VERSION`
abbrev pub version : ℕ
version = 0x0002

abbrev pub frame_header_len : ℕ
frame_header_len = 8

abbrev pub max_data_field : ℕ
max_data_field = 65552

abbrev pub min_data_field : ℕ
min_data_field = 16

abbrev pub max_frame_payload : ℕ
max_frame_payload = 65568

abbrev pub min_frame_payload : ℕ
min_frame_payload = 32

abbrev pub hello_payload_len : ℕ
hello_payload_len = 44

abbrev pub arbitrate_payload_len : ℕ
arbitrate_payload_len = 25

abbrev pub issue_payload_len : ℕ
issue_payload_len = 40

abbrev pub confirm_payload_len : ℕ
confirm_payload_len = 139

abbrev pub sealed_len : ℕ
sealed_len = 103

abbrev pub confirm_body_len : ℕ
confirm_body_len = 87

abbrev pub confirm_label_len : ℕ
confirm_label_len = 14

pub data MsgType : Type 0 where
  hello_type arbitrate_type issue_type confirm_c2s_type confirm_s2c_type data_type : MsgType

-- `MsgType::wire`
unfoldable pub type_wire : MsgType → ℕ
type_wire hello_type = 0x0001
type_wire arbitrate_type = 0x0002
type_wire issue_type = 0x0003
type_wire confirm_c2s_type = 0x0004
type_wire confirm_s2c_type = 0x0005
type_wire data_type = 0x0006

-- `MsgType::from_wire`
unfoldable pub type_from_wire : ℕ → Option MsgType
type_from_wire v =
    if v == 0x0001
    then some hello_type
    else if v == 0x0002
    then some arbitrate_type
    else if v == 0x0003
    then some issue_type
    else if v == 0x0004
    then some confirm_c2s_type
    else if v == 0x0005
    then some confirm_s2c_type
    else if v == 0x0006
    then some data_type
    else none

-- `MsgType::send_direction`
abbrev pub type_direction : MsgType → Option Direction
type_direction hello_type = some client_to_server
type_direction arbitrate_type = some server_to_client
type_direction issue_type = some client_to_server
type_direction confirm_c2s_type = some client_to_server
type_direction confirm_s2c_type = some server_to_client
type_direction data_type = none

-- `MsgType::payload_len_range`
abbrev pub payload_len_range : MsgType → ℕ × ℕ
payload_len_range hello_type = (hello_payload_len, hello_payload_len)
payload_len_range arbitrate_type = (arbitrate_payload_len, arbitrate_payload_len)
payload_len_range issue_type = (issue_payload_len, issue_payload_len)
payload_len_range confirm_c2s_type = (confirm_payload_len, confirm_payload_len)
payload_len_range confirm_s2c_type = (confirm_payload_len, confirm_payload_len)
payload_len_range data_type = (min_frame_payload, max_frame_payload)

abbrev pub plen_ok : MsgType → ℕ → Bool
plen_ok t plen = leb (payload_len_range t).0 plen && leb plen (payload_len_range t).1

pub data ArbitrateResult : Type 0 where
  agreed_ok server_is_ahead book_exhausted wrong_book client_is_ahead : ArbitrateResult

-- `ArbitrateResult::wire`
unfoldable pub result_wire : ArbitrateResult → ℕ
result_wire agreed_ok = 0x00
result_wire server_is_ahead = 0x01
result_wire book_exhausted = 0x02
result_wire wrong_book = 0x03
result_wire client_is_ahead = 0x04

-- `ArbitrateResult::from_wire`
unfoldable pub result_from_wire : ℕ → Option ArbitrateResult
result_from_wire v =
    if v == 0x00
    then some agreed_ok
    else if v == 0x01
    then some server_is_ahead
    else if v == 0x02
    then some book_exhausted
    else if v == 0x03
    then some wrong_book
    else if v == 0x04
    then some client_is_ahead
    else none

-- `*result == ArbitrateResult::BookMismatch`
abbrev pub is_wrong_book : ArbitrateResult → Bool
is_wrong_book agreed_ok = false
is_wrong_book server_is_ahead = false
is_wrong_book book_exhausted = false
is_wrong_book wrong_book = true
is_wrong_book client_is_ahead = false

-- The fields stand in the order of the source.
pub data Message : Type 0 where
  -- book_id, client_nonce, client_pointer, features
  hello : Bytes → Bytes → ℕ → ℕ → Message
  -- server_nonce, server_pointer, result
  arbitrate : Bytes → ℕ → ArbitrateResult → Message
  -- chosen_pointer, client_nonce, server_nonce
  issue_request : ℕ → Bytes → Bytes → Message
  -- segment_index, session_nonce, epoch, seq, sealed
  confirm_c2s : ℕ → Bytes → ℕ → ℕ → Bytes → Message
  confirm_s2c : ℕ → Bytes → ℕ → ℕ → Bytes → Message
  -- epoch, seq, data
  data_record : ℕ → ℕ → Bytes → Message

-- `Message::msg_type`
abbrev pub msg_type : Message → MsgType
msg_type (hello _ _ _ _) = hello_type
msg_type (arbitrate _ _ _) = arbitrate_type
msg_type (issue_request _ _ _) = issue_type
msg_type (confirm_c2s _ _ _ _ _) = confirm_c2s_type
msg_type (confirm_s2c _ _ _ _ _) = confirm_s2c_type
msg_type (data_record _ _ _) = data_type

-- The ranges that the Rust field types give: arrays of fixed size, u32 and u64.
abbrev pub IsTyped : Message → Type 0
IsTyped (hello book_id client_nonce client_pointer features) =
    IsArray 16 book_id
    × IsArray 16 client_nonce
    × (client_pointer < u64_limit)
    × (features < u32_limit)
IsTyped (arbitrate server_nonce server_pointer result) =
    IsArray 16 server_nonce × (server_pointer < u64_limit)
IsTyped (issue_request chosen client_nonce server_nonce) =
    (chosen < u64_limit) × IsArray 16 client_nonce × IsArray 16 server_nonce
IsTyped (confirm_c2s segment session_nonce epoch seq sealed) =
    (segment < u64_limit)
    × IsArray 16 session_nonce
    × (epoch < u32_limit)
    × (seq < u64_limit)
    × IsArray sealed_len sealed
IsTyped (confirm_s2c segment session_nonce epoch seq sealed) =
    (segment < u64_limit)
    × IsArray 16 session_nonce
    × (epoch < u32_limit)
    × (seq < u64_limit)
    × IsArray sealed_len sealed
IsTyped (data_record epoch seq body) = (epoch < u32_limit) × (seq < u64_limit) × All IsByte body

pub record ConfirmBody : Type 0 where
  pub book_id : Bytes
  pub segment_index : ℕ
  pub client_nonce : Bytes
  pub server_nonce : Bytes
  pub direction : Direction
  pub epoch : ℕ
  pub seq : ℕ
  pub body_type : ℕ
  pub label : Bytes

pub record IsTypedBody (b : ConfirmBody) : Type 0 where
  pub book_id : IsArray 16 b.book_id
  pub segment_index : b.segment_index < u64_limit
  pub client_nonce : IsArray 16 b.client_nonce
  pub server_nonce : IsArray 16 b.server_nonce
  pub epoch : b.epoch < u32_limit
  pub seq : b.seq < u64_limit
  pub body_type : b.body_type < u16_limit
  pub label : IsArray confirm_label_len b.label

-- `body_direction_wire`
unfoldable pub body_direction_wire : Direction → ℕ
body_direction_wire client_to_server = 0x01
body_direction_wire server_to_client = 0x02

-- `body_direction_from_wire`
unfoldable pub body_direction_from_wire : ℕ → Option Direction
body_direction_from_wire v =
    if v == 0x01 then some client_to_server else if v == 0x02 then some server_to_client else none

pub type_from_wire-type_wire : (t : MsgType) → type_from_wire (type_wire t) ≡ some t
unfolding type_from_wire type_wire
type_from_wire-type_wire hello_type = refl
type_from_wire-type_wire arbitrate_type = refl
type_from_wire-type_wire issue_type = refl
type_from_wire-type_wire confirm_c2s_type = refl
type_from_wire-type_wire confirm_s2c_type = refl
type_from_wire-type_wire data_type = refl

pub type_wire_of : (v : ℕ) {t : MsgType} → type_from_wire v ≡ some t → type_wire t ≡ v
unfolding type_from_wire type_wire
type_wire_of v h = ground arith

pub type_wire-lt : (t : MsgType) → type_wire t < u16_limit
unfolding type_wire
type_wire-lt t = ground arith

pub result_from_wire-result_wire : (r : ArbitrateResult) → result_from_wire (result_wire r) ≡ some r
unfolding result_from_wire result_wire
result_from_wire-result_wire r = ground arith

pub result_wire_of : (v : ℕ) {r : ArbitrateResult} → result_from_wire v ≡ some r → result_wire r ≡ v
unfolding result_from_wire result_wire
result_wire_of v h = ground arith

pub result_wire-IsByte : (r : ArbitrateResult) → result_wire r < 256
unfolding result_wire
result_wire-IsByte r = ground arith

pub body_direction_from_wire-body_direction_wire :
    (d : Direction) → body_direction_from_wire (body_direction_wire d) ≡ some d
unfolding body_direction_from_wire body_direction_wire
body_direction_from_wire-body_direction_wire d = ground arith

pub body_direction_wire_of :
    (v : ℕ) {d : Direction} → body_direction_from_wire v ≡ some d → body_direction_wire d ≡ v
unfolding body_direction_from_wire body_direction_wire
body_direction_wire_of v h = ground arith
