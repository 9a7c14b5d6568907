-- ===== src/Types.antt =====
-- crates/otp-types/src/lib.rs: the shared newtypes. An index, a generation, a sequence number and
-- an epoch are their numbers (u64, u64, u64, u32); identifiers and nonces are byte strings.
use jbuu.Base.{ℕ, Option, Bool, true, false, checked_add}

abbrev pub segment_len : ℕ
segment_len = 64

abbrev pub direction_key_len : ℕ
direction_key_len = 32

abbrev pub tag_len : ℕ
tag_len = 16

-- The highest u64.
abbrev pub u64_max : ℕ
u64_max = 0xffff_ffff_ffff_ffff

-- `SegmentIndex::next` and `Generation::succ`: `none` is the panic on overflow.
abbrev pub segment_next : ℕ → Option ℕ
segment_next i = checked_add i 1

abbrev pub generation_succ : ℕ → Option ℕ
generation_succ g = checked_add g 1

-- `Sequence::next`
abbrev pub sequence_next : ℕ → Option ℕ
sequence_next s = checked_add s 1

pub data Direction : Type 0 where
  client_to_server server_to_client : Direction

pub data Role : Type 0 where
  client server : Role

abbrev pub opposite : Direction → Direction
opposite client_to_server = server_to_client
opposite server_to_client = client_to_server

-- `Role::send_direction`
abbrev pub send_direction : Role → Direction
send_direction client = client_to_server
send_direction server = server_to_client

abbrev pub direction_eq : Direction → Direction → Bool
direction_eq client_to_server client_to_server = true
direction_eq client_to_server server_to_client = false
direction_eq server_to_client client_to_server = false
direction_eq server_to_client server_to_client = true

abbrev pub role_eq : Role → Role → Bool
role_eq client client = true
role_eq client server = false
role_eq server client = false
role_eq server server = true
