-- ===== src/Session/Tests.antt =====
-- Runs of the record layer (crates/otp-session) with a cipher that leaves the text as it is.
use jbuu.Base.{ℕ, ◌≡◌, refl, arith, some, List, [], ◌∷◌, replicate}
use jbuu.Base.Result.{ok, err}
use jbuu.Base.Bytes.{Bytes}
use jbuu.Types.{client, server, client_to_server, u64_max}
use jbuu.Session.Nonce.{record_nonce-injective}
use jbuu.Session.Aad.{
  client_confirm, server_confirm, data_message, SessionContext, IsTypedContext, nonce_domain,
  build_aad, build_aad-injective,
}
use jbuu.Session.State.{
  Aead, IsAead, Session, Record, fails, sequence_replay, put, new, seal, open_record,
}
use jbuu.Session.Sequence.{Op, seal_op, open_op, run, step, Consecutive, run-Consecutive}
use jbuu.Session.RoundTrip.{Receives, open_record-seal}

abbrev null_cipher : Aead
null_cipher = record {
  encrypt = λ key nonce aad plain. some (plain, replicate 16 0);
  decrypt = λ key nonce aad ct tag. some ct;
}

null_cipher-IsAead : IsAead null_cipher
null_cipher-IsAead = record {
  tag_size = λ key nonce aad plain ct tag e. ground arith;
  text_size = λ key nonce aad plain ct tag e. ground arith;
  decrypt-encrypt = λ key nonce aad plain ct tag e. ground arith;
}

abbrev zeros : Bytes
zeros = replicate 16 0

abbrev client_context : SessionContext
client_context = record {
  role = client;
  book_id = zeros;
  segment = 7;
  client_nonce = zeros;
  server_nonce = replicate 16 1;
}

abbrev server_context : SessionContext
server_context = record client_context { role = server }

abbrev at_client : Session
at_client = new (replicate 64 3) client_context

abbrev at_server : Session
at_server = new (replicate 64 3) server_context

abbrev script : List Op
script =
    seal_op client_confirm (1 ∷ [])
    ∷ open_op server_confirm 0 (2 ∷ replicate 16 0)
    ∷ seal_op data_message (3 ∷ [])
    ∷ open_op data_message 0 (replicate 16 0)
    ∷ seal_op data_message (4 ∷ [])
    ∷ []

run-script : run null_cipher script at_client ≡ (0 ∷ 1 ∷ [], 0 ∷ [])
unfolding run step seal open_record
run-script = refl

abbrev after_confirm : Session
after_confirm = (open_record null_cipher client_confirm 0 (1 ∷ replicate 16 0) at_server).1

-- A record that is opened twice is a replay, where its number is not 0.
replay :
    (open_record null_cipher data_message 1
      (replicate 16 0)
      (open_record null_cipher data_message 1 (replicate 16 0) after_confirm).1).0
    ≡ err (fails sequence_replay)
unfolding open_record
replay = refl

run-Consecutive_example :
    Consecutive 0 (run null_cipher script at_client).0
    × Consecutive 0 (run null_cipher script at_client).1
run-Consecutive_example = run-Consecutive null_cipher script at_client (refl, (_, refl))

abbrev confirm : Record
confirm = record { sequence = 0; sealed = 1 ∷ replicate 16 0 }

abbrev after_seal : Session
after_seal = (seal null_cipher client_confirm (1 ∷ []) at_client).1

seal-confirm : seal null_cipher client_confirm (1 ∷ []) at_client ≡ (ok confirm, after_seal)
unfolding seal
seal-confirm = refl

at_server-Receives : Receives at_client at_server
unfolding nonce_domain
at_server-Receives = record {
  active = (refl, (_, refl));
  way = refl;
  domain = refl;
  ctx = refl;
  keys = refl;
  next = refl;
}

open_record-seal_example :
    open_record null_cipher client_confirm 0 (1 ∷ replicate 16 0) at_server ≡ (
      ok (1 ∷ []),
      record at_server { recv_last = put client_to_server (some 0) at_server.recv_last },
    )
open_record-seal_example =
    open_record-seal null_cipher at_client at_server after_seal client_confirm (1 ∷ []) confirm
      null_cipher-IsAead refl at_server-Receives seal-confirm

abbrev some_domain : Bytes
some_domain = 5 ∷ 6 ∷ 7 ∷ []

record_nonce-injective_example :
    (some_domain ≡ some_domain) × (client_to_server ≡ client_to_server) × (u64_max ≡ u64_max)
record_nonce-injective_example =
    record_nonce-injective some_domain some_domain client_to_server client_to_server u64_max u64_max
      refl refl (ground arith) (ground arith) refl

client_context-IsTyped : IsTypedContext client_context
client_context-IsTyped = record {
  book_id = record { size = refl; bytes = ground arith };
  segment = ground arith;
  client_nonce = record { size = refl; bytes = ground arith };
  server_nonce = record { size = refl; bytes = ground arith };
}

server_context-IsTyped : IsTypedContext server_context
server_context-IsTyped = record {
  book_id = record { size = refl; bytes = ground arith };
  segment = ground arith;
  client_nonce = record { size = refl; bytes = ground arith };
  server_nonce = record { size = refl; bytes = ground arith };
}

abbrev epoch : ℕ
epoch = 0

abbrev number : ℕ
number = 1

-- The contexts of the two ends have the same associated data.
same_aad :
    build_aad client_context data_message client_to_server epoch number
    ≡ build_aad server_context data_message client_to_server epoch number
unfolding build_aad
same_aad = refl

build_aad-injective_example :
    (data_message ≡ data_message)
    × (client_to_server ≡ client_to_server)
    × (epoch ≡ epoch)
    × (number ≡ number)
    × (client_context ≡ record server_context { role = client })
build_aad-injective_example =
    build_aad-injective client_context server_context data_message data_message client_to_server
      client_to_server epoch epoch number number client_context-IsTyped server_context-IsTyped
      (ground arith, ground arith) (ground arith, ground arith) same_aad
