-- ===== src/FullOtp/Pump/Tests.antt =====
-- Runs of two pumps over a bundle of 8192 bytes, and the theorems at them. The function in the place of
-- Poly1305 is the sum of its bytes, sixteen times.
use jbuu.Base.{
  ℕ, ◌+◌, ◌%◌, ◌≡◌, ◌<◌, refl, ◌↔◌, arith, true, false, List, [], ◌∷◌, ◌++◌, length, replicate,
  length-replicate, u64_limit,
}
use jbuu.Base.Result.{ok, err}
use jbuu.Base.Actions.{Ends}
use jbuu.Base.Bytes.{Bytes}
use jbuu.Types.{client, server, client_to_server}
use jbuu.FullOtp.{OtpDataRecord, encode_otp, decode_otp, too_short}
use jbuu.FullOtp.Error.{wire, fails}
use jbuu.FullOtp.Control.{
  pad_need, pad_offer, encode_control, decode_control, decode_control_iff, IsTypedControl,
}
use jbuu.FullOtp.Pad.{burn, xor_pad}
use jbuu.FullOtp.Record.{ct_eq, seal_record}
use jbuu.FullOtp.Record.Compare.{ct_eq_iff}
use jbuu.FullOtp.Record.RoundTrip.{TagSize}
use jbuu.FullOtp.Pump.{FullOtpPump, sent, new, send, send_fitting, receive}
use jbuu.FullOtp.Pump.Bundles.{PadSource, on_control}
use jbuu.FullOtp.Pump.Invariant.{IsWell, new-IsWell}
use jbuu.FullOtp.Pump.Sending.{record_of, after_send}
use jbuu.FullOtp.Pump.Receiving.{ReceiveEnds}
use jbuu.FullOtp.Pump.Receiving.Branches.{receive-ReceiveEnds}
use jbuu.FullOtp.Pump.Bundling.{IsSource, Kept, on_control-Kept}
use jbuu.FullOtp.Pump.OneTime.{Call, sends, receives, controls, closes, run}
use jbuu.FullOtp.Pump.OneTime.Runs.{AscendsFrom, run-Ascending}
use jbuu.FullOtp.Pump.Delivery.{InSync, IsTypedSide}
use jbuu.FullOtp.Pump.Delivery.Records.{Delivers, receive-send}

sum : Bytes → ℕ
sum [] = 0
sum (x ∷ xs) = (x + sum xs) % 256

sum_tag : Bytes → Bytes → Bytes
sum_tag key message = replicate 16 ((sum key + sum message) % 256)

sum_tag-TagSize : TagSize sum_tag
unfolding sum_tag
sum_tag-TagSize key message = length-replicate {A = ℕ} 16 ((sum key + sum message) % 256)

flat : Bytes
flat = replicate 8192 0xa5

abbrev client_pump : FullOtpPump
client_pump = new client 256 flat

abbrev server_pump : FullOtpPump
server_pump = new server 256 flat

flat_size : length flat ≡ 8192
unfolding flat
flat_size = length-replicate {A = ℕ} 8192 0xa5

client-IsWell : IsWell client_pump
client-IsWell = new-IsWell client 256 flat flat_size

in_step : InSync client_pump server_pump
unfolding new
in_step = record { opened = refl; way = refl; number = refl; stream = refl; next = λ h. refl }

typed : IsTypedSide client_pump
unfolding new
typed = (omega arith, λ n e. absurd cc)

room_of_server : server_pump.next_bundle_id + 1 < u64_limit
unfolding new
room_of_server = omega arith

abbrev hello : Bytes
hello = 104 ∷ 105 ∷ []

abbrev first_record : OtpDataRecord
first_record = record_of sum_tag client_to_server 0 hello client_pump

first_sent :
    send sum_tag hello client_pump
    ≡ (ok (sent first_record 2 false), after_send client_to_server hello 1 client_pump)
unfolding send send_fitting seal_record new
first_sent = refl

receive-send_example :
    Delivers sum_tag hello 2 first_record server_pump
      (after_send client_to_server hello 1 client_pump)
receive-send_example =
    receive-send sum_tag client_pump server_pump hello sum_tag-TagSize client-IsWell in_step typed
      first_sent

first_ciphertext : first_record.ciphertext ≡ 205 ∷ 204 ∷ []
unfolding new burn xor_pad flat
first_ciphertext = refl

-- The frame of the first record at the server.
receive-ReceiveEnds_example :
    Ends
      (receive sum_tag (encode_otp first_record))
      server_pump
      (ReceiveEnds sum_tag server_pump (encode_otp first_record))
receive-ReceiveEnds_example =
    receive-ReceiveEnds sum_tag server_pump (encode_otp first_record)
      (new-IsWell server 256 flat flat_size)

-- A frame that is too short leaves the pump open.
abbrev short_frame : Bytes
short_frame = 0 ∷ 3 ∷ []

short_refused :
    receive sum_tag short_frame server_pump ≡ (err (fails (wire too_short)), server_pump)
unfolding receive decode_otp new
short_refused = refl

abbrev whole_bundles : PadSource
whole_bundles = record { reserve_next_bundle = ok (384, flat); reserve_bundle_at = λ base. ok flat }

whole_bundles-IsSource : IsSource whole_bundles
whole_bundles-IsSource = record {
  next_size = λ {base} {flat = given} e. let same : given ≡ flat = cc in rw same flat_size;
  size_at = λ base {flat = given} e. let same : given ≡ flat = cc in rw same flat_size;
}

-- The client sends, takes the next bundle, sends again, gets a bad frame and closes.
abbrev calls : List Call
calls =
    sends hello
    ∷ controls (pad_offer 1 384) whole_bundles
    ∷ sends hello
    ∷ receives short_frame
    ∷ closes
    ∷ []

room_of_calls : client_pump.next_bundle_id + length calls < u64_limit
unfolding new
room_of_calls = omega arith

run-Ascending_example : AscendsFrom sum_tag client_pump (run sum_tag client_pump calls).0
run-Ascending_example =
    run-Ascending sum_tag client_pump calls client-IsWell
      (tt, (whole_bundles-IsSource, (tt, (tt, (tt, tt))))) room_of_calls

on_control-Kept_example : Kept server_pump (on_control whole_bundles pad_need server_pump).1
on_control-Kept_example =
    on_control-Kept server_pump whole_bundles pad_need (new-IsWell server 256 flat flat_size)
      whole_bundles-IsSource room_of_server

abbrev zeros : Bytes
zeros = replicate 16 0

abbrev near_zeros : Bytes
near_zeros = replicate 15 0 ++ (1 ∷ [])

ct_eq_iff_example : (ct_eq zeros near_zeros ≡ true) ↔ (zeros ≡ near_zeros)
ct_eq_iff_example = ct_eq_iff zeros near_zeros refl

near_zeros_differ : ct_eq zeros near_zeros ≡ false
unfolding ct_eq
near_zeros_differ = refl

decode_control_iff_example :
    (decode_control (3 ∷ []) ≡ ok pad_need)
    ↔ (IsTypedControl pad_need × (encode_control pad_need ≡ 3 ∷ []))
decode_control_iff_example = decode_control_iff (3 ∷ []) pad_need (omega arith, tt)
