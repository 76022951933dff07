-- ===== src/Examples/Protocol.antt =====
-- Runs of the protocol's theorems.
use tund.Base.{ℕ, List, [], ◌∷◌, ◌≡◌, ◌↔◌, ◌++◌, refl, arith, replicate}
use tund.Protocol.Constants.{tund_magic, protocol_version}
use tund.Protocol.Bytes.{load_be, store_be}
use tund.Protocol.Bytes.Laws.{load_be-store_be}
use tund.Protocol.Header.{next_sequence, write_hdr, read_hdr, ok}
use tund.Protocol.Header.Laws.{Numbered, Written, next_sequence-Numbered, write_hdr-Written}
use tund.Protocol.Seal.{encrypt}
use tund.Protocol.Seal.Roundtrip.{Delivered, encrypt-Delivered}
use tund.Protocol.Ipv4.{ok as accepted, validate_ipv4_packet}
use tund.Protocol.Ipv4.Valid.{IsValidPacket, validate-IsValidPacket}
use tund.Protocol.Replay.{replay_reset, replay_accept, accepted_from}
use tund.Protocol.Replay.Spec.{fresh_from, IsDistinct}
use tund.Protocol.Replay.Refine.{
  Refines, replay_reset-Tracks, replay_accept-Refines, replay_window_sound,
}
use tund.Examples.{plain_os, plain_os-IsAead, plain_os-HasEntropy, first_world, small_packet}

replay_window_sound_example :
    (accepted_from replay_reset [] (3 ∷ 5 ∷ 3 ∷ 70 ∷ 4 ∷ [])
      ≡ fresh_from [] (3 ∷ 5 ∷ 3 ∷ 70 ∷ 4 ∷ []))
    × IsDistinct (accepted_from replay_reset [] (3 ∷ 5 ∷ 3 ∷ 70 ∷ 4 ∷ []))
replay_window_sound_example = replay_window_sound (3 ∷ 5 ∷ 3 ∷ 70 ∷ 4 ∷ [])

replay_accept-Refines_example : Refines [] 9 (replay_accept replay_reset 9)
replay_accept-Refines_example = replay_accept-Refines replay_reset [] 9 replay_reset-Tracks

next_sequence-Numbered_example : Numbered first_world (next_sequence plain_os first_world)
next_sequence-Numbered_example =
    next_sequence-Numbered plain_os first_world plain_os-HasEntropy (omega arith)

write_hdr-Written_example : Written first_world 4 20 (write_hdr plain_os first_world [] 4 20)
write_hdr-Written_example =
    write_hdr-Written plain_os first_world [] 4 20 plain_os-HasEntropy (omega arith) (omega arith)

-- A keepalive's header and two bytes of payload.
abbrev pub message : List ℕ
message = tund_magic ∷ protocol_version ∷ 5 ∷ 0 ∷ 2 ∷ replicate 32 0 ++ 8 ∷ 9 ∷ []

pub message_fields : read_hdr message ≡ ok 5 2
unfolding read_hdr
message_fields = refl

encrypt-Delivered_example :
    Delivered plain_os [] first_world 5 (8 ∷ 9 ∷ []) (encrypt plain_os first_world [] message)
encrypt-Delivered_example =
    encrypt-Delivered plain_os [] first_world message 5 plain_os-IsAead plain_os-HasEntropy
      (omega arith) (omega arith) (omega arith) message_fields

validate-IsValidPacket_example :
    (validate_ipv4_packet small_packet 20 ≡ accepted) ↔ IsValidPacket small_packet 20
validate-IsValidPacket_example = validate-IsValidPacket small_packet 20

load_be-store_be_example : load_be 0 (store_be 8 1000 []) ≡ 1000
load_be-store_be_example = load_be-store_be 8 1000 (omega arith) (omega arith)
