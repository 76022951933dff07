-- ===== src/Protocol/Messages.antt =====
-- The message builders and readers of src/protocol/protocol.c. A builder returns its `len` bytes, or
-- `none` for -1. A name argument is a C string without its NUL.
pub mod Entries
pub mod Framing
use tund.Base.{
  ℕ, ◌+◌, ◌-◌, ◌*◌, ◌/◌, ◌%◌, ◌^◌, Bool, true, false, not, List, [], ◌∷◌, ◌++◌, Option, none, some,
  ltb, ◌==◌, if◌then◌else◌, get_or, length, take, drop,
}
use tund.World.{World, Os}
use tund.Protocol.Constants.{
  hdr_size, name_len, peer_entry_size, msg_register, msg_assign, msg_data, msg_keepalive,
  msg_keepalive_ack, msg_disconnect, msg_peer_join, msg_peer_leave,
}
use tund.Protocol.Bytes.{load_be, store_be, load32, store32, store16, htons}
use tund.Protocol.Text.{char_array}
use tund.Protocol.Header.{write_hdr}

framed : List ℕ → Bool × List ℕ × World → Option (List ℕ) × World
framed payload (false, _, w) = (none, w)
framed payload (true, hdr, w) = (some (hdr ++ payload), w)

-- A header, and the payload copied behind it; `stated` is the length that the header is given.
unfoldable pub build : Os → World → ℕ → ℕ → List ℕ → Option (List ℕ) × World
unfolding framed
build os w type stated payload = framed payload (write_hdr os w [] type stated)

unfoldable pub build_register : Os → World → List ℕ → Option (List ℕ) × World
build_register os w name =
    let len = length name % 2 ^ 16 in
    let nlen = if ltb name_len len then name_len else len in
    build os w msg_register nlen (take nlen name)

unfoldable pub build_assign : Os → World → ℕ → ℕ → ℕ → Option (List ℕ) × World
build_assign os w virt_ip mask mtu =
    build os w msg_assign 10 (store32 virt_ip ++ store32 mask ++ store16 (htons mtu))

unfoldable pub build_data : Os → World → List ℕ → ℕ → Option (List ℕ) × World
build_data os w ip_pkt ip_len = build os w msg_data ip_len (take ip_len ip_pkt)

build_timestamp_msg : Os → World → ℕ → ℕ → Option (List ℕ) × World
build_timestamp_msg os w type timestamp = build os w type 8 (store_be 8 timestamp [])

unfoldable pub build_keepalive : Os → World → ℕ → Option (List ℕ) × World
unfolding build_timestamp_msg
build_keepalive os w timestamp = build_timestamp_msg os w msg_keepalive timestamp

unfoldable pub build_keepalive_ack : Os → World → ℕ → Option (List ℕ) × World
unfolding build_timestamp_msg
build_keepalive_ack os w timestamp = build_timestamp_msg os w msg_keepalive_ack timestamp

unfoldable pub read_keepalive_timestamp : List ℕ → ℕ → Option ℕ
read_keepalive_timestamp payload payload_len =
    if ltb payload_len 8 then none else some (load_be 0 (take 8 payload))

unfoldable pub build_disconnect : Os → World → Option (List ℕ) × World
build_disconnect os w = build os w msg_disconnect 0 []

unfoldable pub build_peer_join : Os → World → ℕ → List ℕ → Option (List ℕ) × World
build_peer_join os w virt_ip name =
    build os w msg_peer_join (4 + name_len)
      (store32 virt_ip ++ char_array name_len (take (name_len - 1) name))

unfoldable pub build_peer_leave : Os → World → ℕ → Option (List ℕ) × World
build_peer_leave os w virt_ip = build os w msg_peer_leave 4 (store32 virt_ip)

-- The 37 bytes of an entry; `none` where they do not fit.
unfoldable pub write_peer_entry : ℕ → ℕ → List ℕ → Bool → Option (List ℕ)
write_peer_entry payload_size virt_ip name online =
    if ltb payload_size peer_entry_size
    then none
    else some (
        (store32 virt_ip ++ char_array name_len (take (name_len - 1) name))
        ++ (if online then 1 else 0) ∷ [])

-- An entry that was read: the address, the name's 32 bytes and the flag.
pub record PeerEntry : Type 0 where
  pub virt_ip : ℕ
  pub name : List ℕ
  pub online : Bool

-- The source's index is an `int`; its callers count from 0 up.
unfoldable pub read_peer_entry : List ℕ → ℕ → ℕ → Option PeerEntry
read_peer_entry payload payload_len index =
    let offset = index * peer_entry_size in
    if ltb payload_len (offset + peer_entry_size)
    then none
    else some (record {
      virt_ip = load32 (drop offset payload);
      name = take (name_len - 1) (drop (offset + 4) payload) ++ 0 ∷ [];
      online = not (get_or (drop (offset + 36) payload) 0 0 == 0);
    })

unfoldable pub peer_entry_count : ℕ → ℕ
peer_entry_count payload_len = payload_len / peer_entry_size
