-- ===== src/Protocol/Ipv4.antt =====
-- IPv4 packets in src/protocol/protocol.c: the addresses of a packet and its validation. An address
-- is the `uint32_t` that `memcpy` reads, in network byte order.
pub mod Valid
use tund.Base.{
  ℕ, ◌+◌, ◌*◌, ◌/◌, ◌%◌, ◌^◌, bit_and, Bool, true, false, not, ◌&&◌, ◌||◌, List, ltb, ◌==◌,
  if◌then◌else◌, get_or, drop,
}
use tund.Protocol.Constants.{subnet, netmask, broadcast_host}
use tund.Protocol.Bytes.{read_u16_be, load32, htonl}

-- TUND_IPV4_OK and the error codes.
pub data Verdict : Type 0 where
  ok too_short bad_ip_version bad_ihl truncated length_mismatch bad_src bad_dst : Verdict

unfoldable pub get_dst_ip : List ℕ → ℕ → ℕ
get_dst_ip pkt len = if ltb len 20 then 0 else load32 (drop 16 pkt)

unfoldable pub get_src_ip : List ℕ → ℕ → ℕ
get_src_ip pkt len = if ltb len 20 then 0 else load32 (drop 12 pkt)

-- The tests on the two addresses.
unfoldable pub validate_addresses : ℕ → ℕ → Verdict
validate_addresses src dst =
    if not (bit_and src netmask == subnet) || (src == subnet) || (src == broadcast_host)
    then bad_src
    else if dst == subnet
    then bad_dst
    else if not (dst == broadcast_host) && not (bit_and dst netmask == subnet)
    then bad_dst
    else ok

-- The tests on the lengths, from the header's length and the total length that the packet states.
validate_lengths : List ℕ → ℕ → ℕ → ℕ → Verdict
validate_lengths pkt len ihl total_len =
    if ltb ihl 20
    then bad_ihl
    else if ltb len ihl
    then truncated
    else if ltb total_len ihl
    then length_mismatch
    else if ltb len total_len
    then truncated
    else if not (total_len == len)
    then length_mismatch
    else validate_addresses (htonl (get_src_ip pkt len)) (htonl (get_dst_ip pkt len))

-- `(uint8_t)((ip_pkt[0] & 0x0F) * 4)`.
abbrev pub ihl_of : List ℕ → ℕ
ihl_of pkt = bit_and (get_or pkt 0 0) 0x0F * 4 % 2 ^ 8

unfoldable pub validate_ipv4_packet : List ℕ → ℕ → Verdict
unfolding validate_lengths
validate_ipv4_packet pkt len =
    if ltb len 20
    then too_short
    else if not (get_or pkt 0 0 / 2 ^ 4 == 4)
    then bad_ip_version
    else validate_lengths pkt len (ihl_of pkt) (read_u16_be (drop 2 pkt))
