-- ===== src/Protocol/Ipv4/Valid.antt =====
-- What a packet is that passes `proto_validate_ipv4_packet`.
use tund.Base.{
  ℕ, ◌-◌, ◌*◌, ◌/◌, ◌%◌, ◌^◌, ◌≤◌, ◌<◌, bit_and, List, ◌≡◌, ◌≢◌, ◌↔◌, ◌∙◌, arith, get_or, drop,
}
use tund.Base.Bits.{bit_and_high, bit_and_mask}
use tund.Protocol.Constants.{netmask}
use tund.Protocol.Bytes.{read_u16_be, htonl}
use tund.Protocol.Bytes.Laws.{htonl-lt}
use tund.Protocol.Ipv4.{ok, get_dst_ip, get_src_ip, validate_addresses, validate_ipv4_packet}

-- A host of 10.9.0.0/24, its network address left out.
abbrev pub InSubnet : ℕ → Type 0
InSubnet ip = (0x0A090000 < ip) × (ip ≤ 0x0A0900FF)

-- A packet of version 4 whose header and total lengths fit the `len` bytes that arrived, from a
-- single host of the subnet to a host of the subnet or all of them.
pub record IsValidPacket (pkt : List ℕ) (len : ℕ) : Type 0 where
  pub version : get_or pkt 0 0 / 16 ≡ 4
  pub header : 20 ≤ get_or pkt 0 0 % 16 * 4
  pub within : get_or pkt 0 0 % 16 * 4 ≤ len
  pub total : read_u16_be (drop 2 pkt) ≡ len
  pub from_host : InSubnet (htonl (get_src_ip pkt len))
  pub not_broadcast : htonl (get_src_ip pkt len) ≢ 0x0A0900FF
  pub to_host : InSubnet (htonl (get_dst_ip pkt len))

-- The netmask cuts the last byte off.
pub bit_and-netmask : (x : ℕ) → x < 2 ^ 32 → bit_and x netmask ≡ x / 256 * 256
bit_and-netmask x h = bit_and_high 8 x (2 ^ 24 - 1) ∙ omega (arith, bit_and_mask 24 (x / 256))

validate_addresses-ok :
    (src dst : ℕ)
    → src < 2 ^ 32
    → dst < 2 ^ 32
    → (validate_addresses src dst ≡ ok) ↔ (InSubnet src × (src ≢ 0x0A0900FF) × InSubnet dst)
unfolding validate_addresses
validate_addresses-ok src dst hs hd = (
  λ e. ground (arith, bit_and-netmask src, bit_and-netmask dst),
  λ e. ground (arith, bit_and-netmask src, bit_and-netmask dst),
)

-- A packet passes proto_validate_ipv4_packet exactly when it has version 4, header and total
-- lengths that fit the bytes that arrived, a source in 10.9.0.0/24 that is neither the network nor
-- the broadcast address, and a destination in the subnet that is not the network address.
pub validate-IsValidPacket :
    (pkt : List ℕ) (len : ℕ) → (validate_ipv4_packet pkt len ≡ ok) ↔ IsValidPacket pkt len
unfolding validate_ipv4_packet
validate-IsValidPacket pkt len = (
  λ e. ground (arith, bit_and_mask 4 (get_or pkt 0 0), addresses),
  λ v. ground (arith, bit_and_mask 4 (get_or pkt 0 0), addresses),
)
  where
    addresses :
        (validate_addresses (htonl (get_src_ip pkt len)) (htonl (get_dst_ip pkt len)) ≡ ok) ↔ (
          InSubnet (htonl (get_src_ip pkt len))
          × (htonl (get_src_ip pkt len) ≢ 0x0A0900FF)
          × InSubnet (htonl (get_dst_ip pkt len)))
    addresses = validate_addresses-ok _ _ (htonl-lt _) (htonl-lt _)
