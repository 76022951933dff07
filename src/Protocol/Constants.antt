-- ===== src/Protocol/Constants.antt =====
-- The constants of src/protocol/protocol.h.
use tund.Base.{ℕ, ◌+◌}

-- The header's layout, and the sizes of what it frames.
abbrev pub tund_magic : ℕ
tund_magic = 0xA9

abbrev pub protocol_version : ℕ
protocol_version = 4

abbrev pub nonce_size : ℕ
nonce_size = 24

abbrev pub auth_tag_size : ℕ
auth_tag_size = 16

abbrev pub sequence_offset : ℕ
sequence_offset = 5

abbrev pub nonce_offset : ℕ
nonce_offset = sequence_offset + 8

abbrev pub hdr_size : ℕ
hdr_size = nonce_offset + nonce_size

abbrev pub max_plaintext : ℕ
max_plaintext = 1600

abbrev pub max_pkt : ℕ
max_pkt = hdr_size + (max_plaintext + auth_tag_size)

abbrev pub name_len : ℕ
name_len = 32

abbrev pub peer_entry_size : ℕ
peer_entry_size = 4 + name_len + 1

abbrev pub tun_mtu : ℕ
tun_mtu = 1400

-- The virtual subnet 10.9.0.0/24, in host byte order.
abbrev pub subnet : ℕ
subnet = 0x0A090000

abbrev pub netmask : ℕ
netmask = 0xFFFFFF00

abbrev pub server_ip : ℕ
server_ip = 0x0A090001

abbrev pub ip_start : ℕ
ip_start = 0x0A090002

abbrev pub ip_end : ℕ
ip_end = 0x0A0900FE

-- `TUND_SUBNET | ~TUND_NETMASK`.
abbrev pub broadcast_host : ℕ
broadcast_host = 0x0A0900FF

-- Seconds.
abbrev pub keepalive_interval : ℕ
keepalive_interval = 10

abbrev pub peer_timeout : ℕ
peer_timeout = 30

abbrev pub server_timeout : ℕ
server_timeout = 30

abbrev pub register_retries : ℕ
register_retries = 3

-- The message types.
abbrev pub msg_register : ℕ
msg_register = 0x01

abbrev pub msg_assign : ℕ
msg_assign = 0x02

abbrev pub msg_peer_list : ℕ
msg_peer_list = 0x03

abbrev pub msg_data : ℕ
msg_data = 0x04

abbrev pub msg_keepalive : ℕ
msg_keepalive = 0x05

abbrev pub msg_disconnect : ℕ
msg_disconnect = 0x06

abbrev pub msg_peer_join : ℕ
msg_peer_join = 0x07

abbrev pub msg_peer_leave : ℕ
msg_peer_leave = 0x08

abbrev pub msg_keepalive_ack : ℕ
msg_keepalive_ack = 0x09
