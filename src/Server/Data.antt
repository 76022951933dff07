-- ===== src/Server/Data.antt =====
-- `server_handle_data` of src/core/server/data.c, and a round of `server_tun_thread` of threads.c.
use tund.Base.{ℕ, not, List, ◌∷◌, Option, none, some, ◌==◌, if◌then◌else◌, set, take, length}
use tund.World.{Addr, World, Os}
use tund.Protocol.Constants.{server_ip, broadcast_host}
use tund.Protocol.Bytes.{htonl}
use tund.Protocol.Ipv4.{ok, get_src_ip, get_dst_ip, validate_ipv4_packet}
use tund.Protocol.Messages.{build_data}
use tund.Peers.{Peer, peer_at, add64}
use tund.Net.{net_send}
use tund.Server.State.{
  Server, Snapshot, find_peer_by_addr, snapshot_broadcast, snapshot_peer_by_vip, add_peer_bytes_out,
  send_peer_snapshots,
}

-- What the part under the lock decides.
pub data Routing : Type 0 where
  unregistered spoofed no_route to_server : Routing
  to_all : List Snapshot → Routing
  to_one : Snapshot → Routing

-- Where a packet of a known sender goes.
unfoldable pub route : List Peer → ℕ → ℕ → Routing
route peers sender dst_ip =
    if dst_ip == htonl server_ip
    then to_server
    else if dst_ip == htonl broadcast_host
    then to_all (snapshot_broadcast peers (some sender))
    else elim (snapshot_peer_by_vip peers dst_ip) [ none ↦ no_route | some s ↦ to_one s ]

unfoldable pub count_bytes_in : Server → ℕ → ℕ → Server
count_bytes_in srv idx plen =
    let p = peer_at srv.peers idx in
    record srv { peers = set srv.peers idx (record p { bytes_in = add64 p.bytes_in plen }) }

unfoldable pub data_locked : Server → ℕ → ℕ → ℕ → Addr → Routing × Server
data_locked srv src_ip dst_ip plen from = elim (find_peer_by_addr srv.peers from) [
  | none ↦ (unregistered, srv)
  | some sender ↦ if not (src_ip == (peer_at srv.peers sender).virt_ip) then (spoofed, srv) else (
    route (count_bytes_in srv sender plen).peers sender dst_ip,
    count_bytes_in srv sender plen,
  )
]

-- `tun_write`.
abbrev pub tun_write : World → List ℕ → World
tun_write w packet = record w { tun_out = packet ∷ w.tun_out }

unfoldable pub forward_unicast :
    Os → World → Server → Snapshot → Option (List ℕ) → ℕ → Server × World
forward_unicast os w srv s msg bytes_out =
    let (sent, w') = net_send os w msg s.real_addr in
    (if sent then add_peer_bytes_out srv s bytes_out else srv, w')

unfoldable pub forward : Os → World → Server → Routing → List ℕ → ℕ → Server × World
unfolding forward_unicast
forward os w srv to_server payload plen = (srv, tun_write w (take plen payload))
forward os w srv (to_all peers) payload plen =
    let (msg, w1) = build_data os w payload plen in
    let (srv', w2) = send_peer_snapshots os w1 srv peers msg plen in
    (srv', tun_write w2 (take plen payload))
forward os w srv (to_one s) payload plen =
    let (msg, w1) = build_data os w payload plen in forward_unicast os w1 srv s msg plen
forward os w srv _ payload plen = (srv, w)

unfoldable pub handle_data : Os → World → Server → List ℕ → ℕ → Addr → Server × World
handle_data os w srv payload plen from = elim (validate_ipv4_packet payload plen) [
  | ok ↦
      let (routing, srv') =
        data_locked srv (get_src_ip payload plen) (get_dst_ip payload plen) plen from in
      forward os w srv' routing payload plen
  | _ ↦ (srv, w)
]

-- A packet that the TUN thread read, from its validation to the end of the round; the message is
-- built before the table is looked at.
unfoldable pub tun_route : Os → World → Server → ℕ → Option (List ℕ) → ℕ → Server × World
unfolding forward_unicast
tun_route os w srv dst_ip msg n =
    if dst_ip == htonl broadcast_host
    then send_peer_snapshots os w srv (snapshot_broadcast srv.peers none) msg n
    else elim (snapshot_peer_by_vip srv.peers dst_ip) [
      | none ↦ (srv, w)
      | some s ↦ forward_unicast os w srv s msg n
    ]

unfoldable pub tun_round : Os → World → Server → List ℕ → Server × World
unfolding tun_route
tun_round os w srv pkt = elim (validate_ipv4_packet pkt (length pkt)) [
  | ok ↦
      let (msg, w1) = build_data os w pkt (length pkt) in
      tun_route os w1 srv (get_dst_ip pkt (length pkt)) msg (length pkt)
  | _ ↦ (srv, w)
]
