-- ===== src/Server/State.antt =====
-- The server's peer table and the helpers of src/core/server/peers.c. The lock is not modelled: each
-- part of a handler that runs under it is a function of its own here.
use tund.Base.{
  ℕ, zero, suc, ◌+◌, ◌-◌, Bool, false, not, ◌&&◌, List, [], ◌∷◌, Option, none, some, ltb, ◌==◌,
  if◌then◌else◌, set, take, replicate,
}
use tund.World.{Addr, World, Os}
use tund.Protocol.Constants.{name_len, ip_start}
use tund.Protocol.Bytes.{htonl}
use tund.Protocol.Text.{c_string}
use tund.Peers.{Peer, max_peers, empty_peer, peer_at, find_index, has_vip, has_addr, is_free, add64}
use tund.Net.{net_send}

-- The fields of `server_t` that the handlers use.
pub record Server : Type 0 where
  pub peers : List Peer
  pub peer_count : ℕ

-- `server_peer_snapshot_t`; the name is the C string.
pub record Snapshot : Type 0 where
  pub idx : ℕ
  pub virt_ip : ℕ
  pub name : List ℕ
  pub real_addr : Addr

-- `server_init` on the table.
unfoldable pub server_init_table : Server
server_init_table = record { peers = replicate max_peers empty_peer; peer_count = 0 }

unfoldable pub find_peer_by_vip : List Peer → ℕ → Option ℕ
find_peer_by_vip peers virt_ip = find_index (has_vip virt_ip) peers

unfoldable pub find_peer_by_addr : List Peer → Addr → Option ℕ
find_peer_by_addr peers addr = find_index (has_addr addr) peers

unfoldable pub find_free_slot : List Peer → Option ℕ
find_free_slot peers = find_index is_free peers

-- The loop of `server_alloc_ip` from `ip_h` on, with so many addresses left; 0 when all are taken.
unfoldable pub alloc_from : List Peer → ℕ → ℕ → ℕ
alloc_from peers zero ip_h = 0
alloc_from peers (suc left) ip_h =
    let rest = alloc_from peers left (ip_h + 1) in
    elim (find_peer_by_vip peers (htonl ip_h)) [ none ↦ htonl ip_h | some _ ↦ rest ]

-- TUND_IP_START to TUND_IP_END.
unfoldable pub alloc_ip : List Peer → ℕ
alloc_ip peers = alloc_from peers 253 ip_start

-- `snprintf("%s")` of a name into another array.
abbrev pub peer_name : Peer → List ℕ
peer_name p = take (name_len - 1) (c_string p.name)

unfoldable pub snapshot_peer : Peer → ℕ → Snapshot
snapshot_peer p idx = record {
  idx = idx;
  virt_ip = p.virt_ip;
  name = peer_name p;
  real_addr = p.real_addr;
}

-- The active slots from `i` on, but for the excluded one (`none` is -1). The output array holds as
-- many entries as the table, so its limit is never met.
unfoldable pub snapshot_from : ℕ → List Peer → Option ℕ → List Snapshot
snapshot_from i [] exclude = []
snapshot_from i (p ∷ ps) exclude =
    let rest = snapshot_from (suc i) ps exclude in
    if p.active && not (elim exclude [ none ↦ false | some x ↦ i == x ])
    then snapshot_peer p i ∷ rest
    else rest

unfoldable pub snapshot_broadcast : List Peer → Option ℕ → List Snapshot
snapshot_broadcast peers exclude = snapshot_from 0 peers exclude

unfoldable pub snapshot_peer_by_vip : List Peer → ℕ → Option Snapshot
snapshot_peer_by_vip peers virt_ip = elim (find_peer_by_vip peers virt_ip) [
  | none ↦ none
  | some idx ↦ some (snapshot_peer (peer_at peers idx) idx)
]

-- Whether a slot still holds the peer of a snapshot.
abbrev pub still_holds : Peer → Snapshot → Bool
still_holds p s =
    p.active
    && (p.virt_ip == s.virt_ip)
    && (p.real_addr.ip == s.real_addr.ip)
    && (p.real_addr.port == s.real_addr.port)

unfoldable pub add_peer_bytes_out : Server → Snapshot → ℕ → Server
add_peer_bytes_out srv s bytes_out =
    let current = peer_at srv.peers s.idx in
    if bytes_out == 0
    then srv
    else if ltb s.idx max_peers && still_holds current s
    then record srv {
      peers =
          set srv.peers s.idx (record current { bytes_out = add64 current.bytes_out bytes_out });
    }
    else srv

-- The loop of `server_send_peer_snapshots`, which the two broadcasts share.
unfoldable pub send_peer_snapshots :
    Os → World → Server → List Snapshot → Option (List ℕ) → ℕ → Server × World
send_peer_snapshots os w srv [] msg bytes_out = (srv, w)
send_peer_snapshots os w srv (s ∷ ss) msg bytes_out =
    let (sent, w') = net_send os w msg s.real_addr in
    send_peer_snapshots os w' (if sent then add_peer_bytes_out srv s bytes_out else srv) ss msg
      bytes_out

unfoldable pub server_broadcast :
    Os → World → Server → Option (List ℕ) → Option ℕ → ℕ → Server × World
server_broadcast os w srv msg exclude bytes_out =
    send_peer_snapshots os w srv (snapshot_broadcast srv.peers exclude) msg bytes_out
