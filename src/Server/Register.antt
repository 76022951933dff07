-- ===== src/Server/Register.antt =====
-- `server_handle_register` of src/core/server/handlers.c.
use tund.Base.{
  ℕ, ◌+◌, ◌-◌, true, false, not, ◌&&◌, List, [], ◌∷◌, ◌++◌, Option, none, some, ltb, ◌==◌,
  if◌then◌else◌, set, take, replicate, length,
}
use tund.World.{Addr, World, Os, peer_join}
use tund.Protocol.Constants.{
  hdr_size, max_plaintext, name_len, peer_entry_size, netmask, tun_mtu, msg_peer_list,
}
use tund.Protocol.Bytes.{htonl}
use tund.Protocol.Text.{char_array, decimal}
use tund.Protocol.Header.{write_hdr}
use tund.Protocol.Replay.{replay_accept, replay_reset}
use tund.Protocol.Messages.{build_assign, build_peer_join, write_peer_entry}
use tund.Peers.{Peer, peer_at, max_peers}
use tund.Net.{net_send}
use tund.Server.State.{
  Server, Snapshot, find_peer_by_addr, find_free_slot, alloc_ip, peer_name, snapshot_broadcast,
}

-- The entries that fit the payload, one after the other.
unfoldable pub peer_list_payload : ℕ → List Snapshot → List ℕ
peer_list_payload offset [] = []
peer_list_payload offset (s ∷ ss) =
    let rest = peer_list_payload (offset + peer_entry_size) ss in
    elim (write_peer_entry (max_plaintext - offset) s.virt_ip s.name true) [
      | none ↦ []
      | some entry ↦ entry ++ rest
    ]

-- The header's result is not looked at; `old` is what the buffer held in its place.
unfoldable pub build_peer_list : Os → World → List ℕ → List Snapshot → List ℕ × World
build_peer_list os w old entries =
    let payload = peer_list_payload 0 entries in
    let (_, hdr, w') = write_hdr os w old msg_peer_list (length payload) in (hdr ++ payload, w')

-- The loop over `join_dests`.
unfoldable pub send_joins : Os → World → Option (List ℕ) → List Snapshot → World
send_joins os w msg [] = w
send_joins os w msg (s ∷ ss) =
    let (_, w') = net_send os w msg s.real_addr in send_joins os w' msg ss

-- What the part under the lock decides.
pub data Registration : Type 0 where
  replayed table_full pool_exhausted : Registration
  refreshed : ℕ → List ℕ → Addr → Registration
  joined : ℕ → List ℕ → Addr → List Snapshot → Registration

-- "peer-%d"
default_name : ℕ → List ℕ
unfolding decimal
default_name idx = (b'p' ∷ b'e' ∷ b'e' ∷ b'r' ∷ b'-' ∷ []) ++ decimal 10 idx

-- The name array: the payload's first bytes, or "peer-%d" when there is no payload.
unfoldable pub initial_name : List ℕ → ℕ → ℕ → List ℕ
unfolding default_name
initial_name payload plen idx =
    if ltb 0 plen
    then char_array name_len (take (if ltb plen (name_len - 1) then plen else name_len - 1) payload)
    else char_array name_len (take (name_len - 1) (default_name idx))

-- A slot filled for a new peer.
unfoldable pub new_peer : List ℕ → ℕ → ℕ → ℕ → Addr → ℕ → ℕ → Peer
new_peer payload plen idx vip from sequence now = record {
  active = true;
  virt_ip = vip;
  name = initial_name payload plen idx;
  real_addr = from;
  last_seen = now;
  bytes_in = 0;
  bytes_out = 0;
  rtt_ms = 0;
  has_rtt = false;
  replay = (replay_accept replay_reset sequence).1;
}

-- The slot of a peer that registers again.
unfoldable pub register_known : Server → ℕ → ℕ → ℕ → Registration × Server
register_known srv idx sequence now =
    let p = peer_at srv.peers idx in
    let (accepted, window) = replay_accept p.replay sequence in
    if not accepted
    then (replayed, record srv { peers = set srv.peers idx (record p { replay = window }) })
    else (
      refreshed p.virt_ip (peer_name p) p.real_addr,
      record srv { peers = set srv.peers idx (record p { replay = window; last_seen = now }) },
    )

unfoldable pub register_new : Server → List ℕ → ℕ → Addr → ℕ → ℕ → Option ℕ → Registration × Server
register_new srv payload plen from sequence now none = (table_full, srv)
register_new srv payload plen from sequence now (some idx) =
    let vip = alloc_ip srv.peers in
    let p = new_peer payload plen idx vip from sequence now in
    let peers' = set srv.peers idx p in
    if vip == 0 then (pool_exhausted, srv) else (
      joined vip (peer_name p) from (snapshot_broadcast peers' (some idx)),
      record { peers = peers'; peer_count = srv.peer_count + 1 },
    )

-- All that runs under the lock.
unfoldable pub register_locked : Server → List ℕ → ℕ → Addr → ℕ → ℕ → Registration × Server
register_locked srv payload plen from sequence now = elim (find_peer_by_addr srv.peers from) [
  | some idx ↦ register_known srv idx sequence now
  | none ↦ register_new srv payload plen from sequence now (find_free_slot srv.peers)
]

-- The header bytes of a message, or of one that could not be built: these are written again before
-- they are used.
abbrev stale_hdr : Option (List ℕ) → List ℕ
stale_hdr none = replicate 37 0
stale_hdr (some buf) = take hdr_size buf

-- The messages that follow.
unfoldable pub announce : Os → World → Registration → World
unfolding build_peer_list send_joins
announce os w (refreshed vip name addr) =
    let (msg, w1) = build_assign os w vip (htonl netmask) tun_mtu in (net_send os w1 msg addr).1
announce os w (joined vip name addr others) =
    let (msg, w1) = build_assign os w vip (htonl netmask) tun_mtu in
    let (_, w2) = net_send os w1 msg addr in
    let w3 = record w2 { events = peer_join name vip addr ∷ w2.events } in
    let (list, w4) = build_peer_list os w3 (stale_hdr msg) others in
    let (_, w5) = net_send os w4 (some list) addr in
    let (join, w6) = build_peer_join os w5 vip name in send_joins os w6 join others
announce os w _ = w

unfoldable pub handle_register : Os → World → Server → List ℕ → ℕ → Addr → ℕ → ℕ → Server × World
handle_register os w srv payload plen from sequence now =
    let (outcome, srv') = register_locked srv payload plen from sequence now in
    (srv', announce os w outcome)

-- `server_send_peer_list`. Its entries are those of the other active slots, whose names a snapshot
-- holds too; an index out of range has no target.
unfoldable pub send_peer_list : Os → World → Server → ℕ → World
unfolding build_peer_list
send_peer_list os w srv idx =
    let target = peer_at srv.peers idx in
    if ltb idx max_peers && target.active
    then (let (list, w1) =
          build_peer_list os w (replicate 37 0) (snapshot_broadcast srv.peers (some idx)) in
        (net_send os w1 (some list) target.real_addr).1)
    else w
