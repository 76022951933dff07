-- ===== src/Examples/Server.antt =====
-- Runs of the server's theorems.
use tund.Base.{
  max, ℕ, ◌*◌, ◌-◌, min, [], ◌∷◌, none, some, true, false, ◌&&◌, ltb, if◌then◌else◌, length,
  get_elem?, ◌⊎◌, ◌↔◌, ◌≡◌, ◌≢◌, ◌≤◌, refl, arith, replicate, length-replicate,
}
use tund.Protocol.Constants.{ip_start, ip_end}
use tund.Protocol.Bytes.{htonl}
use tund.Peers.{Peer, empty_peer, find_index, smooth_rtt_ms}
use tund.Peers.Rtt.{smooth_rtt_ms-bounds}
use tund.Peers.Table.{Holds}
use tund.Server.State.{
  Server, Snapshot, server_init_table, alloc_ip, find_peer_by_addr, snapshot_peer,
  snapshot_broadcast,
}
use tund.Server.Invariant.{IsValid}
use tund.Server.Register.{register_locked, peer_list_payload}
use tund.Server.Admission.{Admits, register_locked-Admits}
use tund.Server.Authentic.{IsAuthentic, handle_data-IsAuthentic}
use tund.Server.Exact.{IsIn, IsAnother, sweep_locked-exact, snapshot_broadcast-exact}
use tund.Server.PeerList.{read_peer_entry-peer_list_payload, length-peer_list_payload}
use tund.Protocol.Messages.{read_peer_entry}
use tund.Protocol.Messages.Entries.{name_array}
use tund.Server.Data.{handle_data, tun_round}
use tund.Server.Timeout.{sweep_locked, timeout_round}
use tund.Server.Dispatch.{Clock, handle_packet}
use tund.Server.Pool.{alloc_ip-granted}
use tund.Server.Threads.{
  Reach, here, next, registers, server_init_table-IsValid, server_always-IsValid,
}
use tund.Server.Handlers.{handlers_keep-IsValid}
use tund.Examples.{plain_os, first_world, alice, alice_vip, alice_addr, small_packet}

-- The server after the first registration.
abbrev one_peer : Server
one_peer = (register_locked server_init_table (97 ∷ []) 1 alice_addr 7 50).1

one_peer-Reach : Reach server_init_table one_peer
one_peer-Reach = next here (registers (97 ∷ []) 1 alice_addr 7 50)

server_always-IsValid_example : IsValid one_peer
server_always-IsValid_example = server_always-IsValid one_peer one_peer-Reach

abbrev clock : Clock
clock = record { time = 60; ms = 60000 }

handlers_keep-IsValid_example :
    IsValid (handle_packet plain_os first_world server_init_table small_packet alice_addr clock).0
    × IsValid (tun_round plain_os first_world server_init_table small_packet).0
    × IsValid (timeout_round plain_os first_world server_init_table 60 60000).0
handlers_keep-IsValid_example =
    handlers_keep-IsValid plain_os first_world server_init_table small_packet small_packet
      alice_addr clock server_init_table-IsValid

alloc_ip-granted_example :
    (host : ℕ) × (ip_start ≤ host)
    × (host ≤ ip_end)
    × (alloc_ip (replicate 253 empty_peer) ≡ htonl host)
    × ((j : ℕ) (q : Peer) → Holds (replicate 253 empty_peer) j q → q.virt_ip ≢ htonl host)
alloc_ip-granted_example =
    alloc_ip-granted (replicate 253 empty_peer) 0 empty_peer
      (length-replicate {A = Peer} 253 empty_peer) refl refl

abbrev alice_alone : Server
alice_alone = record { peers = alice ∷ []; peer_count = 1 }

unregistered_alice : find_peer_by_addr server_init_table.peers alice_addr ≡ none
unfolding find_peer_by_addr find_index server_init_table
unregistered_alice = refl

register_locked-Admits_example :
    Admits server_init_table
      (97 ∷ [])
      1
      alice_addr
      7
      50
      (register_locked server_init_table (97 ∷ []) 1 alice_addr 7 50)
register_locked-Admits_example =
    register_locked-Admits server_init_table (97 ∷ []) 1 alice_addr 7 50 server_init_table-IsValid
      unregistered_alice

handle_data-IsAuthentic_example :
    (handle_data plain_os first_world alice_alone small_packet 20 alice_addr
      ≡ (alice_alone, first_world))
    ⊎ IsAuthentic alice_alone small_packet 20 alice_addr
handle_data-IsAuthentic_example =
    handle_data-IsAuthentic plain_os first_world alice_alone small_packet 20 alice_addr

sweep_locked-exact_example :
    get_elem? (sweep_locked alice_alone 90).3.peers 0
    ≡ some (
        if alice.active && ltb 30 (90 - alice.last_seen)
        then record alice { active = false }
        else alice)
sweep_locked-exact_example = sweep_locked-exact alice_alone 90 0 alice refl

snapshot_broadcast-exact_example :
    IsIn (snapshot_peer alice 0) (snapshot_broadcast (alice ∷ []) (some 5))
    ↔ IsAnother (alice ∷ []) 5 (snapshot_peer alice 0)
snapshot_broadcast-exact_example = snapshot_broadcast-exact (alice ∷ []) 5 (snapshot_peer alice 0)

abbrev bob_snapshot : Snapshot
bob_snapshot = record {
  idx = 4;
  virt_ip = alice_vip;
  name = 98 ∷ 111 ∷ 98 ∷ [];
  real_addr = alice_addr;
}

read_peer_entry-peer_list_payload_example :
    read_peer_entry
      (peer_list_payload 0 (bob_snapshot ∷ []))
      (length (peer_list_payload 0 (bob_snapshot ∷ [])))
      0
    ≡ some (record { virt_ip = alice_vip; name = name_array (98 ∷ 111 ∷ 98 ∷ []); online = true })
read_peer_entry-peer_list_payload_example =
    read_peer_entry-peer_list_payload (bob_snapshot ∷ []) 0 bob_snapshot refl (omega arith)
      (omega arith)

length-peer_list_payload_example :
    length (peer_list_payload (37 * 42) (bob_snapshot ∷ bob_snapshot ∷ [])) ≡ 37 * min (43 - 42) 2
length-peer_list_payload_example =
    length-peer_list_payload 42 (bob_snapshot ∷ bob_snapshot ∷ []) (omega arith)

smooth_rtt_ms-bounds_example :
    (min 40 80 ≤ smooth_rtt_ms 40 80 true) × (smooth_rtt_ms 40 80 true ≤ max 40 80)
smooth_rtt_ms-bounds_example = smooth_rtt_ms-bounds 40 80 (omega arith) (omega arith)
