-- ===== src/Client/State.antt =====
-- The client's peer table and session: src/core/client/peers.c and session.c.
use tund.Base.{
  ℕ, suc, ◌+◌, ◌-◌, Bool, true, false, not, ◌&&◌, List, [], ◌∷◌, Option, none, some, ltb, ◌==◌,
  if◌then◌else◌, set, take, map, replicate,
}
use tund.World.{Addr}
use tund.Protocol.Constants.{name_len, server_timeout}
use tund.Protocol.Replay.{Window, replay_reset}
use tund.Protocol.Text.{c_string, char_array}
use tund.Peers.{Peer, max_peers, empty_peer, peer_at, find_index, has_vip, add64}

-- The fields of `client_t` that the handlers use.
pub record Client : Type 0 where
  pub server_addr : Addr
  pub virt_ip : ℕ
  pub netmask : ℕ
  pub server_rtt_ms : ℕ
  pub has_server_rtt : Bool
  pub last_server_seen : ℕ
  pub server_replay : Window
  pub name : List ℕ
  pub peers : List Peer
  pub peer_count : ℕ

-- The fields as `client_init` sets them; `client_name` is the configuration's array.
unfoldable pub client_init_state : List ℕ → Addr → Client
client_init_state client_name server_addr = record {
  server_addr = server_addr;
  virt_ip = 0;
  netmask = 0;
  server_rtt_ms = 0;
  has_server_rtt = false;
  last_server_seen = 0;
  server_replay = replay_reset;
  name = char_array name_len (take (name_len - 1) (c_string client_name));
  peers = replicate max_peers empty_peer;
  peer_count = 0;
}

-- The loop of `client_update_peer`: it stops at the peer, and remembers the first free slot before.
pub record Found : Type 0 where
  pub idx : Option ℕ
  pub free_idx : Option ℕ

unfoldable pub find_from : ℕ → ℕ → List Peer → Option ℕ → Found
find_from vip i [] free = record { idx = none; free_idx = free }
find_from vip i (p ∷ ps) free =
    let rest =
      find_from vip (suc i) ps
        (if not p.active then elim free [ none ↦ some i | some f ↦ some f ] else free) in
    if has_vip vip p then record { idx = some i; free_idx = free } else rest

-- The fields that a peer gets when it is online; the name is a C string.
unfoldable pub online_peer : Peer → ℕ → List ℕ → ℕ → Peer
online_peer p vip name now = record p {
  active = true;
  virt_ip = vip;
  name = char_array name_len (take (name_len - 1) name);
  last_seen = now;
}

unfoldable pub fresh_counters : Peer → Peer
fresh_counters p = record p { bytes_in = 0; bytes_out = 0 }

-- The branch of `client_update_peer` that the look-up leads to.
unfoldable pub update_found : Client → ℕ → List ℕ → Bool → ℕ → Option ℕ → Option ℕ → Client
update_found cli vip name true now (some i) free = record cli {
  peers = set cli.peers i (online_peer (peer_at cli.peers i) vip name now);
}
update_found cli vip name true now none none = cli
update_found cli vip name true now none (some i) = record cli {
  peers = set cli.peers i (online_peer (fresh_counters (peer_at cli.peers i)) vip name now);
  peer_count = cli.peer_count + 1;
}
update_found cli vip name false now (some i) free = record cli {
  peers = set cli.peers i (record (peer_at cli.peers i) { active = false });
  peer_count = cli.peer_count - 1;
}
update_found cli vip name false now none free = cli

unfoldable pub update_peer : Client → ℕ → List ℕ → Bool → ℕ → Client
update_peer cli vip name online now =
    let found = find_from vip 0 cli.peers none in
    update_found cli vip name online now found.idx found.free_idx

-- The first active peer of that address.
unfoldable pub add_peer_traffic : Client → ℕ → ℕ → ℕ → Client
add_peer_traffic cli vip bytes_in bytes_out = elim (find_index (has_vip vip) cli.peers) [
  | none ↦ cli
  | some i ↦
      let p = peer_at cli.peers i in
      record cli {
        peers = set cli.peers i (record p {
          bytes_in = add64 p.bytes_in bytes_in;
          bytes_out = add64 p.bytes_out bytes_out;
        });
      }
]

unfoldable pub add_broadcast_traffic : Client → ℕ → Client
add_broadcast_traffic cli bytes_out = record cli {
  peers =
      map (λ p. if p.active then record p { bytes_out = add64 p.bytes_out bytes_out } else p)
        cli.peers;
}

-- `time_t` is 0 here when the source's is 0 or negative.
unfoldable pub mark_server_seen : Client → ℕ → Client
mark_server_seen cli now = if ltb 0 now then record cli { last_server_seen = now } else cli

unfoldable pub server_timed_out : Client → ℕ → Bool
server_timed_out cli now =
    if cli.last_server_seen == 0
    then false
    else if now == 0
    then false
    else ltb cli.last_server_seen now && ltb server_timeout (now - cli.last_server_seen)
