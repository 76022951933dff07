-- ===== src/Server/Timeout.antt =====
-- A round of `server_timeout_thread` of src/core/server/threads.c, and the farewell of
-- `server_shutdown` of server.c.
use tund.Base.{
  ℕ, suc, ◌-◌, Bool, true, false, ◌&&◌, List, [], ◌∷◌, Option, none, ltb, if◌then◌else◌, length,
}
use tund.World.{World, Os, peer_leave}
use tund.Protocol.Constants.{peer_timeout}
use tund.Protocol.Messages.{build_keepalive, build_peer_leave, build_disconnect}
use tund.Peers.{Peer}
use tund.Net.{net_send}
use tund.Server.State.{Server, Snapshot, snapshot_peer, snapshot_broadcast, send_peer_snapshots}

-- `now - last_seen` is signed in the source: a last_seen ahead of the clock is no timeout here too.
abbrev pub timed_out : Peer → ℕ → Bool
timed_out p now = p.active && ltb peer_timeout (now - p.last_seen)

-- What the loop under the lock collects, and the table after it.
pub record Sweep : Type 0 where
  pub expired : List Snapshot
  pub alive : List Snapshot
  pub table : List Peer

-- One slot of the loop, by whether it timed out and whether it is active.
unfoldable pub sweep_slot : Peer → ℕ → Sweep → Bool → Bool → Sweep
sweep_slot p i rest true _ = record {
  expired = snapshot_peer p i ∷ rest.expired;
  alive = rest.alive;
  table = record p { active = false } ∷ rest.table;
}
sweep_slot p i rest false true = record rest {
  alive = snapshot_peer p i ∷ rest.alive;
  table = p ∷ rest.table;
}
sweep_slot p i rest false false = record rest { table = p ∷ rest.table }

unfoldable pub sweep_from : ℕ → List Peer → ℕ → Sweep
unfolding sweep_slot
sweep_from i [] now = record { expired = []; alive = []; table = [] }
sweep_from i (p ∷ ps) now = sweep_slot p i (sweep_from (suc i) ps now) (timed_out p now) p.active

-- The part under the lock: those that expired, those told of it, those to probe, and the server.
unfoldable pub sweep_locked : Server → ℕ → List Snapshot × List Snapshot × List Snapshot × Server
sweep_locked srv now =
    let sweep = sweep_from 0 srv.peers now in
    (
      sweep.expired,
      if ltb 0 (length sweep.expired) then snapshot_broadcast sweep.table none else [],
      sweep.alive,
      record { peers = sweep.table; peer_count = srv.peer_count - length sweep.expired },
    )

-- "timeout"
abbrev pub timeout_reason : List ℕ
timeout_reason = b't' ∷ b'i' ∷ b'm' ∷ b'e' ∷ b'o' ∷ b'u' ∷ b't' ∷ []

-- The loop over the expired peers.
unfoldable pub tell_expired : Os → World → Server → List Snapshot → List Snapshot → Server × World
tell_expired os w srv leave_peers [] = (srv, w)
tell_expired os w srv leave_peers (s ∷ ss) =
    let w1 = record w { events = peer_leave s.virt_ip timeout_reason ∷ w.events } in
    let (msg, w2) = build_peer_leave os w1 s.virt_ip in
    let (srv', w3) = send_peer_snapshots os w2 srv leave_peers msg 0 in
    tell_expired os w3 srv' leave_peers ss

-- The loop that probes.
unfoldable pub probe : Os → World → Option (List ℕ) → List Snapshot → World
probe os w msg [] = w
probe os w msg (s ∷ ss) = let (_, w') = net_send os w msg s.real_addr in probe os w' msg ss

unfoldable pub timeout_round : Os → World → Server → ℕ → ℕ → Server × World
unfolding tell_expired probe
timeout_round os w srv now now_ms =
    let (msg, w1) = build_keepalive os w now_ms in
    let (expired, leave_peers, alive, srv1) = sweep_locked srv now in
    let (srv2, w2) = tell_expired os w1 srv1 leave_peers expired in (srv2, probe os w2 msg alive)

-- A DISCONNECT to every active peer.
unfoldable pub shutdown_farewell : Os → World → Server → Server × World
shutdown_farewell os w srv =
    let (msg, w1) = build_disconnect os w in
    send_peer_snapshots os w1 srv (snapshot_broadcast srv.peers none) msg 0
