-- ===== src/Server/Session.antt =====
-- src/core/server/keepalive.c, and the disconnect and sequence check of handlers.c.
use tund.Base.{
  ℕ, ◌-◌, Bool, true, false, List, [], ◌∷◌, Option, none, some, ltb, if◌then◌else◌, set,
}
use tund.World.{Addr, World, Os, peer_leave}
use tund.Protocol.Replay.{replay_accept}
use tund.Protocol.Messages.{build_keepalive_ack, read_keepalive_timestamp, build_peer_leave}
use tund.Peers.{peer_at, smooth_rtt_ms}
use tund.Net.{net_send}
use tund.Server.State.{Server, find_peer_by_addr, snapshot_broadcast, send_peer_snapshots}

-- `server_accept_registered_sequence`: an unknown endpoint passes.
unfoldable pub accept_registered_sequence : Server → Addr → ℕ → Bool × Server
accept_registered_sequence srv from sequence = elim (find_peer_by_addr srv.peers from) [
  | none ↦ (true, srv)
  | some idx ↦
      let p = peer_at srv.peers idx in
      let (accepted, window) = replay_accept p.replay sequence in
      (accepted, record srv { peers = set srv.peers idx (record p { replay = window }) })
]

-- The part of `server_handle_keepalive` under the lock, and whether the peer is known.
unfoldable pub keepalive_locked : Server → Addr → ℕ → Bool × Server
keepalive_locked srv from now = elim (find_peer_by_addr srv.peers from) [
  | none ↦ (false, srv)
  | some idx ↦
      let p = peer_at srv.peers idx in
      (true, record srv { peers = set srv.peers idx (record p { last_seen = now }) })
]

reply_ack : Os → World → ℕ → Addr → World
reply_ack os w sent_at from =
    let (msg, w1) = build_keepalive_ack os w sent_at in (net_send os w1 msg from).1

unfoldable pub handle_keepalive : Os → World → Server → List ℕ → ℕ → Addr → ℕ → Server × World
unfolding reply_ack
handle_keepalive os w srv payload plen from now = elim (read_keepalive_timestamp payload plen) [
  | none ↦ (srv, w)
  | some sent_at ↦
      let (known, srv') = keepalive_locked srv from now in
      let w' = reply_ack os w sent_at from in (srv', if known then w' else w)
]

-- The part of `server_handle_keepalive_ack` under the lock.
unfoldable pub ack_locked : Server → Addr → ℕ → ℕ → Server
ack_locked srv from sample now = elim (find_peer_by_addr srv.peers from) [
  | none ↦ srv
  | some idx ↦
      let p = peer_at srv.peers idx in
      record srv {
        peers = set srv.peers idx (record p {
          last_seen = now;
          rtt_ms = smooth_rtt_ms p.rtt_ms sample p.has_rtt;
          has_rtt = true;
        });
      }
]

unfoldable pub handle_keepalive_ack : Server → List ℕ → ℕ → Addr → ℕ → ℕ → Server
handle_keepalive_ack srv payload plen from now now_ms =
    elim (read_keepalive_timestamp payload plen) [
      | none ↦ srv
      | some sent_at ↦
          if ltb now_ms sent_at then srv else ack_locked srv from (now_ms - sent_at) now
    ]

-- The part of `server_handle_disconnect` under the lock, and the address given up.
unfoldable pub disconnect_locked : Server → Addr → Option ℕ × Server
disconnect_locked srv from = elim (find_peer_by_addr srv.peers from) [
  | none ↦ (none, srv)
  | some idx ↦
      let p = peer_at srv.peers idx in
      (
        some p.virt_ip,
        record {
          peers = set srv.peers idx (record p { active = false });
          peer_count = srv.peer_count - 1;
        },
      )
]

-- "disconnect"
abbrev disconnect_reason : List ℕ
disconnect_reason = b'd' ∷ b'i' ∷ b's' ∷ b'c' ∷ b'o' ∷ b'n' ∷ b'n' ∷ b'e' ∷ b'c' ∷ b't' ∷ []

tell_leave : Os → World → Server → ℕ → Server × World
tell_leave os w srv vip =
    let (msg, w1) = build_peer_leave os w vip in
    let (srv', w2) = send_peer_snapshots os w1 srv (snapshot_broadcast srv.peers none) msg 0 in
    (srv', record w2 { events = peer_leave vip disconnect_reason ∷ w2.events })

unfoldable pub handle_disconnect : Os → World → Server → Addr → Server × World
unfolding tell_leave
handle_disconnect os w srv from =
    let (left, srv') = disconnect_locked srv from in
    elim left [ none ↦ (srv', w) | some vip ↦ tell_leave os w srv' vip ]
