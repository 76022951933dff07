-- ===== src/Server/Handlers.antt =====
-- The handlers of src/core/server and the rounds of its threads as runs of critical sections.
use tund.Base.{
  ℕ, Bool, true, false, List, [], ◌∷◌, Option, none, inl, inr, if◌then◌else◌, Bool-cases,
  Option-cases, ltb, ◌==◌, length,
}
use tund.World.{Addr, World, Os, peer_leave}
use tund.Protocol.Constants.{
  broadcast_host, msg_register, msg_data, msg_keepalive, msg_keepalive_ack, msg_disconnect,
}
use tund.Protocol.Bytes.{htonl}
use tund.Protocol.Messages.{read_keepalive_timestamp, build_peer_leave, build_data, build_keepalive}
use tund.Protocol.Ipv4.{Verdict, ok, validate_ipv4_packet, get_src_ip, get_dst_ip}
use tund.Net.{net_send}
use tund.Server.State.{
  Server, Snapshot, add_peer_bytes_out, send_peer_snapshots, snapshot_broadcast,
  snapshot_peer_by_vip,
}
use tund.Server.Invariant.{IsValid}
use tund.Server.Register.{handle_register}
use tund.Server.Data.{
  Routing, to_server, to_all, to_one, data_locked, forward_unicast, forward, handle_data, tun_route,
  tun_round,
}
use tund.Server.Session.{
  handle_keepalive, handle_keepalive_ack, handle_disconnect, disconnect_locked,
  accept_registered_sequence,
}
use tund.Server.Timeout.{sweep_locked, timeout_reason, tell_expired, timeout_round}
use tund.Server.Dispatch.{Clock, Message, parse_message, dispatch, handle_message, handle_packet}
use tund.Server.Threads.{
  registers, accepts, keeps, acks, disconnects, routes, counts, sweeps, Reach, here, next,
  Reach-trans, Reach-IsValid,
}

counted_or_not :
    (srv : Server) (b : Bool) (s : Snapshot) (n : ℕ)
    → Reach srv (if b then add_peer_bytes_out srv s n else srv)
counted_or_not srv true s n = next here (counts s n)
counted_or_not srv false s n = here

pub send_peer_snapshots-Reach :
    (os : Os) (w : World) (srv : Server) (ss : List Snapshot) (msg : Option (List ℕ)) (n : ℕ)
    → Reach srv (send_peer_snapshots os w srv ss msg n).0
unfolding send_peer_snapshots
send_peer_snapshots-Reach os w srv [] msg n = here
send_peer_snapshots-Reach os w srv (s ∷ ss) msg n =
    let (sent, w') = net_send os w msg s.real_addr in
    Reach-trans (counted_or_not srv sent s n)
      (send_peer_snapshots-Reach os w' (if sent then add_peer_bytes_out srv s n else srv) ss msg n)

forward_unicast-Reach :
    (os : Os) (w : World) (srv : Server) (s : Snapshot) (msg : Option (List ℕ)) (n : ℕ)
    → Reach srv (forward_unicast os w srv s msg n).0
unfolding forward_unicast
forward_unicast-Reach os w srv s msg n = counted_or_not srv (net_send os w msg s.real_addr).0 s n

forward-Reach :
    (os : Os) (w : World) (srv : Server) (r : Routing) (payload : List ℕ) (plen : ℕ)
    → Reach srv (forward os w srv r payload plen).0
unfolding forward
forward-Reach os w srv to_server payload plen = here
forward-Reach os w srv (to_all peers) payload plen =
    let (msg, w1) = build_data os w payload plen in
    send_peer_snapshots-Reach os w1 srv peers msg plen
forward-Reach os w srv (to_one s) payload plen =
    let (msg, w1) = build_data os w payload plen in forward_unicast-Reach os w1 srv s msg plen
forward-Reach os w srv _ payload plen = here

-- `server_handle_data`, by the verdict on the packet.
handle_data-Reach :
    (os : Os) (w : World) (srv : Server) (payload : List ℕ) (plen : ℕ) (from : Addr)
    → Reach srv (handle_data os w srv payload plen from).0
unfolding handle_data
handle_data-Reach os w srv payload plen from = by_verdict (validate_ipv4_packet payload plen)
  where
    by_verdict :
        (v : Verdict)
        → Reach srv
            (elim v as (λ _. Server × World) [
              | ok ↦
                  let (routing, srv') =
                    data_locked srv (get_src_ip payload plen) (get_dst_ip payload plen) plen from in
                  forward os w srv' routing payload plen
              | _ ↦ (srv, w)
            ]).0
    by_verdict ok =
        let (routing, srv') =
          data_locked srv (get_src_ip payload plen) (get_dst_ip payload plen) plen from in
        Reach-trans
          (next here (routes (get_src_ip payload plen) (get_dst_ip payload plen) plen from))
          (forward-Reach os w srv' routing payload plen)
    by_verdict _ = here

handle_keepalive-Reach :
    (os : Os) (w : World) (srv : Server) (payload : List ℕ) (plen : ℕ) (from : Addr) (now : ℕ)
    → Reach srv (handle_keepalive os w srv payload plen from now).0
unfolding handle_keepalive
handle_keepalive-Reach os w srv payload plen from now =
    elim (Option-cases (read_keepalive_timestamp payload plen)) [
      | inl short ↦ rw (short, handle_keepalive) here
      | inr (sent_at, read) ↦ rw (read, handle_keepalive) (next here (keeps from now))
    ]

handle_keepalive_ack-Reach :
    (srv : Server) (payload : List ℕ) (plen : ℕ) (from : Addr) (now now_ms : ℕ)
    → Reach srv (handle_keepalive_ack srv payload plen from now now_ms)
unfolding handle_keepalive_ack
handle_keepalive_ack-Reach srv payload plen from now now_ms =
    elim (Option-cases (read_keepalive_timestamp payload plen)) [
      | inl short ↦ rw (short, handle_keepalive_ack) here
      | inr (sent_at, read) ↦ elim (Bool-cases (ltb now_ms sent_at)) [
        | inl ahead ↦ rw (read, handle_keepalive_ack, ahead) here
        | inr behind ↦ rw (read, handle_keepalive_ack, behind) (next here (acks from _ now))
      ]
    ]

handle_disconnect-Reach :
    (os : Os) (w : World) (srv : Server) (from : Addr)
    → Reach srv (handle_disconnect os w srv from).0
unfolding handle_disconnect
handle_disconnect-Reach os w srv from = elim (Option-cases (disconnect_locked srv from).0) [
  | inl unknown ↦ rw (unknown, handle_disconnect) (next here (disconnects from))
  | inr (vip, left) ↦
      rw (left, handle_disconnect)
        (Reach-trans (next here (disconnects from)) (
          send_peer_snapshots-Reach os (build_peer_leave os w vip).1 (disconnect_locked srv from).1
            _ (build_peer_leave os w vip).0 0))
]

handle_register-Reach :
    (os : Os) (w : World) (srv : Server) (payload : List ℕ) (plen : ℕ) (from : Addr)
    (sequence now : ℕ)
    → Reach srv (handle_register os w srv payload plen from sequence now).0
unfolding handle_register
handle_register-Reach os w srv payload plen from sequence now =
    next here (registers payload plen from sequence now)

dispatch-Reach :
    (os : Os) (w : World) (srv : Server) (m : Message) (from : Addr) (clock : Clock)
    → Reach srv (dispatch os w srv m from clock).0
unfolding dispatch
dispatch-Reach os w srv m from clock =
    by_type (m.type == msg_register) (m.type == msg_data) (m.type == msg_keepalive)
      (m.type == msg_keepalive_ack) (m.type == msg_disconnect)
  where
    by_type :
        (a b c d e : Bool)
        → Reach srv
            (if a
              then handle_register os w srv m.payload m.payload_len from m.sequence clock.time
              else if b
              then handle_data os w srv m.payload m.payload_len from
              else if c
              then handle_keepalive os w srv m.payload m.payload_len from clock.time
              else if d
              then (handle_keepalive_ack srv m.payload m.payload_len from clock.time clock.ms, w)
              else if e
              then handle_disconnect os w srv from
              else (srv, w)).0
    by_type true b c d e =
        handle_register-Reach os w srv m.payload m.payload_len from m.sequence clock.time
    by_type false true c d e = handle_data-Reach os w srv m.payload m.payload_len from
    by_type false false true d e =
        handle_keepalive-Reach os w srv m.payload m.payload_len from clock.time
    by_type false false false true e =
        handle_keepalive_ack-Reach srv m.payload m.payload_len from clock.time clock.ms
    by_type false false false false true = handle_disconnect-Reach os w srv from
    by_type false false false false false = here

handle_message-Reach :
    (os : Os) (w : World) (srv : Server) (m : Message) (from : Addr) (clock : Clock)
    → Reach srv (handle_message os w srv m from clock).0
unfolding handle_message
handle_message-Reach os w srv m from clock = elim (Bool-cases (m.type == msg_register)) [
  | inl register ↦ rw (register, handle_message) (dispatch-Reach os w srv m from clock)
  | inr other ↦ elim (Bool-cases (accept_registered_sequence srv from m.sequence).0) [
    | inl fresh ↦
        rw (other, handle_message, fresh)
          (Reach-trans (next here (accepts from m.sequence))
            (dispatch-Reach os w (accept_registered_sequence srv from m.sequence).1 m from clock))
    | inr old ↦ rw (other, handle_message, old) (next here (accepts from m.sequence))
  ]
]

-- Whatever datagram arrives, `server_handle_packet` is a run of critical sections.
pub handle_packet-Reach :
    (os : Os) (w : World) (srv : Server) (buf : List ℕ) (from : Addr) (clock : Clock)
    → Reach srv (handle_packet os w srv buf from clock).0
unfolding handle_packet
handle_packet-Reach os w srv buf from clock = elim (Option-cases (parse_message buf)) [
  | inl bad ↦ rw (bad, handle_packet) here
  | inr (m, parsed) ↦ rw (parsed, handle_packet) (handle_message-Reach os w srv m from clock)
]

tun_route-Reach :
    (os : Os) (w : World) (srv : Server) (dst : ℕ) (msg : Option (List ℕ)) (n : ℕ)
    → Reach srv (tun_route os w srv dst msg n).0
unfolding tun_route
tun_route-Reach os w srv dst msg n = elim (Bool-cases (dst == htonl broadcast_host)) [
  | inl all ↦
      rw (all, tun_route)
        (send_peer_snapshots-Reach os w srv (snapshot_broadcast srv.peers none) msg n)
  | inr other ↦ elim (Option-cases (snapshot_peer_by_vip srv.peers dst)) [
    | inl nobody ↦ rw (other, tun_route, nobody) here
    | inr (s, found) ↦ rw (other, tun_route, found) (forward_unicast-Reach os w srv s msg n)
  ]
]

tun_round-Reach :
    (os : Os) (w : World) (srv : Server) (pkt : List ℕ) → Reach srv (tun_round os w srv pkt).0
unfolding tun_round
tun_round-Reach os w srv pkt = by_verdict (validate_ipv4_packet pkt (length pkt))
  where
    by_verdict :
        (v : Verdict)
        → Reach srv
            (elim v as (λ _. Server × World) [
              | ok ↦
                  let (msg, w1) = build_data os w pkt (length pkt) in
                  tun_route os w1 srv (get_dst_ip pkt (length pkt)) msg (length pkt)
              | _ ↦ (srv, w)
            ]).0
    by_verdict ok =
        let (msg, w1) = build_data os w pkt (length pkt) in
        tun_route-Reach os w1 srv (get_dst_ip pkt (length pkt)) msg (length pkt)
    by_verdict _ = here

tell_expired-Reach :
    (os : Os) (w : World) (srv : Server) (leave expired : List Snapshot)
    → Reach srv (tell_expired os w srv leave expired).0
unfolding tell_expired
tell_expired-Reach os w srv leave [] = here
tell_expired-Reach os w srv leave (s ∷ ss) =
    let w1 = record w { events = peer_leave s.virt_ip timeout_reason ∷ w.events } in
    let (msg, w2) = build_peer_leave os w1 s.virt_ip in
    let (srv', w3) = send_peer_snapshots os w2 srv leave msg 0 in
    Reach-trans (send_peer_snapshots-Reach os w2 srv leave msg 0)
      (tell_expired-Reach os w3 srv' leave ss)

timeout_round-Reach :
    (os : Os) (w : World) (srv : Server) (now now_ms : ℕ)
    → Reach srv (timeout_round os w srv now now_ms).0
unfolding timeout_round
timeout_round-Reach os w srv now now_ms =
    let (expired, leave_peers, alive, srv1) = sweep_locked srv now in
    Reach-trans (next here (sweeps now))
      (tell_expired-Reach os (build_keepalive os w now_ms).1 srv1 leave_peers expired)

-- From a valid table, server_handle_packet on any datagram, a round of the TUN thread and a round
-- of the timeout thread each leave a valid table.
pub handlers_keep-IsValid :
    (os : Os) (w : World) (srv : Server) (buf pkt : List ℕ) (from : Addr) (clock : Clock)
    → IsValid srv
    → IsValid (handle_packet os w srv buf from clock).0
      × IsValid (tun_round os w srv pkt).0
      × IsValid (timeout_round os w srv clock.time clock.ms).0
handlers_keep-IsValid os w srv buf pkt from clock v = (
  Reach-IsValid v (handle_packet-Reach os w srv buf from clock),
  Reach-IsValid v (tun_round-Reach os w srv pkt),
  Reach-IsValid v (timeout_round-Reach os w srv clock.time clock.ms),
)
