-- ===== src/Client/Rounds.antt =====
-- The rounds of the client's two threads, and the turn of its receive loop: src/core/client/client.c.
use tund.Base.{ℕ, false, not, List, ◌==◌, if◌then◌else◌, length}
use tund.World.{World, Os, addr_eq}
use tund.Protocol.Constants.{broadcast_host}
use tund.Protocol.Bytes.{htonl}
use tund.Protocol.Ipv4.{ok, get_dst_ip, validate_ipv4_packet}
use tund.Protocol.Messages.{build_keepalive, build_data, build_disconnect}
use tund.Net.{net_send, Received, packet}
use tund.Client.State.{Client, add_peer_traffic, add_broadcast_traffic, server_timed_out}
use tund.Client.Handlers.{handle_server_packet}

-- A round of `client_keepalive_thread`, after its ten seconds of sleep.
unfoldable pub keepalive_round : Os → World → Client → ℕ → ℕ → World
keepalive_round os w cli now now_ms =
    let (msg, w1) = build_keepalive os w now_ms in
    let (_, w2) = net_send os w1 msg cli.server_addr in
    if server_timed_out cli now then record w { running = false } else w2

-- The counters that a packet from the TUN device moves.
unfoldable pub count_outgoing : Client → ℕ → ℕ → Client
count_outgoing cli dst_ip n =
    if dst_ip == htonl broadcast_host
    then add_broadcast_traffic cli n
    else add_peer_traffic cli dst_ip 0 n

-- A round of `client_tun_thread`.
unfoldable pub tun_round : Os → World → Client → List ℕ → Client × World
tun_round os w cli pkt = elim (validate_ipv4_packet pkt (length pkt)) [
  | ok ↦
      let (msg, w1) = build_data os w pkt (length pkt) in
      let (sent, w2) = net_send os w1 msg cli.server_addr in
      (if sent then count_outgoing cli (get_dst_ip pkt (length pkt)) (length pkt) else cli, w2)
  | _ ↦ (cli, w)
]

-- A turn of the loop of `client_run`: only the server's datagrams are looked at.
unfoldable pub receive_turn : Os → World → Client → Received → ℕ → ℕ → Client × World
receive_turn os w cli (packet buf from) now now_ms =
    if not (addr_eq from cli.server_addr)
    then (cli, w)
    else handle_server_packet os w cli buf now now_ms
receive_turn os w cli _ now now_ms = (cli, w)

-- The farewell of `client_shutdown`.
unfoldable pub shutdown_farewell : Os → World → Client → World
shutdown_farewell os w cli =
    let (msg, w1) = build_disconnect os w in (net_send os w1 msg cli.server_addr).1
