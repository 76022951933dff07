-- ===== src/Client/Handlers.antt =====
-- src/core/client/handlers.c. Log lines are not modelled.
use tund.Base.{
  ℕ, zero, suc, ◌+◌, ◌-◌, Bool, true, false, not, List, ◌∷◌, none, some, ltb, ◌==◌, if◌then◌else◌,
  set, take, drop, length,
}
use tund.World.{World, Os}
use tund.Protocol.Constants.{
  hdr_size, name_len, msg_data, msg_keepalive, msg_keepalive_ack, msg_disconnect, msg_peer_list,
  msg_peer_join, msg_peer_leave,
}
use tund.Protocol.Bytes.{load32}
use tund.Protocol.Text.{c_string}
use tund.Protocol.Header.{ok, read_hdr, read_sequence}
use tund.Protocol.Replay.{replay_accept}
use tund.Protocol.Ipv4.{ok as valid_packet, get_src_ip, validate_ipv4_packet}
use tund.Protocol.Messages.{
  build_keepalive_ack, read_keepalive_timestamp, read_peer_entry, peer_entry_count,
}
use tund.Peers.{peer_at, find_index, has_vip, smooth_rtt_ms}
use tund.Net.{net_send}
use tund.Client.State.{Client, update_peer, add_peer_traffic, mark_server_seen}

unfoldable pub handle_keepalive : Os → World → Client → List ℕ → ℕ → World
handle_keepalive os w cli payload plen = elim (read_keepalive_timestamp payload plen) [
  | none ↦ w
  | some sent_at ↦
      let (msg, w1) = build_keepalive_ack os w sent_at in (net_send os w1 msg cli.server_addr).1
]

unfoldable pub handle_keepalive_ack : Client → List ℕ → ℕ → ℕ → Client
handle_keepalive_ack cli payload plen now_ms = elim (read_keepalive_timestamp payload plen) [
  | none ↦ cli
  | some sent_at ↦ if ltb now_ms sent_at then cli else record cli {
    server_rtt_ms = smooth_rtt_ms cli.server_rtt_ms (now_ms - sent_at) cli.has_server_rtt;
    has_server_rtt = true;
  }
]

-- The loop over the entries, with so many of them left.
unfoldable pub peer_list_loop : Client → List ℕ → ℕ → ℕ → ℕ → ℕ → Client
peer_list_loop cli payload plen now zero i = cli
peer_list_loop cli payload plen now (suc left) i = elim (read_peer_entry payload plen i) [
  | none ↦ cli
  | some e ↦
      peer_list_loop (update_peer cli e.virt_ip (c_string e.name) e.online now) payload plen now
        left (i + 1)
]

unfoldable pub handle_peer_list : Client → List ℕ → ℕ → ℕ → Client
unfolding peer_list_loop
handle_peer_list cli payload plen now =
    peer_list_loop cli payload plen now (peer_entry_count plen) 0

unfoldable pub handle_peer_join : Client → List ℕ → ℕ → ℕ → Client
handle_peer_join cli payload plen now =
    if ltb plen (4 + name_len)
    then cli
    else update_peer cli (load32 payload) (c_string (take name_len (drop 4 payload))) true now

unfoldable pub peer_left : Client → ℕ → Client
peer_left cli vip = elim (find_index (has_vip vip) cli.peers) [
  | none ↦ cli
  | some i ↦ record cli {
    peers = set cli.peers i (record (peer_at cli.peers i) { active = false });
    peer_count = cli.peer_count - 1;
  }
]

unfoldable pub handle_peer_leave : Client → List ℕ → ℕ → Client
unfolding peer_left
handle_peer_leave cli payload plen = if ltb plen 4 then cli else peer_left cli (load32 payload)

unfoldable pub handle_data : World → Client → List ℕ → ℕ → Client × World
handle_data w cli payload plen = elim (validate_ipv4_packet payload plen) [
  | valid_packet ↦ (
    add_peer_traffic cli (get_src_ip payload plen) plen 0,
    record w { tun_out = take plen payload ∷ w.tun_out },
  )
  | _ ↦ (cli, w)
]

-- The switch on the type.
unfoldable pub dispatch : Os → World → Client → ℕ → List ℕ → ℕ → ℕ → ℕ → Client × World
dispatch os w cli type payload plen now now_ms =
    if type == msg_data
    then handle_data w cli payload plen
    else if type == msg_peer_list
    then (handle_peer_list cli payload plen now, w)
    else if type == msg_peer_join
    then (handle_peer_join cli payload plen now, w)
    else if type == msg_peer_leave
    then (handle_peer_leave cli payload plen, w)
    else if type == msg_keepalive
    then (cli, handle_keepalive os w cli payload plen)
    else if type == msg_keepalive_ack
    then (handle_keepalive_ack cli payload plen now_ms, w)
    else if type == msg_disconnect
    then (cli, record w { running = false })
    else (cli, w)

-- The sequence check, which the handshake shares: the verdict, and the window after it.
unfoldable pub accept_server_sequence : Client → List ℕ → Bool × Client
accept_server_sequence cli buf = elim (read_sequence buf) [
  | none ↦ (false, cli)
  | some sequence ↦
      let (accepted, window) = replay_accept cli.server_replay sequence in
      (accepted, record cli { server_replay = window })
]

unfoldable pub after_header : Os → World → Client → List ℕ → ℕ → ℕ → ℕ → ℕ → Client × World
after_header os w cli buf type payload_len now now_ms =
    if ltb (length buf) (hdr_size + payload_len)
    then (cli, w)
    else let (accepted, cli') = accept_server_sequence cli buf in
      if not accepted
      then (cli', w)
      else dispatch os w (mark_server_seen cli' now) type (drop hdr_size buf) payload_len now now_ms

-- `client_handle_server_packet`.
unfoldable pub handle_server_packet : Os → World → Client → List ℕ → ℕ → ℕ → Client × World
handle_server_packet os w cli buf now now_ms = elim (read_hdr buf) [
  | ok type payload_len ↦ after_header os w cli buf type payload_len now now_ms
  | _ ↦ (cli, w)
]
