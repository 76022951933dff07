-- ===== src/Client/Packets.antt =====
-- The invariant of the client's table and the handlers of src/core/client/handlers.c.
use tund.Base.{
  ℕ, zero, suc, ◌+◌, Bool, true, false, not, List, ◌∷◌, inl, inr, ltb, ◌==◌, if◌then◌else◌, length,
  Option-cases, take, drop,
}
use tund.World.{Addr, World, Os}
use tund.Protocol.Header.{HdrResult, ok, read_hdr, read_sequence}
use tund.Protocol.Ipv4.{Verdict, ok as valid_packet, get_src_ip, validate_ipv4_packet}
use tund.Protocol.Messages.{read_keepalive_timestamp, read_peer_entry, peer_entry_count}
use tund.Protocol.Text.{c_string}
use tund.Protocol.Constants.{
  msg_data, msg_keepalive, msg_keepalive_ack, msg_disconnect, msg_peer_list, msg_peer_join,
  msg_peer_leave,
}
use tund.Client.State.{Client, update_peer, add_peer_traffic, mark_server_seen}
use tund.Client.Handlers.{
  handle_keepalive_ack, peer_list_loop, handle_peer_list, handle_peer_join, handle_peer_leave,
  handle_data, dispatch, accept_server_sequence, after_header, handle_server_packet,
}
use tund.Client.State.{client_init_state}
use tund.Server.State.{server_init_table}
use tund.Server.Threads.{server_init_table-IsValid}
use tund.Client.Invariant.{
  IsValid, update_peer-IsValid, peer_left-IsValid, add_peer_traffic-IsValid,
}

peer_list_loop-IsValid :
    (cli : Client) (payload : List ℕ) (plen now left i : ℕ)
    → IsValid cli
    → IsValid (peer_list_loop cli payload plen now left i)
unfolding peer_list_loop
peer_list_loop-IsValid cli payload plen now zero i v = v
peer_list_loop-IsValid cli payload plen now (suc left) i v =
    elim (Option-cases (read_peer_entry payload plen i)) [
      | inl short ↦ rw (short, peer_list_loop) v
      | inr (e, read) ↦
          rw (read, peer_list_loop)
            (peer_list_loop-IsValid (update_peer cli e.virt_ip (c_string e.name) e.online now)
              payload plen now left (i + 1)
              (update_peer-IsValid cli e.virt_ip (c_string e.name) e.online now v))
    ]

either_way : (b : Bool) (c d : Client) → IsValid c → IsValid d → IsValid (if b then c else d)
either_way true c d v u = v
either_way false c d v u = u

handle_peer_join-IsValid :
    (cli : Client) (payload : List ℕ) (plen now : ℕ)
    → IsValid cli
    → IsValid (handle_peer_join cli payload plen now)
unfolding handle_peer_join
handle_peer_join-IsValid cli payload plen now v =
    either_way (ltb plen 36) cli _ v (update_peer-IsValid cli _ _ true now v)

handle_peer_leave-IsValid :
    (cli : Client) (payload : List ℕ) (plen : ℕ)
    → IsValid cli
    → IsValid (handle_peer_leave cli payload plen)
unfolding handle_peer_leave
handle_peer_leave-IsValid cli payload plen v =
    either_way (ltb plen 4) cli _ v (peer_left-IsValid cli _ v)

handle_keepalive_ack-IsValid :
    (cli : Client) (payload : List ℕ) (plen now_ms : ℕ)
    → IsValid cli
    → IsValid (handle_keepalive_ack cli payload plen now_ms)
unfolding handle_keepalive_ack
handle_keepalive_ack-IsValid cli payload plen now_ms v =
    elim (Option-cases (read_keepalive_timestamp payload plen)) [
      | inl short ↦ rw (short, handle_keepalive_ack) v
      | inr (sent_at, read) ↦
          rw (read, handle_keepalive_ack) (either_way (ltb now_ms sent_at) cli _ v v)
    ]

handle_data-IsValid :
    (w : World) (cli : Client) (payload : List ℕ) (plen : ℕ)
    → IsValid cli
    → IsValid (handle_data w cli payload plen).0
unfolding handle_data
handle_data-IsValid w cli payload plen v = by_verdict (validate_ipv4_packet payload plen)
  where
    by_verdict :
        (r : Verdict)
        → IsValid
            (elim r as (λ _. Client × World) [
              | valid_packet ↦ (
                add_peer_traffic cli (get_src_ip payload plen) plen 0,
                record w { tun_out = take plen payload ∷ w.tun_out },
              )
              | _ ↦ (cli, w)
            ]).0
    by_verdict valid_packet = add_peer_traffic-IsValid cli (get_src_ip payload plen) plen 0 v
    by_verdict _ = v

choose :
    (b : Bool) (x y : Client × World) → IsValid x.0 → IsValid y.0 → IsValid (if b then x else y).0
choose true x y v u = v
choose false x y v u = u

dispatch-IsValid :
    (os : Os) (w : World) (cli : Client) (type : ℕ) (payload : List ℕ) (plen now now_ms : ℕ)
    → IsValid cli
    → IsValid (dispatch os w cli type payload plen now now_ms).0
unfolding dispatch handle_peer_list
dispatch-IsValid os w cli type payload plen now now_ms v =
    choose (type == msg_data) _ _ (handle_data-IsValid w cli payload plen v) (
      choose (type == msg_peer_list) _ _
        (peer_list_loop-IsValid cli payload plen now (peer_entry_count plen) 0 v)
        (choose (type == msg_peer_join) _ _ (handle_peer_join-IsValid cli payload plen now v) (
          choose (type == msg_peer_leave) _ _ (handle_peer_leave-IsValid cli payload plen v) (
            choose (type == msg_keepalive) _ _ v (
              choose (type == msg_keepalive_ack) _ _
                (handle_keepalive_ack-IsValid cli payload plen now_ms v)
                (choose (type == msg_disconnect) _ (cli, w) v v))))))

accept_server_sequence-IsValid :
    (cli : Client) (buf : List ℕ) → IsValid cli → IsValid (accept_server_sequence cli buf).1
unfolding accept_server_sequence
accept_server_sequence-IsValid cli buf v = elim (Option-cases (read_sequence buf)) [
  | inl unset ↦ rw (unset, accept_server_sequence) v
  | inr (sequence, read) ↦ rw (read, accept_server_sequence) v
]

mark_server_seen-IsValid :
    (cli : Client) (now : ℕ) → IsValid cli → IsValid (mark_server_seen cli now)
unfolding mark_server_seen
mark_server_seen-IsValid cli now v = either_way (ltb 0 now) _ cli v v

after_header-IsValid :
    (os : Os) (w : World) (cli : Client) (buf : List ℕ) (type payload_len now now_ms : ℕ)
    → IsValid cli
    → IsValid (after_header os w cli buf type payload_len now now_ms).0
unfolding after_header
after_header-IsValid os w cli buf type payload_len now now_ms v =
    let next = accept_server_sequence-IsValid cli buf v in
    choose (ltb (length buf) (37 + payload_len)) (cli, w) _ v
      (choose (not (accept_server_sequence cli buf).0) ((accept_server_sequence cli buf).1, w) _
        next
        (dispatch-IsValid os w (mark_server_seen (accept_server_sequence cli buf).1 now) type
          (drop 37 buf) payload_len now now_ms
          (mark_server_seen-IsValid (accept_server_sequence cli buf).1 now next)))

-- From a client's table of 253 slots with a right count of active peers and no two active peers of
-- one address, client_handle_server_packet on any bytes leaves such a table.
pub handle_server_packet-IsValid :
    (os : Os) (w : World) (cli : Client) (buf : List ℕ) (now now_ms : ℕ)
    → IsValid cli
    → IsValid (handle_server_packet os w cli buf now now_ms).0
unfolding handle_server_packet
handle_server_packet-IsValid os w cli buf now now_ms v = by_header (read_hdr buf)
  where
    by_header :
        (r : HdrResult)
        → IsValid
            (elim r as (λ _. Client × World) [
              | ok type payload_len ↦ after_header os w cli buf type payload_len now now_ms
              | _ ↦ (cli, w)
            ]).0
    by_header (ok type payload_len) =
        after_header-IsValid os w cli buf type payload_len now now_ms v
    by_header _ = v

-- The table of `client_init`, which is the server's.
pub client_init_state-IsValid :
    (name : List ℕ) (server_addr : Addr) → IsValid (client_init_state name server_addr)
unfolding client_init_state server_init_table
client_init_state-IsValid name server_addr = record {
  size = server_init_table-IsValid.size;
  counted = server_init_table-IsValid.counted;
  vips = server_init_table-IsValid.vips;
}
