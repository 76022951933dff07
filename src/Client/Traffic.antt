-- ===== src/Client/Traffic.antt =====
-- The rounds of src/core/client/client.c keep the client's table.
use tund.Base.{
  ℕ, zero, suc, Bool, true, false, List, [], ◌∷◌, ◌≡◌, refl, ◌∙◌, arith, map, length, inl, inr,
  Bool-cases, if◌then◌else◌, ◌==◌,
}
use tund.World.{World, Os, addr_eq}
use tund.Protocol.Constants.{broadcast_host}
use tund.Protocol.Bytes.{htonl}
use tund.Protocol.Ipv4.{Verdict, ok, validate_ipv4_packet, get_dst_ip}
use tund.Protocol.Messages.{build_data}
use tund.Net.{net_send, Received, packet}
use tund.Peers.{Peer, count_active, add64}
use tund.Peers.Table.{Holds}
use tund.Client.State.{Client, add_peer_traffic, add_broadcast_traffic}
use tund.Client.Invariant.{IsValid, add_peer_traffic-IsValid}
use tund.Client.Rounds.{count_outgoing, tun_round, receive_turn}
use tund.Client.Packets.{handle_server_packet-IsValid}

-- A slot when so many bytes went to all.
abbrev counted : ℕ → Peer → Peer
counted n p = if p.active then record p { bytes_out = add64 p.bytes_out n } else p

length-counted : (n : ℕ) (ps : List Peer) → length (map (counted n) ps) ≡ length ps
length-counted n [] = refl
length-counted n (p ∷ ps) = omega (arith, length-counted n ps)

count_active-counted :
    (n : ℕ) (ps : List Peer) → count_active (map (counted n) ps) ≡ count_active ps
unfolding count_active
count_active-counted n [] = refl
count_active-counted n (p ∷ ps) = ground (arith, count_active-counted n ps)

-- An active peer of the new table stood in the same slot of the old one.
Holds-counted :
    (n : ℕ) (ps : List Peer) (i : ℕ) (p : Peer)
    → Holds (map (counted n) ps) i p
    → (q : Peer) × Holds ps i q × (q.virt_ip ≡ p.virt_ip)
Holds-counted n [] i p h = cc (h.0)
Holds-counted n (q ∷ ps) zero p h = (q, ground arith, ground arith)
Holds-counted n (q ∷ ps) (suc i) p h = Holds-counted n ps i p h

pub add_broadcast_traffic-IsValid :
    (cli : Client) (n : ℕ) → IsValid cli → IsValid (add_broadcast_traffic cli n)
unfolding add_broadcast_traffic
add_broadcast_traffic-IsValid cli n v = record {
  size = length-counted n cli.peers ∙ v.size;
  counted = ground (arith, count_active-counted n cli.peers, v.counted);
  vips = λ i j p q hp hq same.
      let (p', held_p, vip_p) = Holds-counted n cli.peers i p hp in
      let (q', held_q, vip_q) = Holds-counted n cli.peers j q hq in
      v.vips i j p' q' held_p held_q (cc);
}

choose : (b : Bool) (c d : Client) → IsValid c → IsValid d → IsValid (if b then c else d)
choose true c d v u = v
choose false c d v u = u

count_outgoing-IsValid :
    (cli : Client) (dst_ip n : ℕ) → IsValid cli → IsValid (count_outgoing cli dst_ip n)
unfolding count_outgoing
count_outgoing-IsValid cli dst_ip n v =
    choose (dst_ip == htonl broadcast_host) (add_broadcast_traffic cli n)
      (add_peer_traffic cli dst_ip 0 n) (add_broadcast_traffic-IsValid cli n v)
      (add_peer_traffic-IsValid cli dst_ip 0 n v)

pub tun_round-IsValid :
    (os : Os) (w : World) (cli : Client) (pkt : List ℕ)
    → IsValid cli
    → IsValid (tun_round os w cli pkt).0
unfolding tun_round
tun_round-IsValid os w cli pkt v = by_verdict (validate_ipv4_packet pkt (length pkt))
  where
    by_verdict :
        (r : Verdict)
        → IsValid
            (elim r as (λ _. Client × World) [
              | ok ↦
                  let (msg, w1) = build_data os w pkt (length pkt) in
                  let (sent, w2) = net_send os w1 msg cli.server_addr in
                  (
                    if sent
                        then count_outgoing cli (get_dst_ip pkt (length pkt)) (length pkt)
                        else cli,
                    w2,
                  )
              | _ ↦ (cli, w)
            ]).0
    by_verdict ok =
        let (msg, w1) = build_data os w pkt (length pkt) in
        let (sent, w2) = net_send os w1 msg cli.server_addr in
        choose sent (count_outgoing cli (get_dst_ip pkt (length pkt)) (length pkt)) cli
          (count_outgoing-IsValid cli (get_dst_ip pkt (length pkt)) (length pkt) v) v
    by_verdict _ = v

pub receive_turn-IsValid :
    (os : Os) (w : World) (cli : Client) (r : Received) (now now_ms : ℕ)
    → IsValid cli
    → IsValid (receive_turn os w cli r now now_ms).0
unfolding receive_turn
receive_turn-IsValid os w cli (packet buf from) now now_ms v =
    elim (Bool-cases (addr_eq from cli.server_addr)) [
      | inl server ↦
          rw (server, receive_turn) (handle_server_packet-IsValid os w cli buf now now_ms v)
      | inr stranger ↦ rw (stranger, receive_turn) v
    ]
receive_turn-IsValid os w cli _ now now_ms v = v
