-- ===== src/Server/Authentic.antt =====
-- Which DATA packets have an effect.
use tund.Base.{ℕ, List, ◌≡◌, refl, ap, arith, inl, inr, ◌⊎◌, Option-cases, Bool-cases, ◌==◌}
use tund.World.{Addr, World, Os}
use tund.Protocol.Ipv4.{Verdict, ok, validate_ipv4_packet, get_src_ip, get_dst_ip}
use tund.Peers.{Peer, peer_at}
use tund.Peers.Table.{Holds}
use tund.Server.State.{Server, find_peer_by_addr}
use tund.Server.Invariant.{find_peer_by_addr-Holds}
use tund.Server.Data.{Routing, unregistered, spoofed, data_locked, forward, handle_data}

-- A valid packet whose source is the address that the server gave to the endpoint it came from.
pub record IsAuthentic (srv : Server) (payload : List ℕ) (plen : ℕ) (from : Addr) : Type 0 where
  pub idx : ℕ
  pub sender : Peer
  pub verdict : validate_ipv4_packet payload plen ≡ ok
  pub held : Holds srv.peers idx sender
  pub ip : sender.real_addr.ip ≡ from.ip
  pub port : sender.real_addr.port ≡ from.port
  pub source : sender.virt_ip ≡ get_src_ip payload plen

data_locked_cases :
    (srv : Server) (payload : List ℕ) (plen dst : ℕ) (from : Addr)
    → validate_ipv4_packet payload plen ≡ ok
    → (data_locked srv (get_src_ip payload plen) dst plen from ≡ (unregistered, srv))
      ⊎ ((data_locked srv (get_src_ip payload plen) dst plen from ≡ (spoofed, srv))
          ⊎ IsAuthentic srv payload plen from)
unfolding data_locked
data_locked_cases srv payload plen dst from valid =
    elim (Option-cases (find_peer_by_addr srv.peers from)) [
      | inl unknown ↦ inl (rw (unknown, data_locked) refl)
      | inr (i, known) ↦
          let (held, ip, port) = find_peer_by_addr-Holds srv.peers from i known in
          inr (elim (Bool-cases (get_src_ip payload plen == (peer_at srv.peers i).virt_ip)) [
            | inl same ↦ inr (record {
              idx = i;
              sender = peer_at srv.peers i;
              verdict = valid;
              held = held;
              ip = ip;
              port = port;
              source = ground arith;
            })
            | inr other ↦ inl (rw (known, data_locked, other) refl)
          ])
    ]

-- Server_handle_data either changes neither the table nor the world, or the packet is valid and
-- comes from the endpoint of an active peer to whom the server gave the packet's source address.
pub handle_data-IsAuthentic :
    (os : Os) (w : World) (srv : Server) (payload : List ℕ) (plen : ℕ) (from : Addr)
    → (handle_data os w srv payload plen from ≡ (srv, w)) ⊎ IsAuthentic srv payload plen from
unfolding handle_data forward
handle_data-IsAuthentic os w srv payload plen from =
    by_verdict (validate_ipv4_packet payload plen) refl
  where
    dst : ℕ
    dst = get_dst_ip payload plen

    run : Routing × Server → Server × World
    run r = forward os w r.1 r.0 payload plen

    by_verdict :
        (v : Verdict)
        → validate_ipv4_packet payload plen ≡ v
        → ((elim v as (λ _. Server × World) [
          | ok ↦ run (data_locked srv (get_src_ip payload plen) dst plen from)
          | _ ↦ (srv, w)
        ])
            ≡ (srv, w))
          ⊎ IsAuthentic srv payload plen from
    by_verdict ok e = elim (data_locked_cases srv payload plen dst from e) [
      | inl unknown ↦ inl (ap run unknown)
      | inr (inl other) ↦ inl (ap run other)
      | inr (inr authentic) ↦ inr authentic
    ]
    by_verdict _ e = inl refl
