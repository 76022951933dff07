-- ===== src/Peerforge/Probe.antt =====
-- The probes of tools/peerforge/client.c are packets that the server passes on.
use tund.Base.{ℕ, ◌+◌, ◌^◌, ◌<◌, ◌≡◌, refl, sym, arith, length}
use tund.World.{Addr, World, Os, IsAead, HasEntropy}
use tund.Protocol.Bytes.{load32, store32, store16, htons, read_u16_be}
use tund.Protocol.Bytes.Laws.{load32-store32}
use tund.Protocol.Ipv4.{get_src_ip, get_dst_ip}
use tund.Protocol.Ipv4.Valid.{IsValidPacket, validate-IsValidPacket}
use tund.Peers.{Peer}
use tund.Peers.Table.{Holds}
use tund.Server.State.{Server}
use tund.Server.Invariant.{IsValid, InPool}
use tund.Server.Data.{handle_data}
use tund.Client.State.{Client}
use tund.Relay.{Relays, handle_data-Relays}
use tund.Peerforge.Client.{build_ipv4_probe}

length-build_ipv4_probe : (src dst : ℕ) → length (build_ipv4_probe src dst) ≡ 20
unfolding build_ipv4_probe store32 store16
length-build_ipv4_probe src dst = refl

-- The addresses read back.
get_src_ip-build_ipv4_probe :
    (src dst : ℕ) → src < 2 ^ 32 → get_src_ip (build_ipv4_probe src dst) 20 ≡ src
unfolding build_ipv4_probe get_src_ip store32 store16 load32
get_src_ip-build_ipv4_probe src dst small = unfold load32 in load32-store32 src small

get_dst_ip-build_ipv4_probe :
    (src dst : ℕ) → dst < 2 ^ 32 → get_dst_ip (build_ipv4_probe src dst) 20 ≡ dst
unfolding build_ipv4_probe get_dst_ip store32 store16 load32
get_dst_ip-build_ipv4_probe src dst small = unfold load32 in load32-store32 dst small

module _ (p q : Peer) (source : InPool p) (target : InPool q) where
  pub build_ipv4_probe-IsValidPacket : IsValidPacket (build_ipv4_probe p.virt_ip q.virt_ip) 20
  unfolding build_ipv4_probe store32 store16 read_u16_be htons
  build_ipv4_probe-IsValidPacket =
      let from = get_src_ip-build_ipv4_probe p.virt_ip q.virt_ip source.0 in
      let to = get_dst_ip-build_ipv4_probe p.virt_ip q.virt_ip target.0 in
      record {
        version = omega arith;
        header = omega arith;
        within = omega arith;
        total = refl;
        from_host = rw from (omega (arith, source));
        not_broadcast = rw from (omega (arith, source));
        to_host = rw to (omega (arith, target));
      }

-- The probe that the tester builds for the addresses of two active peers of a valid table is a
-- valid packet of 20 bytes, and under the conditions of handle_data-Relays the server, to which
-- the first peer sends it from its endpoint, sends one last datagram to the second's endpoint,
-- from which a client writes the probe to its TUN device.
pub probe-Relays :
    (os : Os) (w : World) (srv : Server) (i j : ℕ) (p q : Peer) (from : Addr) (k : World)
    (cli : Client) (now now_ms : ℕ)
    → IsAead os
    → HasEntropy os
    → w.next_sequence + 1 < 2 ^ 64
    → k.crypto_key ≡ w.crypto_key
    → cli.server_replay.highest < w.next_sequence
    → IsValid srv
    → Holds srv.peers i p
    → Holds srv.peers j q
    → p.real_addr.ip ≡ from.ip
    → p.real_addr.port ≡ from.port
    → let probe = build_ipv4_probe p.virt_ip q.virt_ip in
      IsValidPacket probe 20
      × Relays os k cli probe q.real_addr cli.server_addr now now_ms
          (handle_data os w srv probe 20 from).1
unfolding build_ipv4_probe store32 store16
probe-Relays os w srv i j p q from k cli now now_ms aead entropy room key above valid sender
      receiver ip port =
    let source = valid.pool i p sender in
    let target = valid.pool j q receiver in
    let packet = build_ipv4_probe-IsValidPacket p q source target in
    (
      packet,
      handle_data-Relays os w srv i j p q (build_ipv4_probe p.virt_ip q.virt_ip) from k cli now
          now_ms aead entropy room key above valid sender receiver ip port
          (sym (get_src_ip-build_ipv4_probe p.virt_ip q.virt_ip source.0))
          (sym (get_dst_ip-build_ipv4_probe p.virt_ip q.virt_ip target.0)) (omega arith)
          ((validate-IsValidPacket (build_ipv4_probe p.virt_ip q.virt_ip) 20).1 packet),
    )
