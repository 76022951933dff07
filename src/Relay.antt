-- ===== src/Relay.antt =====
-- A packet on its way from one client to another: `server_handle_data` of src/core/server/data.c, the
-- network, and `client_handle_server_packet` of src/core/client/handlers.c.
use tund.Base.{
  ℕ, ◌+◌, ◌^◌, ◌≤◌, ◌<◌, true, false, List, ◌∷◌, some, ◌≡◌, refl, sym, ap, ◌∙◌, subst, arith, inl,
  inr, ◌==◌, ltb-false, get_elem?, get_elem?-set_self, get_elem?-set_ne, get_elem?-lt, length, drop,
  take, take_all, Bool-cases, ==→eq, ==_self,
}
use native.Mathlib.Decide.{ℕ_discrete}
use tund.World.{Addr, World, Os, IsAead, HasEntropy}
use tund.Protocol.Constants.{
  server_ip, broadcast_host, ip_start, ip_end, msg_data, max_plaintext, hdr_size,
}
use tund.Protocol.Bytes.{htonl}
use tund.Protocol.Bytes.Laws.{htonl-htonl}
use tund.Protocol.Header.{read_hdr, read_sequence, ok as header_ok}
use tund.Protocol.Replay.{Window, replay_accept}
use tund.Protocol.Ipv4.{ok, validate_ipv4_packet, get_src_ip, get_dst_ip}
use tund.Protocol.Messages.{build_data, build}
use tund.Protocol.Messages.Framing.{Built, build-Built}
use tund.Peers.{Peer, peer_at, add64}
use tund.Peers.Table.{Holds}
use tund.Client.State.{Client}
use tund.Protocol.Header.Laws.{Numbered}
use tund.Client.Handlers.{
  handle_server_packet, after_header, accept_server_sequence, dispatch, handle_data as client_data,
}
use tund.Net.{net_send, arrived, packet, net_recv}
use tund.Net.Delivery.{Arrives, post-Arrives}
use tund.Server.State.{Server, Snapshot, snapshot_peer}
use tund.Server.Invariant.{IsValid, InPool, peer_at-eq}
use tund.Server.Preserve.{data_locked-IsValid}
use tund.Server.Lookup.{find_peer_by_addr-eq, snapshot_peer_by_vip-eq}
use tund.Server.Data.{
  Routing, to_one, route, count_bytes_in, data_locked, forward_unicast, forward, handle_data,
}

-- The addresses of the pool are neither the server's nor the one for all.
not_host :
    (p : Peer) (host : ℕ)
    → InPool p
    → host < 2 ^ 32
    → ((ip_start ≤ host) → ip_end < host)
    → (p.virt_ip == htonl host) ≡ false
not_host p host (small, lo, hi) word outside = elim (Bool-cases (p.virt_ip == htonl host)) [
  | inl same ↦
      let back = ap htonl (==→eq p.virt_ip (htonl host) same) ∙ htonl-htonl host word in
      absurd (ground (arith, back, outside))
  | inr other ↦ other
]

module _ (srv : Server) (i j : ℕ) (p q : Peer) (plen : ℕ) (valid : IsValid srv)
    (sender : Holds srv.peers i p) (receiver : Holds srv.peers j q) where
  -- The receiver's slot when the sender's counter has moved.
  counted_receiver :
      (r : Peer) × Holds (count_bytes_in srv i plen).peers j r
      × (r.virt_ip ≡ q.virt_ip)
      × (r.real_addr ≡ q.real_addr)
  unfolding count_bytes_in
  counted_receiver = elim (ℕ_discrete i j) [
    | yes same ↦
        let e : peer_at srv.peers i ≡ q =
          peer_at-eq srv.peers i (ap (get_elem? srv.peers) same ∙ receiver.0) in
        (
          record (peer_at srv.peers i) { bytes_in = add64 (peer_at srv.peers i).bytes_in plen },
          (
            ap (get_elem? _) (sym same)
                ∙ get_elem?-set_self srv.peers i _ (get_elem?-lt srv.peers i sender.0),
            ap (λ (x : Peer). x.active) e ∙ receiver.1,
          ),
          ap (λ (x : Peer). x.virt_ip) e,
          ap (λ (x : Peer). x.real_addr) e,
        )
    | no ne ↦ (q, (get_elem?-set_ne srv.peers i j _ ne ∙ receiver.0, receiver.1), refl, refl)
  ]

  -- The sender is known and its source address is its own.
  data_locked-eq :
      (from : Addr) (src dst : ℕ)
      → p.real_addr.ip ≡ from.ip
      → p.real_addr.port ≡ from.port
      → p.virt_ip ≡ src
      → data_locked srv src dst plen from
        ≡ (route (count_bytes_in srv i plen).peers i dst, count_bytes_in srv i plen)
  unfolding data_locked
  data_locked-eq from src dst ip port source =
      let own : (src == (peer_at srv.peers i).virt_ip) ≡ true =
        rw (peer_at-eq srv.peers i sender.0, source) (==_self src) in
      rw (find_peer_by_addr-eq srv i p from valid sender ip port, data_locked, own) refl

  counted-IsValid :
      (from : Addr) (src dst : ℕ)
      → p.real_addr.ip ≡ from.ip
      → p.real_addr.port ≡ from.port
      → p.virt_ip ≡ src
      → IsValid (count_bytes_in srv i plen)
  counted-IsValid from src dst ip port source =
      subst (λ (r : Routing × Server). IsValid r.1) (data_locked-eq from src dst ip port source)
        (data_locked-IsValid srv src dst plen from valid)

  -- What the part under the lock decides.
  data_locked-to_one :
      (from : Addr) (src dst : ℕ)
      → p.real_addr.ip ≡ from.ip
      → p.real_addr.port ≡ from.port
      → p.virt_ip ≡ src
      → q.virt_ip ≡ dst
      → (s : Snapshot) × ((data_locked srv src dst plen from).0 ≡ to_one s)
        × (s.real_addr ≡ q.real_addr)
  unfolding route snapshot_peer
  data_locked-to_one from src dst ip port source target =
      let (r, held, vip, addr) = counted_receiver in
      let pool = valid.pool j q receiver in
      let off_server : (dst == htonl server_ip) ≡ false =
        rw (← target) (not_host q server_ip pool (omega arith) (λ h. absurd (omega arith))) in
      let off_all : (dst == htonl broadcast_host) ≡ false =
        rw (← target) (not_host q broadcast_host pool (omega arith) (λ h. omega arith)) in
      let found =
        snapshot_peer_by_vip-eq (count_bytes_in srv i plen) j r dst
          (counted-IsValid from src dst ip port source) held (vip ∙ target) in
      (
        snapshot_peer r j,
        ap (λ (x : Routing × Server). x.0) (data_locked-eq from src dst ip port source)
            ∙ rw (off_server, off_all, found, route) refl,
        addr,
      )

-- The message to one peer is built and sent.
handle_data-to_one :
    (os : Os) (w : World) (srv : Server) (payload : List ℕ) (plen : ℕ) (from : Addr) (s : Snapshot)
    → validate_ipv4_packet payload plen ≡ ok
    → (data_locked srv (get_src_ip payload plen) (get_dst_ip payload plen) plen from).0 ≡ to_one s
    → (handle_data os w srv payload plen from).1
      ≡ (let (msg, w1) = build_data os w payload plen in (net_send os w1 msg s.real_addr).1)
unfolding handle_data forward forward_unicast
handle_data-to_one os w srv payload plen from s valid routed =
    rw (valid, handle_data) (rw (routed, forward) refl)

-- A number that is above all that the window has seen.
accepts_above : (v : Window) (n : ℕ) → v.highest < n → (replay_accept v n).0 ≡ true
unfolding replay_accept
accepts_above v n above = ground arith

-- The number that follows the one that a message was built with is not below the counter.
goes_up :
    (w w' : World) (n : ℕ)
    → Numbered w (some n, w')
    → w.next_sequence + 1 < 2 ^ 64
    → w.next_sequence ≤ w'.next_sequence
goes_up w w' n v room = elim v.origin [
  | inl (running, e) ↦ omega (arith, v.next, e)
  | inr (unset, e) ↦ omega arith
]

-- A DATA message that a client takes for new goes to its TUN device.
handle_server_packet-data :
    (os : Os) (k : World) (cli : Client) (buf payload : List ℕ) (number now now_ms : ℕ)
    → read_hdr buf ≡ header_ok msg_data (length payload)
    → drop 37 buf ≡ payload
    → length buf ≡ 37 + length payload
    → read_sequence buf ≡ some number
    → cli.server_replay.highest < number
    → validate_ipv4_packet payload (length payload) ≡ ok
    → (handle_server_packet os k cli buf now now_ms).1.tun_out ≡ payload ∷ k.tun_out
unfolding handle_server_packet after_header accept_server_sequence dispatch client_data
handle_server_packet-data os k cli buf payload number now now_ms hdr same size sequence above
      valid =
    rw (hdr, handle_server_packet)
      (rw
        (
          ltb-false (length buf) (hdr_size + length payload) (omega arith),
          sequence,
          accept_server_sequence,
        )
        (rw (accepts_above cli.server_replay number above, fresh_valid, client_data)
          (ap (λ l. l ∷ k.tun_out)
            (ap (take (length payload)) same ∙ take_all (length payload) payload (omega arith)))))
  where
    fresh_valid : validate_ipv4_packet (drop hdr_size buf) (length payload) ≡ ok
    fresh_valid = rw same valid

-- What the server sent last on behalf of a sender, and what it makes a client write.
pub record Relays (os : Os) (k : World) (cli : Client) (payload : List ℕ) (to from : Addr)
    (now now_ms : ℕ) (w : World) : Type 0 where
  pub wire : List ℕ
  pub plain : List ℕ
  pub last : get_elem? w.sent 0 ≡ some (record { dest = to; wire = wire })
  pub received : net_recv os k (arrived wire from) ≡ packet plain from
  pub written : (handle_server_packet os k cli plain now now_ms).1.tun_out ≡ payload ∷ k.tun_out

relay :
    (os : Os) (w k : World) (cli : Client) (payload : List ℕ) (to from : Addr) (now now_ms : ℕ)
    → k.crypto_key ≡ w.crypto_key
    → IsAead os
    → HasEntropy os
    → w.next_sequence + 1 < 2 ^ 64
    → cli.server_replay.highest < w.next_sequence
    → length payload ≤ max_plaintext
    → validate_ipv4_packet payload (length payload) ≡ ok
    → Relays os k cli payload to from now now_ms
        (let (msg, w1) = build_data os w payload (length payload) in (net_send os w1 msg to).1)
unfolding build_data
relay os w k cli payload to from now now_ms key aead entropy room above fits valid = record {
  wire = a.wire;
  plain = a.plain;
  last = a.last;
  received = a.received;
  written =
      handle_server_packet-data os k cli a.plain payload a.number now now_ms a.fields a.same_payload
        a.plain_size a.sequence (omega (arith, a.above)) valid;
}
  where
    b :
        Built w msg_data payload
          (build os w msg_data (length payload) (take (length payload) payload))
    b =
        rw (take_all (length payload) payload (omega arith))
          (build-Built os w msg_data (length payload) payload entropy (omega arith) refl fits)

    a : Arrives os w w.next_sequence msg_data payload to k from (
        net_send os
          (build os w msg_data (length payload) (take (length payload) payload)).1
          (build os w msg_data (length payload) (take (length payload) payload)).0
          to)
    a =
        post-Arrives os w w.next_sequence msg_data payload to k from
          (build os w msg_data (length payload) (take (length payload) payload)) key aead entropy
          (goes_up w _ b.number b.numbered room) fits b

-- With entropy, an AEAD that opens what it locks and a counter that is not about to wrap: a valid
-- packet of at most 1600 bytes that an active peer sends from its endpoint and its own address to
-- the address of an active peer of a valid table makes server_handle_data send one last datagram
-- to that peer's endpoint, from which client_handle_server_packet of a client with the same key,
-- that has seen only smaller sequence numbers, writes the same packet to its TUN device.
pub handle_data-Relays :
    (os : Os) (w : World) (srv : Server) (i j : ℕ) (p q : Peer) (payload : List ℕ) (from : Addr)
    (k : World) (cli : Client) (now now_ms : ℕ)
    → IsAead os
    → HasEntropy os
    → w.next_sequence + 1 < 2 ^ 64
    → k.crypto_key ≡ w.crypto_key
    → cli.server_replay.highest < w.next_sequence
    → IsValid srv
    → Holds srv.peers i p
    → Holds srv.peers j q
    → p.real_addr.ip ≡ from.ip
    → p.real_addr.port ≡ from.port
    → p.virt_ip ≡ get_src_ip payload (length payload)
    → q.virt_ip ≡ get_dst_ip payload (length payload)
    → length payload ≤ max_plaintext
    → validate_ipv4_packet payload (length payload) ≡ ok
    → Relays os k cli payload q.real_addr cli.server_addr now now_ms
        (handle_data os w srv payload (length payload) from).1
handle_data-Relays os w srv i j p q payload from k cli now now_ms aead entropy room key above table
      sender receiver ip port source target fits valid =
    let src = get_src_ip payload (length payload) in
    let dst = get_dst_ip payload (length payload) in
    let (s, routed, same) =
      data_locked-to_one srv i j p q (length payload) table sender receiver from src dst ip port
        source target in
    rw (handle_data-to_one os w srv payload (length payload) from s valid routed, same)
      (relay os w k cli payload q.real_addr cli.server_addr now now_ms key aead entropy room above
        fits valid)
