-- ===== src/Server/Lookup.antt =====
-- In a valid table a look-up finds the one peer that has the key.
use tund.Base.{ℕ, some, ◌≡◌, refl, sym, ap, ◌∙◌, inl, inr, Option-cases}
use tund.World.{Addr}
use tund.Peers.{Peer}
use tund.Peers.Table.{Holds}
use tund.Server.State.{
  Server, find_peer_by_addr, find_peer_by_vip, snapshot_peer, snapshot_peer_by_vip,
}
use tund.Server.Invariant.{
  IsValid, peer_at-eq, find_peer_by_addr-Holds, find_peer_by_addr-none, find_peer_by_vip-Holds,
  find_peer_by_vip-none,
}

pub find_peer_by_addr-eq :
    (srv : Server) (i : ℕ) (p : Peer) (from : Addr)
    → IsValid srv
    → Holds srv.peers i p
    → p.real_addr.ip ≡ from.ip
    → p.real_addr.port ≡ from.port
    → find_peer_by_addr srv.peers from ≡ some i
find_peer_by_addr-eq srv i p from v h ip port =
    elim (Option-cases (find_peer_by_addr srv.peers from)) [
      | inl unknown ↦ absurd (find_peer_by_addr-none srv.peers from i p unknown h (ip, port))
      | inr (j, found) ↦
          let (held, ip', port') = find_peer_by_addr-Holds srv.peers from j found in
          found ∙ ap some (v.addrs j i _ p held h (ip' ∙ sym ip, port' ∙ sym port))
    ]

pub find_peer_by_vip-eq :
    (srv : Server) (i : ℕ) (p : Peer) (vip : ℕ)
    → IsValid srv
    → Holds srv.peers i p
    → p.virt_ip ≡ vip
    → find_peer_by_vip srv.peers vip ≡ some i
find_peer_by_vip-eq srv i p vip v h e = elim (Option-cases (find_peer_by_vip srv.peers vip)) [
  | inl unknown ↦ absurd (find_peer_by_vip-none srv.peers vip i p unknown h e)
  | inr (j, found) ↦
      let (held, vip') = find_peer_by_vip-Holds srv.peers vip j found in
      found ∙ ap some (v.vips j i _ p held h (vip' ∙ sym e))
]

pub snapshot_peer_by_vip-eq :
    (srv : Server) (i : ℕ) (p : Peer) (vip : ℕ)
    → IsValid srv
    → Holds srv.peers i p
    → p.virt_ip ≡ vip
    → snapshot_peer_by_vip srv.peers vip ≡ some (snapshot_peer p i)
unfolding snapshot_peer_by_vip
snapshot_peer_by_vip-eq srv i p vip v h e =
    rw (find_peer_by_vip-eq srv i p vip v h e, snapshot_peer_by_vip, peer_at-eq srv.peers i h.0)
      refl
