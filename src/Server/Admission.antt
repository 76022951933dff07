-- ===== src/Server/Admission.antt =====
-- How a registration of an endpoint that is not registered ends.
use tund.Base.{
  ℕ, ◌+◌, ◌≤◌, true, List, none, some, ◌≡◌, ◌≢◌, refl, arith, inl, inr, get_elem?, set,
  Option-cases,
}
use tund.World.{Addr}
use tund.Protocol.Constants.{ip_start, ip_end}
use tund.Protocol.Bytes.{htonl}
use tund.Peers.{Peer, is_free}
use tund.Peers.Slots.{find_index-none}
use tund.Peers.Table.{Holds}
use tund.Server.State.{Server, find_peer_by_addr, find_free_slot, peer_name, snapshot_broadcast}
use tund.Server.Invariant.{IsValid, find_free_slot-some}
use tund.Server.Pool.{alloc_ip-granted}
use tund.Server.Preserve.{htonl_pos}
use tund.Server.Register.{Registration, table_full, joined, new_peer, register_new, register_locked}

-- Either every slot is taken and nothing changes, or a slot gets the new peer under an address of
-- the pool that was free, and all others are to be told.
pub data Admits (srv : Server) (payload : List ℕ) (plen : ℕ) (from : Addr) (sequence now : ℕ)
    : Registration × Server → Type 0 where
  refused :
      ((i : ℕ) (p : Peer) → get_elem? srv.peers i ≡ some p → p.active ≡ true)
      → Admits srv payload plen from sequence now (table_full, srv)
  admitted :
      (i host : ℕ) (peers : List Peer)
      → find_free_slot srv.peers ≡ some i
      → ip_start ≤ host
      → host ≤ ip_end
      → ((j : ℕ) (q : Peer) → Holds srv.peers j q → q.virt_ip ≢ htonl host)
      → peers ≡ set srv.peers i (new_peer payload plen i (htonl host) from sequence now)
      → Admits srv payload plen from sequence now (
        joined
            (htonl host)
            (peer_name (new_peer payload plen i (htonl host) from sequence now))
            from
            (snapshot_broadcast peers (some i)),
        record { peers = peers; peer_count = srv.peer_count + 1 },
      )

all_taken :
    (ps : List Peer) (i : ℕ) (p : Peer)
    → find_free_slot ps ≡ none
    → get_elem? ps i ≡ some p
    → p.active ≡ true
unfolding find_free_slot
all_taken ps i p h e = ground (arith, find_index-none is_free ps i p)

-- From a valid table, the registration of an endpoint that no active peer has ends in one of two
-- ways: every slot is taken and nothing changes; or the first free slot gets the new peer, under
-- an address of 10.9.0.2 to 10.9.0.254 that no active peer held, the count goes up by one, and the
-- snapshots of all other active peers are handed on. The address pool never runs out first.
pub register_locked-Admits :
    (srv : Server) (payload : List ℕ) (plen : ℕ) (from : Addr) (sequence now : ℕ)
    → IsValid srv
    → find_peer_by_addr srv.peers from ≡ none
    → Admits srv payload plen from sequence now (register_locked srv payload plen from sequence now)
unfolding register_locked register_new
register_locked-Admits srv payload plen from sequence now v unknown =
    rw (unknown, register_locked)
      (elim (Option-cases (find_free_slot srv.peers)) [
        | inl full ↦ rw (full, register_new) (refused (λ i p e. all_taken srv.peers i p full e))
        | inr (i, slot) ↦
            let (here, free) = find_free_slot-some srv.peers i slot in
            let (host, lo, hi, vip, fresh) = alloc_ip-granted srv.peers i _ v.size here free in
            rw (slot, register_new, vip, htonl_pos host (omega arith) (omega arith))
              (admitted i host _ slot lo hi fresh refl)
      ])
