-- ===== src/Server/Invariant.antt =====
-- The invariant of the server's table, and the three ways in which a slot changes.
use tund.Base.{
  ℕ, ◌+◌, ◌-◌, ◌≤◌, ◌<◌, true, false, List, none, some, ◌≡◌, ◌≢◌, sym, ◌∙◌, arith, get_elem?, set,
  length, length-set, get_or-get_elem?,
}
use tund.World.{Addr}
use tund.Protocol.Constants.{ip_start, ip_end}
use tund.Protocol.Bytes.{htonl}
use tund.Peers.{Peer, max_peers, empty_peer, peer_at, has_vip, has_addr, is_free, count_active}
use tund.Peers.Slots.{find_index-some, find_index-none, count_active-set}
use tund.Peers.Table.{
  Holds, Separated, SameVip, SameAddr, Actives, Separated-set, Separated-touch, Separated-leave,
  Actives-set,
}
use tund.Server.State.{Server, find_peer_by_addr, find_peer_by_vip, find_free_slot}

-- An address of 10.9.0.2 .. 10.9.0.254, in network byte order.
abbrev pub InPool : Peer → Type 0
InPool p = (p.virt_ip < 4294967296) × (ip_start ≤ htonl p.virt_ip) × (htonl p.virt_ip ≤ ip_end)

-- The table has its 253 slots and the count of those in use; no two peers in use share a virtual
-- address or an endpoint; every virtual address is one of the pool.
pub record IsValid (srv : Server) : Type 0 where
  pub size : length srv.peers ≡ max_peers
  pub counted : srv.peer_count ≡ count_active srv.peers
  pub vips : Separated SameVip srv.peers
  pub addrs : Separated SameAddr srv.peers
  pub pool : Actives InPool srv.peers

pub peer_at-eq : (ps : List Peer) (i : ℕ) {p : Peer} → get_elem? ps i ≡ some p → peer_at ps i ≡ p
peer_at-eq ps i h = get_or-get_elem? ps i empty_peer h

-- A slot that a look-up by endpoint finds.
pub find_peer_by_addr-Holds :
    (ps : List Peer) (from : Addr) (i : ℕ)
    → find_peer_by_addr ps from ≡ some i
    → Holds ps i (peer_at ps i)
      × ((peer_at ps i).real_addr.ip ≡ from.ip)
      × ((peer_at ps i).real_addr.port ≡ from.port)
unfolding find_peer_by_addr
find_peer_by_addr-Holds ps from i h =
    let (p, here, test) = find_index-some (has_addr from) ps i h in
    rw (peer_at-eq ps i here) ((here, ground arith), ground arith, ground arith)

pub find_peer_by_addr-none :
    (ps : List Peer) (from : Addr) (i : ℕ) (p : Peer)
    → find_peer_by_addr ps from ≡ none
    → Holds ps i p
    → ¬ ((p.real_addr.ip ≡ from.ip) × (p.real_addr.port ≡ from.port))
unfolding find_peer_by_addr
find_peer_by_addr-none ps from i p h held same =
    ground (arith, find_index-none (has_addr from) ps i p)

pub find_peer_by_vip-Holds :
    (ps : List Peer) (vip i : ℕ)
    → find_peer_by_vip ps vip ≡ some i
    → Holds ps i (peer_at ps i) × ((peer_at ps i).virt_ip ≡ vip)
unfolding find_peer_by_vip
find_peer_by_vip-Holds ps vip i h =
    let (p, here, test) = find_index-some (has_vip vip) ps i h in
    rw (peer_at-eq ps i here) ((here, ground arith), ground arith)

pub find_peer_by_vip-none :
    (ps : List Peer) (vip i : ℕ) (p : Peer)
    → find_peer_by_vip ps vip ≡ none
    → Holds ps i p
    → p.virt_ip ≢ vip
unfolding find_peer_by_vip
find_peer_by_vip-none ps vip i p h held same = ground (arith, find_index-none (has_vip vip) ps i p)

pub find_free_slot-some :
    (ps : List Peer) (i : ℕ)
    → find_free_slot ps ≡ some i
    → (get_elem? ps i ≡ some (peer_at ps i)) × ((peer_at ps i).active ≡ false)
unfolding find_free_slot
find_free_slot-some ps i h =
    let (p, here, test) = find_index-some is_free ps i h in
    rw (peer_at-eq ps i here) (here, ground arith)

-- What a slot may become without a change of its keys.
pub record Touches (p v : Peer) : Type 0 where
  pub stays : v.active ≡ p.active
  pub same_vip : v.virt_ip ≡ p.virt_ip
  pub same_ip : v.real_addr.ip ≡ p.real_addr.ip
  pub same_port : v.real_addr.port ≡ p.real_addr.port

module _ (srv : Server) (i : ℕ) (p : Peer) (valid : IsValid srv) (held : Holds srv.peers i p) where
  -- A slot in use whose keys stay.
  pub touch-IsValid : (v : Peer) → Touches p v → IsValid (record srv { peers = set srv.peers i v })
  touch-IsValid v t = record {
    size = length-set srv.peers i v ∙ valid.size;
    counted = ground (arith, count_active-set srv.peers i p v held.0);
    vips =
        Separated-touch SameVip srv.peers i p v valid.vips held (λ q r. ground arith)
          (λ q r. ground arith);
    addrs =
        Separated-touch SameAddr srv.peers i p v valid.addrs held (λ q r. ground arith)
          (λ q r. ground arith);
    pool = Actives-set InPool srv.peers i v valid.pool (λ on. ground (arith, valid.pool i p held));
  }

  -- A slot that is given up.
  pub leave-IsValid :
      (v : Peer)
      → v.active ≡ false
      → IsValid (record { peers = set srv.peers i v; peer_count = srv.peer_count - 1 })
  leave-IsValid v off = record {
    size = length-set srv.peers i v ∙ valid.size;
    counted = ground (arith, count_active-set srv.peers i p v held.0);
    vips = Separated-leave SameVip srv.peers i v valid.vips off;
    addrs = Separated-leave SameAddr srv.peers i v valid.addrs off;
    pool = Actives-set InPool srv.peers i v valid.pool (λ on. absurd (ground arith));
  }

-- A free slot that a new peer takes, under keys that nobody holds.
pub enter-IsValid :
    (srv : Server) (i : ℕ) (p v : Peer)
    → IsValid srv
    → get_elem? srv.peers i ≡ some p
    → p.active ≡ false
    → v.active ≡ true
    → InPool v
    → ((j : ℕ) (q : Peer) → Holds srv.peers j q → q.virt_ip ≢ v.virt_ip)
    → ((j : ℕ) (q : Peer) → Holds srv.peers j q → ¬ SameAddr q v)
    → IsValid (record { peers = set srv.peers i v; peer_count = srv.peer_count + 1 })
enter-IsValid srv i p v valid here free on pool new_vip new_addr = record {
  size = length-set srv.peers i v ∙ valid.size;
  counted = ground (arith, count_active-set srv.peers i p v here);
  vips =
      Separated-set SameVip srv.peers i v valid.vips
        λ _ j q ne h. (λ e. new_vip j q h (sym e), λ e. new_vip j q h e);
  addrs =
      Separated-set SameAddr srv.peers i v valid.addrs
        λ _ j q ne h. (λ e. new_addr j q h (sym e.0, sym e.1), λ e. new_addr j q h e);
  pool = Actives-set InPool srv.peers i v valid.pool (λ _. pool);
}
