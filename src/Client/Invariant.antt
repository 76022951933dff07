-- ===== src/Client/Invariant.antt =====
-- The invariant of the client's table and the operations of src/core/client/peers.c.
use tund.Base.{
  ℕ, ◌+◌, ◌-◌, Bool, true, false, List, Option, none, some, ◌≡◌, ◌≢◌, refl, sym, ap, ◌∙◌, arith,
  inl, inr, length, length-set, get_elem?, set, Option-cases,
}
use tund.Peers.{Peer, max_peers, count_active, find_index, has_vip}
use tund.Peers.Slots.{find_index-some, count_active-set}
use tund.Peers.Table.{Holds, Separated, SameVip, Separated-set, Separated-touch, Separated-leave}
use tund.Server.Invariant.{peer_at-eq}
use tund.Client.State.{
  Client, find_from, online_peer, fresh_counters, update_found, update_peer, add_peer_traffic,
}
use tund.Client.Lookup.{find_from-found, find_from-absent, find_from-free}
use tund.Client.Handlers.{peer_left}

-- 253 slots, a right count, and no two active peers of one virtual address.
pub record WellFormed (ps : List Peer) (n : ℕ) : Type 0 where
  pub size : length ps ≡ max_peers
  pub counted : n ≡ count_active ps
  pub vips : Separated SameVip ps

abbrev pub IsValid : Client → Type 0
IsValid cli = WellFormed cli.peers cli.peer_count

module _ (ps : List Peer) (n i : ℕ) (p : Peer) (valid : WellFormed ps n)
    (here : get_elem? ps i ≡ some p) where
  touched :
      (v : Peer)
      → p.active ≡ true
      → v.active ≡ true
      → v.virt_ip ≡ p.virt_ip
      → WellFormed (set ps i v) n
  touched v on still vip = record {
    size = length-set ps i v ∙ valid.size;
    counted = ground (arith, count_active-set ps i p v here, valid.counted);
    vips =
        Separated-touch SameVip ps i p v valid.vips (here, on) (λ q r. ground arith)
          (λ q r. ground arith);
  }

  left : (v : Peer) → p.active ≡ true → v.active ≡ false → WellFormed (set ps i v) (n - 1)
  left v on off = record {
    size = length-set ps i v ∙ valid.size;
    counted = ground (arith, count_active-set ps i p v here, valid.counted);
    vips = Separated-leave SameVip ps i v valid.vips off;
  }

  entered :
      (v : Peer)
      → p.active ≡ false
      → v.active ≡ true
      → ((j : ℕ) (q : Peer) → Holds ps j q → q.virt_ip ≢ v.virt_ip)
      → WellFormed (set ps i v) (n + 1)
  entered v off on fresh = record {
    size = length-set ps i v ∙ valid.size;
    counted = ground (arith, count_active-set ps i p v here, valid.counted);
    vips =
        Separated-set SameVip ps i v valid.vips
          λ _ j q ne h. (λ e. fresh j q h (sym e), λ e. fresh j q h e);
  }

update_found-IsValid :
    (cli : Client) (vip : ℕ) (name : List ℕ) (online : Bool) (now : ℕ) (idx free : Option ℕ)
    → IsValid cli
    → (find_from vip 0 cli.peers none).idx ≡ idx
    → (find_from vip 0 cli.peers none).free_idx ≡ free
    → IsValid (update_found cli vip name online now idx free)
unfolding update_found online_peer fresh_counters
update_found-IsValid cli vip name true now (some i) free v found f =
    let (j, p, e, h, t) = find_from-found vip 0 cli.peers none i found in
    let same : j ≡ i = omega arith in
    let here = ap (get_elem? cli.peers) (sym same) ∙ h in
    rw (peer_at-eq cli.peers i here)
      (touched cli.peers cli.peer_count i p v here _ (ground arith) refl (ground arith))
update_found-IsValid cli vip name true now none none v found f = v
update_found-IsValid cli vip name true now none (some i) v found f =
    elim (find_from-free vip 0 cli.peers none i f) [
      | inl no_start ↦ cc
      | inr (j, p, e, h, t) ↦
          let same : j ≡ i = omega arith in
          let here = ap (get_elem? cli.peers) (sym same) ∙ h in
          rw (peer_at-eq cli.peers i here) (
            entered cli.peers cli.peer_count i p v here _ (ground arith) refl
              (λ k q held. ground (arith, find_from-absent vip 0 cli.peers none k q found held.0)))
    ]
update_found-IsValid cli vip name false now (some i) free v found f =
    let (j, p, e, h, t) = find_from-found vip 0 cli.peers none i found in
    let same : j ≡ i = omega arith in
    let here = ap (get_elem? cli.peers) (sym same) ∙ h in
    rw (peer_at-eq cli.peers i here)
      (left cli.peers cli.peer_count i p v here _ (ground arith) refl)
update_found-IsValid cli vip name false now none free v found f = v

pub update_peer-IsValid :
    (cli : Client) (vip : ℕ) (name : List ℕ) (online : Bool) (now : ℕ)
    → IsValid cli
    → IsValid (update_peer cli vip name online now)
unfolding update_peer
update_peer-IsValid cli vip name online now v =
    update_found-IsValid cli vip name online now _ _ v refl refl

pub peer_left-IsValid : (cli : Client) (vip : ℕ) → IsValid cli → IsValid (peer_left cli vip)
unfolding peer_left
peer_left-IsValid cli vip v = elim (Option-cases (find_index (has_vip vip) cli.peers)) [
  | inl nobody ↦ rw (nobody, peer_left) v
  | inr (i, found) ↦
      let (p, here, t) = find_index-some (has_vip vip) cli.peers i found in
      rw (found, peer_left, peer_at-eq cli.peers i here)
        (left cli.peers cli.peer_count i p v here _ (ground arith) refl)
]

pub add_peer_traffic-IsValid :
    (cli : Client) (vip bytes_in bytes_out : ℕ)
    → IsValid cli
    → IsValid (add_peer_traffic cli vip bytes_in bytes_out)
unfolding add_peer_traffic
add_peer_traffic-IsValid cli vip bytes_in bytes_out v =
    elim (Option-cases (find_index (has_vip vip) cli.peers)) [
      | inl nobody ↦ rw (nobody, add_peer_traffic) v
      | inr (i, found) ↦
          let (p, here, t) = find_index-some (has_vip vip) cli.peers i found in
          rw (found, add_peer_traffic, peer_at-eq cli.peers i here)
            (touched cli.peers cli.peer_count i p v here _ (ground arith) (ground arith) refl)
    ]
