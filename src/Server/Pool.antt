-- ===== src/Server/Pool.antt =====
-- What `server_alloc_ip` of src/core/server/peers.c returns.
use tund.Base.{
  ℕ, zero, suc, ◌+◌, ◌≤◌, ◌<◌, true, false, List, some, ◌≡◌, ◌≢◌, refl, sym, ap, ◌∙◌, arith, inl,
  inr, get_elem?, set, length, Option-cases, if◌then◌else◌, get_elem?-set_ne,
}
use native.Mathlib.Decide.{ℕ_discrete}
use tund.Protocol.Constants.{ip_start, ip_end}
use tund.Protocol.Bytes.{htonl}
use tund.Protocol.Bytes.Laws.{htonl-htonl}
use tund.Peers.{Peer, peer_at, count_active}
use tund.Peers.Slots.{count_active-set, count_active-lt-length}
use tund.Peers.Table.{Holds}
use tund.Server.State.{find_peer_by_vip, alloc_from, alloc_ip}
use tund.Server.Invariant.{find_peer_by_vip-Holds, find_peer_by_vip-none}

-- What the loop returns: an address of the range that no active peer has, or 0 when each of them is
-- the address of an active peer.
pub data Allocates (ps : List Peer) (left ip_h : ℕ) (r : ℕ) : Type 0 where
  granted :
      (host : ℕ)
      → ip_h ≤ host
      → host < ip_h + left
      → r ≡ htonl host
      → ((i : ℕ) (p : Peer) → Holds ps i p → p.virt_ip ≢ htonl host)
      → Allocates ps left ip_h r
  exhausted :
      r ≡ 0
      → ((host : ℕ)
          → ip_h ≤ host
          → host < ip_h + left
          → (i : ℕ) × (p : Peer) × Holds ps i p × (p.virt_ip ≡ htonl host))
      → Allocates ps left ip_h r

pub alloc_from-Allocates :
    (ps : List Peer) (left ip_h : ℕ) → Allocates ps left ip_h (alloc_from ps left ip_h)
unfolding alloc_from
alloc_from-Allocates ps zero ip_h = exhausted refl (λ host lo hi. absurd (omega arith))
alloc_from-Allocates ps (suc left) ip_h = elim (Option-cases (find_peer_by_vip ps (htonl ip_h))) [
  | inl free ↦
      rw (free, alloc_from)
        (granted ip_h (omega arith) (omega arith) refl
          (λ i p h. find_peer_by_vip-none ps (htonl ip_h) i p free h))
  | inr (i, taken) ↦
      rw (taken, alloc_from) (widen i taken (alloc_from-Allocates ps left (ip_h + 1)))
]
  where
    widen :
        (i : ℕ)
        → find_peer_by_vip ps (htonl ip_h) ≡ some i
        → Allocates ps left (ip_h + 1) (alloc_from ps left (ip_h + 1))
        → Allocates ps (suc left) ip_h (alloc_from ps left (ip_h + 1))
    widen i taken (granted host lo hi e f) = granted host (omega arith) (omega arith) e f
    widen i taken (exhausted e f) = exhausted e λ host lo hi. elim (ℕ_discrete ip_h host) [
      | yes same ↦
          let (holds, vip) = find_peer_by_vip-Holds ps (htonl ip_h) i taken in
          (i, peer_at ps i, holds, vip ∙ ap htonl same)
      | no other ↦ f host (omega arith) (omega arith)
    ]

pub same_peer : (p q : Peer) → some p ≡ some q → p ≡ q
same_peer p q h = cc

-- One slot does not hold two addresses.
clash :
    (ps : List Peer) (i j : ℕ) (p q : Peer) (a b : ℕ)
    → Holds ps i p
    → Holds ps j q
    → i ≡ j
    → p.virt_ip ≡ htonl a
    → q.virt_ip ≡ htonl b
    → a < 4294967296
    → b < 4294967296
    → a ≡ b
clash ps i j p q a b h k same ea eb ha hb =
    sym (htonl-htonl a ha)
    ∙ ap htonl (
        sym ea
        ∙ ap (λ (r : Peer). r.virt_ip) (same_peer p q (sym h.0 ∙ ap (get_elem? ps) same ∙ k.0))
        ∙ eb)
    ∙ htonl-htonl b hb

-- Each of `n` different addresses held by an active peer takes a slot of its own.
pigeonhole :
    (n low : ℕ) (ps : List Peer)
    → low + n ≤ 4294967296
    → ((host : ℕ)
        → low ≤ host
        → host < low + n
        → (i : ℕ) × (p : Peer) × Holds ps i p × (p.virt_ip ≡ htonl host))
    → n ≤ count_active ps
pigeonhole zero low ps word held = omega arith
pigeonhole (suc n) low ps word held =
    let (i, p, h, e) = held low (omega arith) (omega arith) in
    omega (
      arith,
      count_active-set ps i p (record p { active = false }) h.0,
      one_of p h.1,
      pigeonhole n (low + 1) (set ps i (record p { active = false })) (omega arith)
          (λ host lo hi. others i p h e host lo hi (held host (omega arith) (omega arith))),
    )
  where
    one_of : (p : Peer) → p.active ≡ true → ◌≡◌ {A = ℕ} (if p.active then 1 else 0) 1
    one_of p on = rw on

    others :
        (i : ℕ) (p : Peer)
        → Holds ps i p
        → p.virt_ip ≡ htonl low
        → (host : ℕ) → low + 1 ≤ host
        → host < low + 1 + n
        → (j : ℕ) × (q : Peer) × Holds ps j q × (q.virt_ip ≡ htonl host)
        → (j : ℕ) × (q : Peer) × Holds (set ps i (record p { active = false })) j q
          × (q.virt_ip ≡ htonl host)
    others i p h e host lo hi (j, q, hq, eq) = elim (ℕ_discrete i j) [
      | yes same ↦
          absurd
            (omega (arith, clash ps i j p q low host h hq same e eq (omega arith) (omega arith)))
      | no ne ↦ (j, q, (get_elem?-set_ne ps i j (record p { active = false }) ne ∙ hq.0, hq.1), eq)
    ]

-- In a table of 253 slots with a free one, server_alloc_ip returns an address of 10.9.0.2 to
-- 10.9.0.254 that no active peer holds.
pub alloc_ip-granted :
    (ps : List Peer) (i : ℕ) (p : Peer)
    → length ps ≡ 253
    → get_elem? ps i ≡ some p
    → p.active ≡ false
    → (host : ℕ) × (ip_start ≤ host)
      × (host ≤ ip_end)
      × (alloc_ip ps ≡ htonl host)
      × ((j : ℕ) (q : Peer) → Holds ps j q → q.virt_ip ≢ htonl host)
unfolding alloc_ip
alloc_ip-granted ps i p size here free = elim (alloc_from-Allocates ps 253 ip_start) [
  | granted host lo hi e f ↦ (host, lo, omega arith, e, f)
  | exhausted e f ↦ absurd (
      omega (
        arith,
        pigeonhole 253 ip_start ps (omega arith) f,
        count_active-lt-length ps i p here free,
      ))
]
