-- ===== src/Server/Preserve.antt =====
-- The invariant of the server's table and each part that runs under the lock.
use tund.Base.{
  ℕ, zero, suc, ◌+◌, ◌≤◌, ◌<◌, Bool, true, false, List, [], ◌∷◌, Option, none, some, ◌≡◌, refl, sym,
  ap, ◌∙◌, subst, arith, inl, inr, length, ltb, ◌==◌, ==→eq, ◌&&◌, Bool-cases, Option-cases,
  get_elem?-get_or,
}
use tund.World.{Addr}
use tund.Protocol.Constants.{ip_start, ip_end}
use tund.Protocol.Bytes.{htonl}
use tund.Protocol.Bytes.Laws.{htonl-htonl, htonl-lt}
use tund.Protocol.Replay.{replay_accept}
use tund.Peers.{Peer, max_peers, empty_peer, peer_at, count_active}
use tund.Peers.Table.{Holds}
use tund.Server.State.{
  Server, Snapshot, find_peer_by_addr, find_free_slot, still_holds, add_peer_bytes_out,
}
use tund.Server.Invariant.{
  IsValid, InPool, Touches, touch-IsValid, leave-IsValid, enter-IsValid, find_peer_by_addr-Holds,
  find_peer_by_addr-none, find_free_slot-some,
}
use tund.Server.Pool.{alloc_ip-granted, same_peer}
use tund.Server.Register.{new_peer, register_known, register_new, register_locked}
use tund.Server.Data.{data_locked, count_bytes_in}
use tund.Server.Session.{
  accept_registered_sequence, keepalive_locked, ack_locked, disconnect_locked,
}
use tund.Server.Timeout.{Sweep, sweep_slot, sweep_from, sweep_locked, timed_out}

-- A change of the fields that are no keys.
touches :
    (p v : Peer)
    → v.active ≡ p.active
    → v.virt_ip ≡ p.virt_ip
    → v.real_addr ≡ p.real_addr
    → Touches p v
touches p v a b c = record { stays = a; same_vip = b; same_ip = cc; same_port = cc }

-- `server_accept_registered_sequence`.
pub accept_registered_sequence-IsValid :
    (srv : Server) (from : Addr) (sequence : ℕ)
    → IsValid srv
    → IsValid (accept_registered_sequence srv from sequence).1
unfolding accept_registered_sequence
accept_registered_sequence-IsValid srv from sequence v =
    elim (Option-cases (find_peer_by_addr srv.peers from)) [
      | inl unknown ↦ rw (unknown, accept_registered_sequence) v
      | inr (i, known) ↦
          let held = (find_peer_by_addr-Holds srv.peers from i known).0 in
          rw (known, accept_registered_sequence)
            (touch-IsValid srv i _ v held _ (touches _ _ refl refl refl))
    ]

-- `server_handle_keepalive`.
pub keepalive_locked-IsValid :
    (srv : Server) (from : Addr) (now : ℕ) → IsValid srv → IsValid (keepalive_locked srv from now).1
unfolding keepalive_locked
keepalive_locked-IsValid srv from now v = elim (Option-cases (find_peer_by_addr srv.peers from)) [
  | inl unknown ↦ rw (unknown, keepalive_locked) v
  | inr (i, known) ↦
      let held = (find_peer_by_addr-Holds srv.peers from i known).0 in
      rw (known, keepalive_locked) (touch-IsValid srv i _ v held _ (touches _ _ refl refl refl))
]

-- `server_handle_keepalive_ack`.
pub ack_locked-IsValid :
    (srv : Server) (from : Addr) (sample now : ℕ)
    → IsValid srv
    → IsValid (ack_locked srv from sample now)
unfolding ack_locked
ack_locked-IsValid srv from sample now v = elim (Option-cases (find_peer_by_addr srv.peers from)) [
  | inl unknown ↦ rw (unknown, ack_locked) v
  | inr (i, known) ↦
      let held = (find_peer_by_addr-Holds srv.peers from i known).0 in
      rw (known, ack_locked) (touch-IsValid srv i _ v held _ (touches _ _ refl refl refl))
]

-- `server_handle_disconnect`.
pub disconnect_locked-IsValid :
    (srv : Server) (from : Addr) → IsValid srv → IsValid (disconnect_locked srv from).1
unfolding disconnect_locked
disconnect_locked-IsValid srv from v = elim (Option-cases (find_peer_by_addr srv.peers from)) [
  | inl unknown ↦ rw (unknown, disconnect_locked) v
  | inr (i, known) ↦
      let held = (find_peer_by_addr-Holds srv.peers from i known).0 in
      rw (known, disconnect_locked) (leave-IsValid srv i _ v held _ refl)
]

-- `server_handle_data`.
pub data_locked-IsValid :
    (srv : Server) (src dst plen : ℕ) (from : Addr)
    → IsValid srv
    → IsValid (data_locked srv src dst plen from).1
unfolding data_locked count_bytes_in
data_locked-IsValid srv src dst plen from v =
    elim (Option-cases (find_peer_by_addr srv.peers from)) [
      | inl unknown ↦ rw (unknown, data_locked) v
      | inr (i, known) ↦
          let held = (find_peer_by_addr-Holds srv.peers from i known).0 in
          elim (Bool-cases (src == (peer_at srv.peers i).virt_ip)) [
            | inl own ↦
                rw (known, data_locked, own)
                  (touch-IsValid srv i _ v held _ (touches _ _ refl refl refl))
            | inr spoof ↦ rw (known, data_locked, spoof) v
          ]
    ]

-- `server_add_peer_bytes_out`, with a snapshot of any age.
pub add_peer_bytes_out-IsValid :
    (srv : Server) (s : Snapshot) (n : ℕ) → IsValid srv → IsValid (add_peer_bytes_out srv s n)
unfolding add_peer_bytes_out
add_peer_bytes_out-IsValid srv s n v = elim (Bool-cases (n == 0)) [
  | inl nothing ↦ rw nothing v
  | inr some_bytes ↦
      elim (Bool-cases (ltb s.idx max_peers && still_holds (peer_at srv.peers s.idx) s)) [
        | inl holds ↦
            let held : Holds srv.peers s.idx (peer_at srv.peers s.idx) = (
              get_elem?-get_or srv.peers s.idx empty_peer (ground (arith, v.size)),
              ground arith,
            ) in
            rw (some_bytes, holds) (touch-IsValid srv s.idx _ v held _ (touches _ _ refl refl refl))
        | inr gone ↦ rw (some_bytes, gone) v
      ]
]

register_known-IsValid :
    (srv : Server) (i sequence now : ℕ)
    → IsValid srv
    → Holds srv.peers i (peer_at srv.peers i)
    → IsValid (register_known srv i sequence now).1
unfolding register_known
register_known-IsValid srv i sequence now v held =
    elim (Bool-cases (replay_accept (peer_at srv.peers i).replay sequence).0) [
      | inl accepted ↦ rw accepted (touch-IsValid srv i _ v held _ (touches _ _ refl refl refl))
      | inr old ↦ rw old (touch-IsValid srv i _ v held _ (touches _ _ refl refl refl))
    ]

-- A peer that enters under an allocated address.
new_peer-InPool :
    (payload : List ℕ) (plen idx : ℕ) (from : Addr) (sequence now host : ℕ)
    → ip_start ≤ host
    → host ≤ ip_end
    → InPool (new_peer payload plen idx (htonl host) from sequence now)
unfolding new_peer
new_peer-InPool payload plen idx from sequence now host lo hi =
    let back = htonl-htonl host (omega arith) in
    (htonl-lt host, omega (arith, back), omega (arith, back))

pub htonl_pos : (host : ℕ) → 0 < host → host < 4294967296 → (htonl host == 0) ≡ false
htonl_pos host pos small = elim (Bool-cases (htonl host == 0)) [
  | inl e ↦
      absurd
        (omega (arith, htonl-htonl host small, ap htonl (==→eq (htonl host) 0 e), zero_swapped))
  | inr e ↦ e
]
  where
    zero_swapped : htonl 0 ≡ 0
    zero_swapped = unfold htonl in refl

register_new-IsValid :
    (srv : Server) (payload : List ℕ) (plen : ℕ) (from : Addr) (sequence now : ℕ) (slot : Option ℕ)
    → IsValid srv
    → find_peer_by_addr srv.peers from ≡ none
    → find_free_slot srv.peers ≡ slot
    → IsValid (register_new srv payload plen from sequence now slot).1
unfolding register_new new_peer
register_new-IsValid srv payload plen from sequence now none v unknown slot = v
register_new-IsValid srv payload plen from sequence now (some i) v unknown slot =
    let (here, free) = find_free_slot-some srv.peers i slot in
    let (host, lo, hi, vip, fresh) = alloc_ip-granted srv.peers i _ v.size here free in
    rw (vip, htonl_pos host (omega arith) (omega arith))
      (enter-IsValid srv i _ (new_peer payload plen i (htonl host) from sequence now) v here free
        refl (new_peer-InPool payload plen i from sequence now host lo hi) fresh
        (λ j q h same. find_peer_by_addr-none srv.peers from j q unknown h same))

-- `server_handle_register`, for a known and for a new endpoint.
pub register_locked-IsValid :
    (srv : Server) (payload : List ℕ) (plen : ℕ) (from : Addr) (sequence now : ℕ)
    → IsValid srv
    → IsValid (register_locked srv payload plen from sequence now).1
unfolding register_locked
register_locked-IsValid srv payload plen from sequence now v =
    elim (Option-cases (find_peer_by_addr srv.peers from)) [
      | inl unknown ↦
          rw (unknown, register_locked)
            (register_new-IsValid srv payload plen from sequence now _ v unknown refl)
      | inr (i, known) ↦
          let held = (find_peer_by_addr-Holds srv.peers from i known).0 in
          rw (known, register_locked) (register_known-IsValid srv i sequence now v held)
    ]

-- What a sweep does to the table: it gives slots up and changes nothing else.
record Swept (ps : List Peer) (r : Sweep) : Type 0 where
  same_size : length r.table ≡ length ps
  counted : count_active r.table + length r.expired ≡ count_active ps
  kept : (j : ℕ) (p : Peer) → Holds r.table j p → Holds ps j p

kept_cons :
    (table ps : List Peer) (p p' : Peer)
    → (p'.active ≡ true → p' ≡ p)
    → ((j : ℕ) (q : Peer) → Holds table j q → Holds ps j q)
    → (j : ℕ) (q : Peer) → Holds (p' ∷ table) j q
    → Holds (p ∷ ps) j q
kept_cons table ps p p' same rest zero q h = (
  sym (ap some (same (subst (λ (x : Peer). x.active ≡ true) (sym (same_peer p' q h.0)) h.1))) ∙ h.0,
  h.1,
)
kept_cons table ps p p' same rest (suc j) q h = rest j q h

sweep_slot-Swept :
    (p : Peer) (i : ℕ) (ps : List Peer) (rest : Sweep) (t a : Bool)
    → (t ≡ true → p.active ≡ true)
    → Swept ps rest
    → Swept (p ∷ ps) (sweep_slot p i rest t a)
unfolding sweep_slot count_active
sweep_slot-Swept p i ps rest true a on s = record {
  same_size = ap suc s.same_size;
  counted = ground (arith, on refl, s.counted);
  kept =
      kept_cons rest.table ps p (record p { active = false }) (λ e. absurd (ground arith)) s.kept;
}
sweep_slot-Swept p i ps rest false true on s = record {
  same_size = ap suc s.same_size;
  counted = omega (arith, s.counted);
  kept = kept_cons rest.table ps p p (λ _. refl) s.kept;
}
sweep_slot-Swept p i ps rest false false on s = record {
  same_size = ap suc s.same_size;
  counted = omega (arith, s.counted);
  kept = kept_cons rest.table ps p p (λ _. refl) s.kept;
}

sweep_from-Swept : (i : ℕ) (ps : List Peer) (now : ℕ) → Swept ps (sweep_from i ps now)
unfolding sweep_from count_active
sweep_from-Swept i [] now = record { same_size = refl; counted = refl; kept = λ j p h. h }
sweep_from-Swept i (p ∷ ps) now =
    sweep_slot-Swept p i ps (sweep_from (suc i) ps now) (timed_out p now) p.active
      (λ t. ground arith) (sweep_from-Swept (suc i) ps now)

-- The loop of `server_timeout_thread` under the lock.
pub sweep_locked-IsValid : (srv : Server) (now : ℕ) → IsValid srv → IsValid (sweep_locked srv now).3
unfolding sweep_locked
sweep_locked-IsValid srv now v =
    let s = sweep_from-Swept 0 srv.peers now in
    record {
      size = s.same_size ∙ v.size;
      counted = omega (arith, v.counted, s.counted);
      vips = λ i j p q hp hq. v.vips i j p q (s.kept i p hp) (s.kept j q hq);
      addrs = λ i j p q hp hq. v.addrs i j p q (s.kept i p hp) (s.kept j q hq);
      pool = λ i p h. v.pool i p (s.kept i p h);
    }
