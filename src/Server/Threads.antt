-- ===== src/Server/Threads.antt =====
-- The receive loop, the timeout thread and the TUN thread share the table under one lock. A step is
-- one critical section, of any of them, with any arguments; between two steps of a handler the
-- others may take theirs.
use tund.Base.{ℕ, zero, suc, List, ◌≡◌, refl, sym, arith, replicate, length-replicate}
use tund.World.{Addr}
use tund.Peers.{Peer, empty_peer, count_active}
use tund.Peers.Table.{Holds}
use tund.Server.State.{Server, Snapshot, server_init_table, add_peer_bytes_out}
use tund.Server.Invariant.{IsValid}
use tund.Server.Preserve.{
  accept_registered_sequence-IsValid, keepalive_locked-IsValid, ack_locked-IsValid,
  disconnect_locked-IsValid, data_locked-IsValid, add_peer_bytes_out-IsValid,
  register_locked-IsValid, sweep_locked-IsValid,
}
use tund.Server.Register.{register_locked}
use tund.Server.Data.{data_locked}
use tund.Server.Session.{
  accept_registered_sequence, keepalive_locked, ack_locked, disconnect_locked,
}
use tund.Server.Timeout.{sweep_locked}

pub data Step (srv : Server) : Server → Type 0 where
  registers :
      (payload : List ℕ) (plen : ℕ) (from : Addr) (sequence now : ℕ)
      → Step srv (register_locked srv payload plen from sequence now).1
  accepts : (from : Addr) (sequence : ℕ) → Step srv (accept_registered_sequence srv from sequence).1
  keeps : (from : Addr) (now : ℕ) → Step srv (keepalive_locked srv from now).1
  acks : (from : Addr) (sample now : ℕ) → Step srv (ack_locked srv from sample now)
  disconnects : (from : Addr) → Step srv (disconnect_locked srv from).1
  routes : (src dst plen : ℕ) (from : Addr) → Step srv (data_locked srv src dst plen from).1
  counts : (s : Snapshot) (n : ℕ) → Step srv (add_peer_bytes_out srv s n)
  sweeps : (now : ℕ) → Step srv (sweep_locked srv now).3

pub data Reach (srv : Server) : Server → Type 0 where
  here : Reach srv srv
  next : {s t : Server} → Reach srv s → Step s t → Reach srv t

pub Step-IsValid : {s t : Server} → Step s t → IsValid s → IsValid t
Step-IsValid {s} (registers payload plen from sequence now) v =
    register_locked-IsValid s payload plen from sequence now v
Step-IsValid {s} (accepts from sequence) v = accept_registered_sequence-IsValid s from sequence v
Step-IsValid {s} (keeps from now) v = keepalive_locked-IsValid s from now v
Step-IsValid {s} (acks from sample now) v = ack_locked-IsValid s from sample now v
Step-IsValid {s} (disconnects from) v = disconnect_locked-IsValid s from v
Step-IsValid {s} (routes src dst plen from) v = data_locked-IsValid s src dst plen from v
Step-IsValid {s} (counts c n) v = add_peer_bytes_out-IsValid s c n v
Step-IsValid {s} (sweeps now) v = sweep_locked-IsValid s now v

-- Whatever the threads do and in whatever order, a valid table stays valid.
pub Reach-IsValid : {s t : Server} → IsValid s → Reach s t → IsValid t
Reach-IsValid v here = v
Reach-IsValid v (next r st) = Step-IsValid st (Reach-IsValid v r)

pub Reach-trans : {s t u : Server} → Reach s t → Reach t u → Reach s u
Reach-trans r here = r
Reach-trans r (next q st) = next (Reach-trans r q) st

abbrev one : {s t : Server} → Step s t → Reach s t
one st = next here st

count_active_empty : (n : ℕ) → count_active (replicate n empty_peer) ≡ 0
unfolding count_active
count_active_empty zero = refl
count_active_empty (suc n) = omega (arith, count_active_empty n)

pub not-Holds_empty : (n i : ℕ) (p : Peer) → ¬ Holds (replicate n empty_peer) i p
not-Holds_empty zero i p h = cc (h.0)
not-Holds_empty (suc n) zero p h = ground arith
not-Holds_empty (suc n) (suc i) p h = not-Holds_empty n i p h

-- The table of `server_init`.
pub server_init_table-IsValid : IsValid server_init_table
unfolding server_init_table
server_init_table-IsValid = record {
  size = length-replicate 253 empty_peer;
  counted = sym (count_active_empty 253);
  vips = λ i j p q hp hq r. absurd (not-Holds_empty 253 i p hp);
  addrs = λ i j p q hp hq r. absurd (not-Holds_empty 253 i p hp);
  pool = λ i p h. absurd (not-Holds_empty 253 i p h);
}

-- After any number of critical sections of any threads, from the table of server_init on, the
-- server's table has 253 slots, a right count of active peers, addresses of the pool only, and no
-- two active peers with one virtual address or one endpoint.
pub server_always-IsValid : (t : Server) → Reach server_init_table t → IsValid t
server_always-IsValid t r = Reach-IsValid server_init_table-IsValid r
