-- ===== src/Server/Exact.antt =====
-- What a sweep makes of every slot, and whom a broadcast reaches.
use tund.Base.{
  ℕ, zero, suc, ◌+◌, ◌-◌, ◌≤◌, Bool, true, false, not, ◌&&◌, List, [], ◌∷◌, some, ◌≡◌, ◌≢◌, ◌↔◌,
  refl, sym, ap, ◌∙◌, subst, arith, ◌⊎◌, inl, inr, get_elem?, Bool-cases, ltb, ◌==◌, if◌then◌else◌,
}
use tund.Peers.{Peer}
use tund.Peers.Table.{Holds}
use tund.Server.State.{Server, Snapshot, snapshot_peer, snapshot_from, snapshot_broadcast}
use tund.Server.Pool.{same_peer}
use tund.Server.Timeout.{Sweep, sweep_slot, sweep_from, sweep_locked, timed_out}

-- A slot after the sweep.
abbrev pub after_sweep : Peer → ℕ → Peer
after_sweep p now = if timed_out p now then record p { active = false } else p

sweep_slot_head :
    (p : Peer) (i : ℕ) (rest : Sweep) (t a : Bool)
    → (sweep_slot p i rest t a).table ≡ (if t then record p { active = false } else p) ∷ rest.table
unfolding sweep_slot
sweep_slot_head p i rest true a = refl
sweep_slot_head p i rest false true = refl
sweep_slot_head p i rest false false = refl

sweep_from-slot :
    (i : ℕ) (ps : List Peer) (now j : ℕ) (p : Peer)
    → get_elem? ps j ≡ some p
    → get_elem? (sweep_from i ps now).table j ≡ some (after_sweep p now)
unfolding sweep_from
sweep_from-slot i [] now j p h = cc
sweep_from-slot i (q ∷ ps) now zero p h =
    ap (λ l. get_elem? l 0)
      (sweep_slot_head q i (sweep_from (suc i) ps now) (timed_out q now) q.active)
    ∙ ap (λ x. some (after_sweep x now)) (same_peer q p h)
sweep_from-slot i (q ∷ ps) now (suc j) p h =
    ap (λ l. get_elem? l (suc j))
      (sweep_slot_head q i (sweep_from (suc i) ps now) (timed_out q now) q.active)
    ∙ sweep_from-slot (suc i) ps now j p h

stays_recent :
    (p : Peer) (now : ℕ)
    → (after_sweep p now).active ≡ true
    → now - (after_sweep p now).last_seen ≤ 30
stays_recent p now h = elim (Bool-cases (timed_out p now)) [
  | inl late ↦ absurd (ground arith)
  | inr fine ↦ ground arith
]

-- After the sweep of the timeout thread each slot holds what it held before, but for an active
-- peer that was last seen more than 30 seconds ago, whose slot is given up.
pub sweep_locked-exact :
    (srv : Server) (now j : ℕ) (p : Peer)
    → get_elem? srv.peers j ≡ some p
    → get_elem? (sweep_locked srv now).3.peers j
      ≡ some (if p.active && ltb 30 (now - p.last_seen) then record p { active = false } else p)
unfolding sweep_locked
sweep_locked-exact srv now j p h = sweep_from-slot 0 srv.peers now j p h

-- A snapshot stands in a list.
abbrev pub IsIn : Snapshot → List Snapshot → Type 0
IsIn s l = (k : ℕ) × (get_elem? l k ≡ some s)

-- An active peer in another slot, and the snapshot of it.
abbrev pub IsOther : List Peer → ℕ → ℕ → Snapshot → Type 0
IsOther ps i x s = (j : ℕ) × (p : Peer) × Holds ps j p × (i + j ≢ x) × (s ≡ snapshot_peer p (i + j))

later :
    (q : Peer) (ps : List Peer) (i x : ℕ) (s : Snapshot)
    → IsOther ps (suc i) x s
    → IsOther (q ∷ ps) i x s
later q ps i x s (j, p, h, ne, e) =
    let step : suc i + j ≡ i + suc j = omega arith in
    (suc j, p, h, omega (arith, ne), e ∙ ap (snapshot_peer p) step)

-- A list that may have got a head.
abbrev headed : Bool → Snapshot → List Snapshot → List Snapshot
headed b a l = if b then a ∷ l else l

head_or_tail :
    (b : Bool) (a : Snapshot) (l : List Snapshot) (s : Snapshot)
    → IsIn s (headed b a l)
    → ((b ≡ true) × (s ≡ a)) ⊎ IsIn s l
head_or_tail true a l s (zero, e) = inl (refl, cc)
head_or_tail true a l s (suc k, e) = inr (k, e)
head_or_tail false a l s m = inr m

IsIn-head : (b : Bool) (a : Snapshot) (l : List Snapshot) → b ≡ true → IsIn a (headed b a l)
IsIn-head true a l e = (0, refl)
IsIn-head false a l e = absurd (ground arith)

IsIn-tail :
    (b : Bool) (a : Snapshot) (l : List Snapshot) (s : Snapshot) → IsIn s l → IsIn s (headed b a l)
IsIn-tail true a l s (k, e) = (suc k, e)
IsIn-tail false a l s m = m

snapshot_from-IsOther :
    (i : ℕ) (ps : List Peer) (x : ℕ) (s : Snapshot)
    → IsIn s (snapshot_from i ps (some x))
    → IsOther ps i x s
unfolding snapshot_from
snapshot_from-IsOther i [] x s (k, h) = cc
snapshot_from-IsOther i (q ∷ ps) x s m =
    elim (head_or_tail (q.active && not (i == x)) (snapshot_peer q i)
      (snapshot_from (suc i) ps (some x)) s m) [
        | inl (on, e) ↦
            let here : i ≡ i + 0 = omega arith in
            (0, q, (refl, ground arith), ground arith, e ∙ ap (snapshot_peer q) here)
        | inr tail ↦ later q ps i x s (snapshot_from-IsOther (suc i) ps x s tail)
      ]

snapshot_from-IsIn :
    (i : ℕ) (ps : List Peer) (x : ℕ) (s : Snapshot)
    → IsOther ps i x s
    → IsIn s (snapshot_from i ps (some x))
unfolding snapshot_from
snapshot_from-IsIn i [] x s (j, p, h, ne, e) = cc (h.0)
snapshot_from-IsIn i (q ∷ ps) x s (zero, p, h, ne, e) =
    let here : i + 0 ≡ i = omega arith in
    let same : q ≡ p = same_peer q p h.0 in
    let on : q.active ≡ true = subst (λ (r : Peer). r.active ≡ true) (sym same) h.1 in
    let test : (q.active && not (i == x)) ≡ true = rw on (ground arith) in
    subst (λ t. IsIn t (snapshot_from i (q ∷ ps) (some x)))
      (sym (e ∙ ap (snapshot_peer p) here ∙ ap (λ r. snapshot_peer r i) (sym same)))
      (IsIn-head (q.active && not (i == x)) (snapshot_peer q i) (snapshot_from (suc i) ps (some x))
        test)
snapshot_from-IsIn i (q ∷ ps) x s (suc j, p, h, ne, e) =
    let step : i + suc j ≡ suc i + j = omega arith in
    IsIn-tail (q.active && not (i == x)) (snapshot_peer q i) (snapshot_from (suc i) ps (some x)) s (
      snapshot_from-IsIn (suc i) ps x s (j, p, h, omega (arith, ne), e ∙ ap (snapshot_peer p) step))

-- An active peer in another slot than `x`, and the snapshot of it.
abbrev pub IsAnother : List Peer → ℕ → Snapshot → Type 0
IsAnother ps x s = (j : ℕ) × (p : Peer) × Holds ps j p × (j ≢ x) × (s ≡ snapshot_peer p j)

from_zero : (ps : List Peer) (x : ℕ) (s : Snapshot) → IsOther ps 0 x s → IsAnother ps x s
from_zero ps x s (j, p, h, ne, e) =
    let z : 0 + j ≡ j = omega arith in (j, p, h, omega (arith, ne), e ∙ ap (snapshot_peer p) z)

to_zero : (ps : List Peer) (x : ℕ) (s : Snapshot) → IsAnother ps x s → IsOther ps 0 x s
to_zero ps x s (j, p, h, ne, e) =
    let z : j ≡ 0 + j = omega arith in (j, p, h, omega (arith, ne), e ∙ ap (snapshot_peer p) z)

-- A snapshot stands in a broadcast that leaves out one slot exactly when it is the snapshot of an
-- active peer in another slot.
pub snapshot_broadcast-exact :
    (ps : List Peer) (x : ℕ) (s : Snapshot)
    → IsIn s (snapshot_broadcast ps (some x)) ↔ IsAnother ps x s
unfolding snapshot_broadcast
snapshot_broadcast-exact ps x s = (
  λ m. from_zero ps x s (snapshot_from-IsOther 0 ps x s m),
  λ o. snapshot_from-IsIn 0 ps x s (to_zero ps x s o),
)
