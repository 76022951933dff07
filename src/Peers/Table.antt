-- ===== src/Peers/Table.antt =====
-- Keys of active slots: no two active slots share one.
use tund.Base.{
  ℕ, true, false, List, ◌≡◌, ◌≢◌, sym, ◌∙◌, arith, inl, inr, some, get_elem?, set, subst,
  get_elem?-set_cases,
}
use tund.Peers.{Peer}

abbrev IsActive : Peer → Type 0
IsActive p = p.active ≡ true

-- An active peer stands in slot `i`.
abbrev pub Holds : List Peer → ℕ → Peer → Type 0
Holds ps i p = (get_elem? ps i ≡ some p) × (p.active ≡ true)

-- Two active peers that are related stand in one slot.
abbrev pub Separated : (Peer → Peer → Type 0) → List Peer → Type 0
Separated R ps = (i j : ℕ) (p q : Peer) → Holds ps i p → Holds ps j q → R p q → i ≡ j

abbrev pub SameVip : Peer → Peer → Type 0
SameVip p q = p.virt_ip ≡ q.virt_ip

abbrev pub SameAddr : Peer → Peer → Type 0
SameAddr p q = (p.real_addr.ip ≡ q.real_addr.ip) × (p.real_addr.port ≡ q.real_addr.port)

-- Every active peer has a property.
abbrev pub Actives : (Peer → Type 0) → List Peer → Type 0
Actives P ps = (i : ℕ) (p : Peer) → Holds ps i p → P p

-- A new value for a slot keeps the table separated if it clashes with no other slot.
pub Separated-set :
    (R : Peer → Peer → Type 0) (ps : List Peer) (i : ℕ) (v : Peer)
    → Separated R ps
    → (v.active ≡ true → (j : ℕ) (q : Peer) → i ≢ j → Holds ps j q → ¬ R v q × ¬ R q v)
    → Separated R (set ps i v)
Separated-set R ps i v old fresh a b p q hp hq r = elim (get_elem?-set_cases ps i a v (hp.0)) [
  | inl (ia, pv) ↦ elim (get_elem?-set_cases ps i b v (hq.0)) [
    | inl (ib, qv) ↦ sym ia ∙ ib
    | inr (nb, qb) ↦
        absurd ((fresh (subst IsActive pv hp.1) b q nb (qb, hq.1)).0 (subst (λ x. R x q) pv r))
  ]
  | inr (na, pa) ↦ elim (get_elem?-set_cases ps i b v (hq.0)) [
    | inl (ib, qv) ↦
        absurd ((fresh (subst IsActive qv hq.1) a p na (pa, hp.1)).1 (subst (λ x. R p x) qv r))
    | inr (nb, qb) ↦ old a b p q (pa, hp.1) (qb, hq.1) r
  ]
]

pub Actives-set :
    (P : Peer → Type 0) (ps : List Peer) (i : ℕ) (v : Peer)
    → Actives P ps
    → (v.active ≡ true → P v)
    → Actives P (set ps i v)
Actives-set P ps i v old new j p h = elim (get_elem?-set_cases ps i j v (h.0)) [
  | inl (ij, pv) ↦ subst P (sym pv) (new (subst IsActive pv h.1))
  | inr (ne, pj) ↦ old j p (pj, h.1)
]

-- A slot whose new value has the keys of the old one.
pub Separated-touch :
    (R : Peer → Peer → Type 0) (ps : List Peer) (i : ℕ) (p v : Peer)
    → Separated R ps
    → Holds ps i p
    → ((q : Peer) → R v q → R p q)
    → ((q : Peer) → R q v → R q p)
    → Separated R (set ps i v)
Separated-touch R ps i p v old h left right = Separated-set R ps i v old λ _ j q ne hq.
    (λ r. ne (old i j p q h hq (left q r)), λ r. ne (sym (old j i q p hq h (right q r))))

-- A slot that is given up.
pub Separated-leave :
    (R : Peer → Peer → Type 0) (ps : List Peer) (i : ℕ) (v : Peer)
    → Separated R ps
    → v.active ≡ false
    → Separated R (set ps i v)
Separated-leave R ps i v old off = Separated-set R ps i v old (λ on. absurd (ground arith))
