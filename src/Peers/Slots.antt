-- ===== src/Peers/Slots.antt =====
-- What the look-up loops find.
use tund.Base.{
  ℕ, zero, suc, ◌+◌, ◌≤◌, ◌<◌, Bool, true, false, List, [], ◌∷◌, none, some, ◌≡◌, refl, arith,
  get_elem?, set, length, if◌then◌else◌,
}
use tund.Peers.{Peer, find_index, count_active}

pub find_index-some :
    (test : Peer → Bool) (ps : List Peer) (i : ℕ)
    → find_index test ps ≡ some i
    → (p : Peer) × (get_elem? ps i ≡ some p) × (test p ≡ true)
unfolding find_index
find_index-some test [] i h = cc
find_index-some test (p ∷ ps) zero h = (p, refl, ground arith)
find_index-some test (p ∷ ps) (suc i) h = find_index-some test ps i (ground arith)

pub find_index-none :
    (test : Peer → Bool) (ps : List Peer) (i : ℕ) (p : Peer)
    → find_index test ps ≡ none
    → get_elem? ps i ≡ some p
    → test p ≡ false
unfolding find_index
find_index-none test [] i p h e = cc
find_index-none test (q ∷ ps) zero p h e = ground arith
find_index-none test (q ∷ ps) (suc i) p h e = ground (arith, find_index-none test ps i p)

-- The first slot that passes is the one that is found.
pub find_index-first :
    (test : Peer → Bool) (ps : List Peer) (i j : ℕ) (p : Peer)
    → find_index test ps ≡ some i
    → get_elem? ps j ≡ some p
    → test p ≡ true
    → i ≤ j
unfolding find_index
find_index-first test [] i j p h e t = cc
find_index-first test (q ∷ ps) zero j p h e t = omega arith
find_index-first test (q ∷ ps) (suc i) zero p h e t = absurd (ground arith)
find_index-first test (q ∷ ps) (suc i) (suc j) p h e t =
    omega (arith, find_index-first test ps i j p (ground arith) e t)

-- A slot changes the count by what it was and what it becomes.
pub count_active-set :
    (ps : List Peer) (i : ℕ) (p v : Peer)
    → get_elem? ps i ≡ some p
    → count_active (set ps i v) + (if p.active then 1 else 0)
      ≡ count_active ps + (if v.active then 1 else 0)
unfolding count_active
count_active-set [] i p v h = cc
count_active-set (q ∷ ps) zero p v h = ground arith
count_active-set (q ∷ ps) (suc i) p v h = omega (arith, count_active-set ps i p v h)

pub count_active-le-length : (ps : List Peer) → count_active ps ≤ length ps
unfolding count_active
count_active-le-length [] = omega arith
count_active-le-length (p ∷ ps) = ground (arith, count_active-le-length ps)

-- A table with a free slot is not full.
pub count_active-lt-length :
    (ps : List Peer) (i : ℕ) (p : Peer)
    → get_elem? ps i ≡ some p
    → p.active ≡ false
    → count_active ps < length ps
unfolding count_active
count_active-lt-length [] i p h f = cc
count_active-lt-length (q ∷ ps) zero p h f = ground (arith, count_active-le-length ps)
count_active-lt-length (q ∷ ps) (suc i) p h f = ground (arith, count_active-lt-length ps i p)
