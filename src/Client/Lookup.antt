-- ===== src/Client/Lookup.antt =====
-- What the loop of `client_update_peer` finds.
use tund.Base.{
  ℕ, zero, suc, ◌+◌, Bool, true, false, not, List, [], ◌∷◌, Option, none, some, ◌≡◌, refl, subst,
  arith, ◌⊎◌, inl, inr, if◌then◌else◌, get_elem?,
}
use tund.Peers.{Peer, has_vip}
use tund.Client.State.{Found, find_from}

-- A peer of a table at a place counted from `i`.
abbrev pub At : (Peer → Bool) → ℕ → List Peer → ℕ → Type 0
At test i ps k = (j : ℕ) × (p : Peer) × (k ≡ i + j) × (get_elem? ps j ≡ some p) × (test p ≡ true)

abbrev pub is_idle : Peer → Bool
is_idle p = not p.active

one_on :
    (test : Peer → Bool) (i : ℕ) (q : Peer) (ps : List Peer) (k : ℕ)
    → At test (suc i) ps k
    → At test i (q ∷ ps) k
one_on test i q ps k (j, p, e, h, t) = (suc j, p, omega (arith, e), h, t)

-- The two ends of a turn of the loop.
abbrev turn : Bool → ℕ → Option ℕ → Found → Found
turn b i free rest = if b then record { idx = some i; free_idx = free } else rest

turn_idx :
    (b : Bool) (i : ℕ) (free : Option ℕ) (rest : Found) (k : ℕ)
    → (turn b i free rest).idx ≡ some k
    → ((b ≡ true) × (k ≡ i)) ⊎ (rest.idx ≡ some k)
turn_idx true i free rest k h = inl (refl, cc)
turn_idx false i free rest k h = inr h

turn-none :
    (b : Bool) (i : ℕ) (free : Option ℕ) (rest : Found)
    → (turn b i free rest).idx ≡ none
    → (b ≡ false) × (rest.idx ≡ none)
turn-none true i free rest h = cc
turn-none false i free rest h = (refl, h)

turn_free :
    (b : Bool) (i : ℕ) (free : Option ℕ) (rest : Found) (f : ℕ)
    → (turn b i free rest).free_idx ≡ some f
    → (free ≡ some f) ⊎ (rest.free_idx ≡ some f)
turn_free true i free rest f h = inl h
turn_free false i free rest f h = inr h

-- The first free slot so far, after a slot.
abbrev next_free : Bool → ℕ → Option ℕ → Option ℕ
next_free idle i free = if idle then elim free [ none ↦ some i | some f ↦ some f ] else free

next_free_cases :
    (idle : Bool) (i : ℕ) (free : Option ℕ) (f : ℕ)
    → next_free idle i free ≡ some f
    → (free ≡ some f) ⊎ ((idle ≡ true) × (f ≡ i))
next_free_cases true i none f h = inr (refl, cc)
next_free_cases true i (some g) f h = inl h
next_free_cases false i free f h = inl h

pub find_from-found :
    (vip i : ℕ) (ps : List Peer) (free : Option ℕ) (k : ℕ)
    → (find_from vip i ps free).idx ≡ some k
    → At (has_vip vip) i ps k
unfolding find_from
find_from-found vip i [] free k h = cc
find_from-found vip i (q ∷ ps) free k h =
    elim (turn_idx (has_vip vip q) i free
      (find_from vip (suc i) ps (next_free (not q.active) i free)) k h) [
        | inl (t, e) ↦ (0, q, omega (arith, e), refl, t)
        | inr rest ↦
            one_on (has_vip vip) i q ps k
              (find_from-found vip (suc i) ps (next_free (not q.active) i free) k rest)
      ]

pub find_from-absent :
    (vip i : ℕ) (ps : List Peer) (free : Option ℕ) (j : ℕ) (p : Peer)
    → (find_from vip i ps free).idx ≡ none
    → get_elem? ps j ≡ some p
    → has_vip vip p ≡ false
unfolding find_from
find_from-absent vip i [] free j p h e = cc
find_from-absent vip i (q ∷ ps) free zero p h e =
    subst (λ x. has_vip vip x ≡ false) (same q p e)
      (turn-none (has_vip vip q) i free (find_from vip (suc i) ps (next_free (not q.active) i free))
        h).0
  where
    same : (a b : Peer) → some a ≡ some b → a ≡ b
    same a b h = cc
find_from-absent vip i (q ∷ ps) free (suc j) p h e =
    find_from-absent vip (suc i) ps (next_free (not q.active) i free) j p
      (turn-none (has_vip vip q) i free (find_from vip (suc i) ps (next_free (not q.active) i free))
        h).1
      e

pub find_from-free :
    (vip i : ℕ) (ps : List Peer) (free : Option ℕ) (f : ℕ)
    → (find_from vip i ps free).free_idx ≡ some f
    → (free ≡ some f) ⊎ At is_idle i ps f
unfolding find_from
find_from-free vip i [] free f h = inl h
find_from-free vip i (q ∷ ps) free f h =
    elim (turn_free (has_vip vip q) i free
      (find_from vip (suc i) ps (next_free (not q.active) i free)) f h) [
        | inl old ↦ inl old
        | inr rest ↦ elim (find_from-free vip (suc i) ps (next_free (not q.active) i free) f rest) [
          | inl new ↦ elim (next_free_cases (not q.active) i free f new) [
            | inl old ↦ inl old
            | inr (idle, e) ↦ inr (0, q, omega (arith, e), refl, idle)
          ]
          | inr later ↦ inr (one_on is_idle i q ps f later)
        ]
      ]
