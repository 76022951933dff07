-- ===== src/Protocol/Replay/Refine.antt =====
-- The window's 64-bit word and the list of accepted numbers.
use tund.Base.{
  ℕ, zero, suc, ◌+◌, ◌-◌, ◌*◌, ◌%◌, ◌^◌, ◌≤◌, ◌<◌, bit_and, bit_or, Bool, true, false, List, [],
  ◌∷◌, not, ltb, leb, ◌==◌, if◌then◌else◌, ◌≡◌, ◌≢◌, refl, ap, ◌∙◌, arith, inl, inr, Bool-cases,
}
use native.Mathlib.Nat.{one-le-pow}
use tund.Base.Bits.{
  test_bit, test_bit-bit_or, test_bit-pow_self, test_bit-pow_ne, test_bit-shift_low, test_bit-shift,
  test_bit-mod, bit_and-pow, test_bit-le-one,
}
use tund.Protocol.Replay.{
  Window, replay_reset, replay_accept, advance, shl64, accept_old, accepted_from,
}
use tund.Protocol.Replay.Spec.{
  elem, maximum, is_fresh, fresh_from, elem-le-maximum, IsDistinct, fresh_from-IsDistinct,
}

abbrev bit : Bool → ℕ
bit true = 1
bit false = 0

-- The window's highest number is the list's, and its bits are the memberships near it.
pub record Tracks (w : Window) (acc : List ℕ) : Type 0 where
  pub top : w.highest ≡ maximum acc
  pub bits :
      (s : ℕ)
      → 0 < s
      → s ≤ w.highest
      → w.highest < s + 64
      → test_bit w.seen (w.highest - s) ≡ bit (elem s acc)

above_maximum : (s : ℕ) (acc : List ℕ) → maximum acc < s → elem s acc ≡ false
above_maximum s acc h = elim (Bool-cases (elem s acc)) [
  | inl e ↦ absurd (omega (arith, elem-le-maximum s acc e))
  | inr e ↦ e
]

test_bit-one : (i : ℕ) → test_bit 1 i ≡ bit (i == 0)
test_bit-one zero = test_bit-pow_self 0
test_bit-one (suc i) = ground (arith, test_bit-pow_ne 0 (suc i))

pub replay_reset-Tracks : Tracks replay_reset []
unfolding replay_reset maximum
replay_reset-Tracks = record { top = refl; bits = λ s p q r. absurd (omega arith) }

-- A first number, or one far above all others, leaves a window with its own bit alone.
lone_bit :
    (acc : List ℕ) (s t : ℕ)
    → t ≤ s
    → (t ≢ s → maximum acc < t)
    → test_bit 1 (s - t) ≡ bit (elem t (s ∷ acc))
unfolding elem
lone_bit acc s t le far = ground (arith, test_bit-one (s - t), above_maximum t acc)

-- A shift by less than 64 keeps the old bits at their new places, and sets the new number's.
shifted_bit :
    (seen h s t : ℕ) (acc : List ℕ)
    → h ≡ maximum acc
    → h < s
    → t ≤ s
    → s < t + 64
    → (t ≤ h → test_bit seen (h - t) ≡ bit (elem t acc))
    → test_bit (bit_or (seen * 2 ^ (s - h) % 2 ^ 64) 1) (s - t) ≡ bit (elem t (s ∷ acc))
unfolding elem
shifted_bit seen h s t acc top lt le near old = elim (Bool-cases (leb t h)) [
  | inl below ↦ ground (
    arith,
    test_bit-bit_or (s - t) (seen * 2 ^ (s - h) % 2 ^ 64) 1,
    test_bit-mod 64 (seen * 2 ^ (s - h)) (s - t),
    place,
    test_bit-shift seen (s - h) (h - t),
    test_bit-one (s - t),
    test_bit-le-one seen (h - t),
  )
  | inr above ↦ ground (
    arith,
    test_bit-bit_or (s - t) (seen * 2 ^ (s - h) % 2 ^ 64) 1,
    test_bit-mod 64 (seen * 2 ^ (s - h)) (s - t),
    test_bit-shift_low seen (s - h) (s - t),
    test_bit-one (s - t),
    above_maximum t acc,
  )
]
  where
    place : t ≤ h → s - t ≡ h - t + (s - h)
    place p = omega arith

-- The test `(seen & bit) != 0` reads the bit of that age.
masked_is_elem :
    (seen age : ℕ) (b : Bool) → test_bit seen age ≡ bit b → (bit_and seen (2 ^ age) == 0) ≡ not b
masked_is_elem seen age true h = ground (arith, bit_and-pow age seen, one-le-pow age 2)
masked_is_elem seen age false h = ground (arith, bit_and-pow age seen)

-- Setting the bit of a number's age adds that number, and changes no other bit.
marked_bit :
    (seen h s t : ℕ) (acc : List ℕ)
    → s ≤ h
    → t ≤ h
    → test_bit seen (h - t) ≡ bit (elem t acc)
    → test_bit (bit_or seen (2 ^ (h - s))) (h - t) ≡ bit (elem t (s ∷ acc))
unfolding elem
marked_bit seen h s t acc sh th old = ground (
  arith,
  test_bit-bit_or (h - t) seen (2 ^ (h - s)),
  test_bit-pow_self (h - s),
  test_bit-pow_ne (h - s) (h - t),
  test_bit-le-one seen (h - t),
)

-- What a verdict must be, and what the window must then be.
abbrev pub Refines : List ℕ → ℕ → Bool × Window → Type 0
Refines acc s (verdict, w') =
    (verdict ≡ is_fresh acc s) × Tracks w' (if verdict then s ∷ acc else acc)

accept_old-Refines :
    (w : Window) (acc : List ℕ) (s : ℕ)
    → Tracks w acc
    → 0 < s
    → s ≤ w.highest
    → Refines acc s (accept_old w (w.highest - s))
unfolding accept_old is_fresh maximum
accept_old-Refines w acc s v pos le = elim (Bool-cases (leb 64 (w.highest - s))) [
  | inl late ↦ rw late (ground arith, v)
  | inr near ↦ elim (Bool-cases (elem s acc)) [
    | inl old ↦ rw (near, mask near, old) (ground arith, v)
    | inr new ↦
        rw (near, mask near, new)
          (
            ground arith,
            record {
              top = ground (arith, v.top);
              bits = λ t p q r. marked_bit w.seen w.highest s t acc le q (v.bits t p q r);
            },
          )
  ]
]
  where
    mask :
        leb 64 (w.highest - s) ≡ false
        → (bit_and w.seen (2 ^ (w.highest - s)) == 0) ≡ not (elem s acc)
    mask near = masked_is_elem w.seen (w.highest - s) (elem s acc) (v.bits s pos le (ground arith))

-- In a window that tracks a list of accepted numbers, each call decides as the list does and
-- leaves a window that tracks the list after it.
pub replay_accept-Refines :
    (w : Window) (acc : List ℕ) (s : ℕ) → Tracks w acc → Refines acc s (replay_accept w s)
unfolding replay_accept advance maximum
replay_accept-Refines w acc s v = elim (Bool-cases (s == 0)) [
  | inl void ↦ rw void (unfold is_fresh in ground arith, v)
  | inr real ↦ elim (Bool-cases (w.highest == 0)) [
    | inl first ↦
        rw (real, first)
          (
            unfold is_fresh in ground (arith, v.top, above_maximum s acc),
            record {
              top = ground (arith, v.top);
              bits = λ t p q r. lone_bit acc s t q (λ _. ground (arith, v.top));
            },
          )
    | inr started ↦ elim (Bool-cases (ltb w.highest s)) [
      | inl newer ↦
          rw (real, started, newer)
            (
              unfold is_fresh in ground (arith, v.top, above_maximum s acc),
              record { top = ground (arith, v.top); bits = λ t p q r. advance_bits newer t p q r },
            )
      | inr older ↦
          rw (real, started, older) (accept_old-Refines w acc s v (ground arith) (ground arith))
    ]
  ]
]
  where
    advance_bits :
        ltb w.highest s ≡ true
        → (t : ℕ) → 0 < t
        → t ≤ s
        → s < t + 64
        → test_bit
            (if leb 64 (s - w.highest) then 1 else bit_or (shl64 w.seen (s - w.highest)) 1)
            (s - t)
          ≡ bit (elem t (s ∷ acc))
    advance_bits newer t p q r = elim (Bool-cases (leb 64 (s - w.highest))) [
      | inl far ↦ rw far (lone_bit acc s t q (λ ne. ground (arith, v.top)))
      | inr near ↦ rw near (
          shifted_bit w.seen w.highest s t acc v.top (ground arith) q r
            (λ le. v.bits t p le (ground arith)))
    ]

-- Over any run, the numbers that the window accepts are those that the specification accepts.
pub accepted_from-eq-fresh_from :
    (w : Window) (acc ss : List ℕ) → Tracks w acc → accepted_from w acc ss ≡ fresh_from acc ss
unfolding accepted_from fresh_from
accepted_from-eq-fresh_from w acc [] v = refl
accepted_from-eq-fresh_from w acc (s ∷ ss) v =
    let (verdict, next) = replay_accept-Refines w acc s v in
    accepted_from-eq-fresh_from (replay_accept w s).1
      (if (replay_accept w s).0 then s ∷ acc else acc) ss next
    ∙ ap (λ b. fresh_from (if b then s ∷ acc else acc) ss) verdict

-- From a reset window, whatever numbers arrive and in whatever order and repetition: the window
-- accepts exactly those that are not 0, were not accepted before and lie less than 64 below the
-- highest accepted so far, and no number is accepted twice.
pub replay_window_sound :
    (ss : List ℕ)
    → (accepted_from replay_reset [] ss ≡ fresh_from [] ss)
      × IsDistinct (accepted_from replay_reset [] ss)
replay_window_sound ss =
    let same = accepted_from-eq-fresh_from replay_reset [] ss replay_reset-Tracks in
    (same, rw same (fresh_from-IsDistinct [] ss tt))
