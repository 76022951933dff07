-- ===== src/Protocol/Replay/Stream.antt =====
-- The numbers that `proto_next_sequence` gives one sender, at the window of one receiver.
use tund.Base.{
  ℕ, zero, suc, ◌+◌, ◌^◌, ◌<◌, Bool, true, false, ◌&&◌, List, [], ◌∷◌, Option, none, some, ◌≡◌, ◌⊎◌,
  inl, inr, refl, arith,
}
use tund.World.{World, Os, HasEntropy}
use tund.Protocol.Header.{next_sequence}
use tund.Protocol.Header.Laws.{Numbered, next_sequence-Numbered}
use tund.Protocol.Replay.{Window, replay_accept}

-- The numbers of so many messages.
unfoldable pub numbers : Os → World → ℕ → List (Option ℕ)
numbers os w zero = []
numbers os w (suc n) = let (number, w') = next_sequence os w in number ∷ numbers os w' n

-- Whether a window accepts every one of them, one after the other.
unfoldable pub accepts_all : Window → List (Option ℕ) → Bool
accepts_all v [] = true
accepts_all v (none ∷ ns) = false
accepts_all v (some n ∷ ns) =
    let (accepted, v') = replay_accept v n in accepted && accepts_all v' ns

-- A number above the window's is accepted and becomes the highest.
accepts_above :
    (v : Window) (n : ℕ)
    → v.highest < n
    → ((replay_accept v n).0 ≡ true) × ((replay_accept v n).1.highest ≡ n)
unfolding replay_accept
accepts_above v n above = ground arith

-- One number, and the ones that follow.
then_rest :
    (os : Os) (w : World) (v : Window) (n : ℕ) (d : Numbered w (next_sequence os w))
    → v.highest < d.number
    → accepts_all (replay_accept v d.number).1 (numbers os (next_sequence os w).1 n) ≡ true
    → accepts_all v (numbers os w (suc n)) ≡ true
unfolding numbers accepts_all
then_rest os w v n d above rest =
    rw (d.returns, accepts_all) (rw ((accepts_above v d.number above).0) rest)

running :
    (os : Os) (w : World) (v : Window) (n : ℕ)
    → HasEntropy os
    → v.highest < w.next_sequence
    → w.next_sequence + n < 2 ^ 64
    → accepts_all v (numbers os w n) ≡ true
unfolding numbers accepts_all
running os w v zero entropy above room = refl
running os w v (suc n) entropy above room =
    let d = next_sequence-Numbered os w entropy (omega arith) in
    let same : d.number ≡ w.next_sequence = ground (arith, d.origin) in
    let higher : v.highest < d.number = omega arith in
    let next = d.next in
    then_rest os w v n d higher (
      running os (next_sequence os w).1 (replay_accept v d.number).1 n entropy
        (omega (arith, (accepts_above v d.number higher).1)) (omega arith))

-- With entropy, the numbers that proto_next_sequence gives for fewer than 2 ^ 63 messages of one
-- sender in a row are all accepted, in their order, by a window that has seen only numbers below
-- the counter, where the counter does not reach 2 ^ 64, and by a reset window where the counter
-- starts unset.
pub numbers-accepted :
    (os : Os) (w : World) (v : Window) (n : ℕ)
    → HasEntropy os
    → n < 2 ^ 63
    → (v.highest < w.next_sequence) × (w.next_sequence + n < 2 ^ 64)
      ⊎ (v.highest ≡ 0) × (w.next_sequence ≡ 0)
    → accepts_all v (numbers os w n) ≡ true
unfolding numbers accepts_all
numbers-accepted os w v n entropy few (inl (above, room)) = running os w v n entropy above room
numbers-accepted os w v zero entropy few (inr (reset, unset)) = refl
numbers-accepted os w v (suc n) entropy few (inr (reset, unset)) =
    let d = next_sequence-Numbered os w entropy (omega arith) in
    let low : d.number < 2 ^ 63 = ground (arith, d.origin) in
    let higher : v.highest < d.number = omega (arith, d.positive) in
    let next = d.next in
    then_rest os w v n d higher (
      running os (next_sequence os w).1 (replay_accept v d.number).1 n entropy
        (omega (arith, (accepts_above v d.number higher).1)) (omega arith))
