-- ===== src/Protocol/Replay/Spec.antt =====
-- What a replay window promises, over the list of the numbers that it has accepted.
use tund.Base.{ℕ, ◌+◌, ◌≤◌, max, Bool, true, false, not, ◌&&◌, ◌||◌, List, [], ◌∷◌}
use tund.Base.{ltb, ◌==◌, if◌then◌else◌, ◌≡◌, arith}

unfoldable pub elem : ℕ → List ℕ → Bool
elem a [] = false
elem a (x ∷ xs) = a == x || elem a xs

unfoldable pub maximum : List ℕ → ℕ
maximum [] = 0
maximum (x ∷ xs) = max x (maximum xs)

-- A number is accepted when it is not 0, is new, and lies less than 64 below the highest so far.
unfoldable pub is_fresh : List ℕ → ℕ → Bool
is_fresh acc s = not (s == 0) && not (elem s acc) && ltb (maximum acc) (s + 64)

unfoldable pub fresh_from : List ℕ → List ℕ → List ℕ
fresh_from acc [] = acc
fresh_from acc (s ∷ ss) = fresh_from (if is_fresh acc s then s ∷ acc else acc) ss

-- No number stands twice in a list.
abbrev pub IsDistinct : List ℕ → Type 0
IsDistinct [] = Unit {0}
IsDistinct (x ∷ xs) = (elem x xs ≡ false) × IsDistinct xs

pub elem-le-maximum : (a : ℕ) (xs : List ℕ) → elem a xs ≡ true → a ≤ maximum xs
unfolding elem maximum
elem-le-maximum a [] h = absurd (ground arith)
elem-le-maximum a (x ∷ xs) h = ground (arith, elem-le-maximum a xs)

pub fresh_from-IsDistinct : (acc ss : List ℕ) → IsDistinct acc → IsDistinct (fresh_from acc ss)
unfolding fresh_from
fresh_from-IsDistinct acc [] d = d
fresh_from-IsDistinct acc (s ∷ ss) d =
    fresh_from-IsDistinct (if is_fresh acc s then s ∷ acc else acc) ss
      (unfold is_fresh in ground arith)
