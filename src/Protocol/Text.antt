-- ===== src/Protocol/Text.antt =====
-- C strings in fixed `char` arrays, and `%d`.
use tund.Base.{
  ℕ, zero, suc, ◌+◌, ◌/◌, ◌%◌, ◌-◌, List, [], ◌∷◌, ◌++◌, ltb, ◌==◌, if◌then◌else◌, min, take,
  replicate, length,
}

-- The string in an array: the bytes before the first NUL.
unfoldable pub c_string : List ℕ → List ℕ
c_string [] = []
c_string (c ∷ cs) = if c == 0 then [] else c ∷ c_string cs

-- An array of `n` bytes: `memset` to 0, then a copy of at most `n` bytes into its start.
unfoldable pub char_array : ℕ → List ℕ → List ℕ
char_array n s = take n s ++ replicate (n - min n (length s)) 0

-- `%d` of a number below `10 ^ fuel`.
unfoldable pub decimal : ℕ → ℕ → List ℕ
decimal zero n = []
decimal (suc fuel) n =
    let rest = decimal fuel (n / 10) in
    if ltb n 10 then (48 + n) ∷ [] else rest ++ (48 + n % 10) ∷ []
