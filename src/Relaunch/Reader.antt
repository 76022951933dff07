-- ===== src/Relaunch/Reader.antt =====
-- How Windows splits a command line, as it is documented: backslashes stand for themselves unless a
-- quote follows; then each two of them make one, and an odd one makes the quote a character.
use tund.Base.{
  ℕ, suc, ◌/◌, ◌%◌, true, false, List, [], ◌∷◌, ◌++◌, Option, none, some, ◌==◌, replicate,
}
use tund.Relaunch.{quote, backslash}

-- An argument and the rest of the line.
pub record Piece : Type 0 where
  pub arg : List ℕ
  pub rest : List ℕ

abbrev pub prefixed : List ℕ → Option Piece → Option Piece
prefixed p none = none
prefixed p (some r) = some (record r { arg = p ++ r.arg })

-- Inside quotes, after so many backslashes; none where the closing quote is missing.
unfoldable pub read_quoted : ℕ → List ℕ → Option Piece
read_quoted n [] = none
read_quoted n (c ∷ cs) = elim (c == backslash) [
  | true ↦ read_quoted (suc n) cs
  | false ↦ elim (c == quote) [
    | true ↦ elim (n % 2 == 0) [
      | true ↦ some (record { arg = replicate (n / 2) backslash; rest = cs })
      | false ↦ prefixed (replicate (n / 2) backslash ++ (quote ∷ [])) (read_quoted 0 cs)
    ]
    | false ↦ prefixed (replicate n backslash ++ (c ∷ [])) (read_quoted 0 cs)
  ]
]
