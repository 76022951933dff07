-- ===== src/Relaunch/Roundtrip.antt =====
-- Windows splits the line that is written into the arguments that were given.
use tund.Base.{
  ℕ, zero, suc, ◌+◌, ◌*◌, ◌/◌, ◌%◌, ◌<◌, ◌≤◌, true, false, List, [], ◌∷◌, ◌++◌, Option, none, some,
  ◌≡◌, ◌⊎◌, refl, sym, ap, ◌∙◌, arith, inl, inr, Bool-cases, leb, ◌==◌, ==→eq, ==_self,
  if◌then◌else◌, length, replicate, replicate_last,
}
use mathlib.Core.List.{append_assoc, append-nil}
use tund.Relaunch.{quote, backslash, append_text, build_relaunch_params}
use tund.Relaunch.Reader.{Piece, prefixed, read_quoted}
use tund.Relaunch.Writes.{quoted_from, more_args, command_line, build_relaunch_params-eq}

-- Backslashes are counted.
read_quoted-slashes :
    (k n : ℕ) (xs : List ℕ) → read_quoted k (replicate n backslash ++ xs) ≡ read_quoted (n + k) xs
unfolding read_quoted
read_quoted-slashes k zero xs = ap (λ m. read_quoted m xs) (omega arith)
read_quoted-slashes k (suc n) xs =
    read_quoted-slashes (suc k) n xs ∙ ap (λ m. read_quoted m xs) (omega arith)

-- A closing quote after an even number of backslashes, and a quote after an odd number.
read_quoted-end :
    (n : ℕ) (rest : List ℕ)
    → read_quoted (n * 2) (quote ∷ rest)
      ≡ some (record { arg = replicate n backslash; rest = rest })
unfolding read_quoted
read_quoted-end n rest =
    let even : (n * 2 % 2 == 0) ≡ true = ground arith in
    let half : n * 2 / 2 ≡ n = omega arith in rw (even, read_quoted, half) refl

read_quoted-escaped :
    (n : ℕ) (xs : List ℕ)
    → read_quoted (n * 2) (backslash ∷ quote ∷ xs)
      ≡ prefixed (replicate n backslash ++ (quote ∷ [])) (read_quoted 0 xs)
unfolding read_quoted
read_quoted-escaped n xs =
    let odd : (suc (n * 2) % 2 == 0) ≡ false = ground arith in
    let half : suc (n * 2) / 2 ≡ n = omega arith in rw (odd, read_quoted, half) refl

read_quoted-plain :
    (n c : ℕ) (xs : List ℕ)
    → (c == backslash) ≡ false
    → (c == quote) ≡ false
    → read_quoted n (c ∷ xs) ≡ prefixed (replicate n backslash ++ (c ∷ [])) (read_quoted 0 xs)
unfolding read_quoted
read_quoted-plain n c xs other plain = rw (other, plain, read_quoted) refl

slashes_then :
    (n : ℕ) (xs : List ℕ) → read_quoted 0 (replicate n backslash ++ xs) ≡ read_quoted n xs
slashes_then n xs = read_quoted-slashes 0 n xs ∙ ap (λ m. read_quoted m xs) (omega arith)

abbrev with_arg : List ℕ → List ℕ → Option Piece
with_arg rest arg = some (record { arg = arg; rest = rest })

-- A character behind backslashes.
next_char :
    (n c d : ℕ) (cs : List ℕ)
    → (c == d) ≡ true
    → (replicate n backslash ++ (d ∷ [])) ++ cs ≡ replicate n backslash ++ (c ∷ cs)
next_char n c d cs same =
    append_assoc (replicate n backslash) (d ∷ []) cs
    ∙ ap (λ x. replicate n backslash ++ (x ∷ cs)) (sym (==→eq c d same))

one_more :
    (n c : ℕ) (cs : List ℕ)
    → (c == backslash) ≡ true
    → replicate (suc n) backslash ++ cs ≡ replicate n backslash ++ (c ∷ cs)
one_more n c cs slash =
    ap (λ l. l ++ cs) (replicate_last n backslash) ∙ next_char n c backslash cs slash

append_text-first :
    (size : ℕ) (t : List ℕ) → append_text size [] t ≡ (if leb size (length t) then none else some t)
unfolding append_text
append_text-first size t = ap (λ m. if leb size m then none else some t) (omega arith)

-- An argument reads back.
pub read_quoted-quoted_from :
    (n : ℕ) (arg rest : List ℕ)
    → read_quoted 0 (quoted_from n arg ++ (quote ∷ rest))
      ≡ some (record { arg = replicate n backslash ++ arg; rest = rest })
unfolding quoted_from
read_quoted-quoted_from n [] rest =
    slashes_then (n * 2) (quote ∷ rest)
    ∙ read_quoted-end n rest
    ∙ ap (with_arg rest) (sym (append-nil (replicate n backslash)))
read_quoted-quoted_from n (c ∷ cs) rest = elim (Bool-cases (c == backslash)) [
  | inl slash ↦
      rw (slash, quoted_from)
        (read_quoted-quoted_from (suc n) cs rest ∙ ap (with_arg rest) (one_more n c cs slash))
  | inr other ↦ elim (Bool-cases (c == quote)) [
    | inl quotes ↦
        rw (other, quotes, quoted_from)
          (ap (read_quoted 0) (
              append_assoc (replicate (n * 2) backslash) (backslash ∷ quote ∷ quoted_from 0 cs)
                (quote ∷ rest))
            ∙ slashes_then (n * 2) (backslash ∷ quote ∷ (quoted_from 0 cs ++ (quote ∷ rest)))
            ∙ read_quoted-escaped n (quoted_from 0 cs ++ (quote ∷ rest))
            ∙ ap (prefixed (replicate n backslash ++ (quote ∷ [])))
                (read_quoted-quoted_from 0 cs rest)
            ∙ ap (with_arg rest) (next_char n c quote cs quotes))
    | inr plain ↦
        rw (other, plain, quoted_from)
          (ap (read_quoted 0)
              (append_assoc (replicate n backslash) (c ∷ quoted_from 0 cs) (quote ∷ rest))
            ∙ slashes_then n (c ∷ (quoted_from 0 cs ++ (quote ∷ rest)))
            ∙ read_quoted-plain n c (quoted_from 0 cs ++ (quote ∷ rest)) other plain
            ∙ ap (prefixed (replicate n backslash ++ (c ∷ []))) (read_quoted-quoted_from 0 cs rest)
            ∙ ap (with_arg rest) (next_char n c c cs (==_self c)))
  ]
]

-- The arguments of a line: each in quotes, with a space before all but the first.
pub data SplitsRest : List ℕ → List (List ℕ) → Type 0 where
  ends : SplitsRest [] []
  goes_on :
      (line : List ℕ) (p : Piece) (args : List (List ℕ))
      → read_quoted 0 line ≡ some p
      → SplitsRest p.rest args
      → SplitsRest (b' ' ∷ quote ∷ line) (p.arg ∷ args)

pub data Splits : List ℕ → List (List ℕ) → Type 0 where
  no_argument : Splits [] []
  starts :
      (line : List ℕ) (p : Piece) (args : List (List ℕ))
      → read_quoted 0 line ≡ some p
      → SplitsRest p.rest args
      → Splits (quote ∷ line) (p.arg ∷ args)

reads :
    (arg rest : List ℕ)
    → read_quoted 0 ((quoted_from 0 arg ++ (quote ∷ [])) ++ rest)
      ≡ some (record { arg = arg; rest = rest })
reads arg rest =
    ap (read_quoted 0) (append_assoc (quoted_from 0 arg) (quote ∷ []) rest)
    ∙ read_quoted-quoted_from 0 arg rest

more_args-SplitsRest : (args : List (List ℕ)) → SplitsRest (more_args args) args
unfolding more_args
more_args-SplitsRest [] = ends
more_args-SplitsRest (arg ∷ args) =
    goes_on ((quoted_from 0 arg ++ (quote ∷ [])) ++ more_args args)
      (record { arg = arg; rest = more_args args }) args (reads arg (more_args args))
      (more_args-SplitsRest args)

command_line-Splits : (args : List (List ℕ)) → Splits (command_line args) args
unfolding command_line
command_line-Splits [] = no_argument
command_line-Splits (arg ∷ args) =
    starts ((quoted_from 0 arg ++ (quote ∷ [])) ++ more_args args)
      (record { arg = arg; rest = more_args args }) args (reads arg (more_args args))
      (more_args-SplitsRest args)

-- In an array of any size but 0, build_relaunch_params either gives up, and then the quoted
-- arguments do not fit the array with their NUL; or it writes a line that fits, and that Windows,
-- by its documented rules for quotes and backslashes, splits into just the arguments that were
-- given.
pub build_relaunch_params-Splits :
    (size : ℕ) (args : List (List ℕ))
    → 0 < size
    → ((build_relaunch_params size args ≡ none) × (size ≤ length (command_line args)))
      ⊎ ((line : List ℕ) × (build_relaunch_params size args ≡ some line)
          × Splits line args
          × (length line < size))
build_relaunch_params-Splits size args room =
    let e = build_relaunch_params-eq size args room ∙ append_text-first size (command_line args) in
    elim (Bool-cases (leb size (length (command_line args)))) [
      | inl full ↦ inl (e ∙ rw full refl, ground arith)
      | inr fits ↦ inr (command_line args, e ∙ rw fits refl, command_line-Splits args, ground arith)
    ]
