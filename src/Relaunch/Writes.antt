-- ===== src/Relaunch/Writes.antt =====
-- What the writers of src/app/win_runtime.c write when there is room.
use tund.Base.{
  ℕ, zero, suc, ◌+◌, ◌*◌, ◌<◌, true, false, List, [], ◌∷◌, ◌++◌, Option, some, ◌≡◌, refl, sym, ap,
  ◌∙◌, arith, inl, inr, Bool-cases, leb, ◌==◌, length, length-append, replicate,
}
use mathlib.Core.List.{append_assoc, append-nil}
use tund.Relaunch.{
  quote, backslash, append_text, and_then, append_slashes, quote_loop, append_quoted_arg,
  append_args, build_relaunch_params,
}

-- The quoted text of what is left of an argument, after so many backslashes that wait.
unfoldable pub quoted_from : ℕ → List ℕ → List ℕ
quoted_from n [] = replicate (n * 2) backslash
quoted_from n (c ∷ cs) = elim (c == backslash) [
  | true ↦ quoted_from (suc n) cs
  | false ↦ elim (c == quote) [
    | true ↦ replicate (n * 2) backslash ++ (backslash ∷ quote ∷ quoted_from 0 cs)
    | false ↦ replicate n backslash ++ (c ∷ quoted_from 0 cs)
  ]
]

abbrev pub quoted : List ℕ → List ℕ
quoted arg = quote ∷ (quoted_from 0 arg ++ (quote ∷ []))

unfoldable pub more_args : List (List ℕ) → List ℕ
more_args [] = []
more_args (arg ∷ args) = b' ' ∷ (quoted arg ++ more_args args)

unfoldable pub command_line : List (List ℕ) → List ℕ
command_line [] = []
command_line (arg ∷ args) = quoted arg ++ more_args args

-- Texts that are appended one after the other.
and_then-append :
    (size : ℕ) (buf a t : List ℕ) (f : List ℕ → Option (List ℕ))
    → ((b : List ℕ) → length b < size → f b ≡ append_text size b t)
    → and_then (append_text size buf a) f ≡ append_text size buf (a ++ t)
unfolding append_text and_then
and_then-append size buf a t f writes = elim (Bool-cases (leb size (length buf + length a))) [
  | inl full ↦
      let too_long : leb size (length buf + length (a ++ t)) ≡ true =
        ground (arith, length-append a t) in
      rw (full, too_long) refl
  | inr room ↦
      let fits : length (buf ++ a) < size = ground (arith, length-append buf a) in
      let sum : length (buf ++ a) + length t ≡ length buf + length (a ++ t) =
        omega (arith, length-append buf a, length-append a t) in
      rw room (writes (buf ++ a) fits ∙ rw (sum, append_assoc buf a t) refl)
]

-- A text of no length.
append_text-nothing :
    (size : ℕ) (buf : List ℕ) → length buf < size → append_text size buf [] ≡ some buf
unfolding append_text
append_text-nothing size buf room =
    let fits : leb size (length buf + 0) ≡ false = ground arith in rw (fits, append-nil buf) refl

append_slashes-eq :
    (size : ℕ) (buf : List ℕ) (n : ℕ)
    → length buf < size
    → append_slashes size buf n ≡ append_text size buf (replicate n backslash)
unfolding append_slashes
append_slashes-eq size buf zero room = sym (append_text-nothing size buf room)
append_slashes-eq size buf (suc n) room =
    and_then-append size buf (backslash ∷ []) (replicate n backslash) (λ b. append_slashes size b n)
      (λ b r. append_slashes-eq size b n r)

-- A text after backslashes.
slashes_then :
    (size : ℕ) (buf : List ℕ) (n : ℕ) (a t : List ℕ) (f : List ℕ → Option (List ℕ))
    → length buf < size
    → ((b : List ℕ) → length b < size → f b ≡ append_text size b t)
    → and_then (append_slashes size buf n) (λ b. and_then (append_text size b a) f)
      ≡ append_text size buf (replicate n backslash ++ (a ++ t))
slashes_then size buf n a t f room writes =
    ap (λ o. and_then o (λ b. and_then (append_text size b a) f))
      (append_slashes-eq size buf n room)
    ∙ and_then-append size buf (replicate n backslash) (a ++ t)
        (λ b. and_then (append_text size b a) f) (λ b r. and_then-append size b a t f writes)

quote_loop-eq :
    (size n : ℕ) (arg buf : List ℕ)
    → length buf < size
    → quote_loop size n arg buf ≡ append_text size buf (quoted_from n arg)
unfolding quote_loop quoted_from
quote_loop-eq size n [] buf room = append_slashes-eq size buf (n * 2) room
quote_loop-eq size n (c ∷ cs) buf room = elim (Bool-cases (c == backslash)) [
  | inl slash ↦ rw (slash, quote_loop, quoted_from) (quote_loop-eq size (suc n) cs buf room)
  | inr other ↦ elim (Bool-cases (c == quote)) [
    | inl quotes ↦
        rw (other, quotes, quote_loop, quoted_from)
          (slashes_then size buf (n * 2) (backslash ∷ quote ∷ []) (quoted_from 0 cs)
            (λ b. quote_loop size 0 cs b) room (λ b r. quote_loop-eq size 0 cs b r))
    | inr plain ↦
        rw (other, plain, quote_loop, quoted_from)
          (slashes_then size buf n (c ∷ []) (quoted_from 0 cs) (λ b. quote_loop size 0 cs b) room
            (λ b r. quote_loop-eq size 0 cs b r))
  ]
]

append_quoted_arg-eq :
    (size : ℕ) (buf arg : List ℕ)
    → append_quoted_arg size buf arg ≡ append_text size buf (quoted arg)
unfolding append_quoted_arg
append_quoted_arg-eq size buf arg =
    and_then-append size buf (quote ∷ []) (quoted_from 0 arg ++ (quote ∷ []))
      (λ b. and_then (quote_loop size 0 arg b) (λ b'. append_text size b' (quote ∷ [])))
      (λ b r.
        ap (λ o. and_then o (λ b'. append_text size b' (quote ∷ []))) (quote_loop-eq size 0 arg b r)
        ∙ and_then-append size b (quoted_from 0 arg) (quote ∷ [])
            (λ b'. append_text size b' (quote ∷ [])) (λ b' r'. refl))

append_args-eq :
    (size : ℕ) (args : List (List ℕ)) (buf : List ℕ)
    → length buf < size
    → append_args size args buf ≡ append_text size buf (more_args args)
unfolding append_args more_args
append_args-eq size [] buf room = sym (append_text-nothing size buf room)
append_args-eq size (arg ∷ args) buf room =
    and_then-append size buf (b' ' ∷ []) (quoted arg ++ more_args args)
      (λ b. and_then (append_quoted_arg size b arg) (λ b'. append_args size args b'))
      (λ b r.
        ap (λ o. and_then o (λ b'. append_args size args b')) (append_quoted_arg-eq size b arg)
        ∙ and_then-append size b (quoted arg) (more_args args) (λ b'. append_args size args b')
            (λ b' r'. append_args-eq size args b' r'))

-- The whole command line, where the array has room for it and its NUL.
pub build_relaunch_params-eq :
    (size : ℕ) (args : List (List ℕ))
    → 0 < size
    → build_relaunch_params size args ≡ append_text size [] (command_line args)
unfolding build_relaunch_params command_line
build_relaunch_params-eq size [] room = sym (append_text-nothing size [] room)
build_relaunch_params-eq size (arg ∷ args) room =
    ap (λ o. and_then o (λ b. append_args size args b)) (append_quoted_arg-eq size [] arg)
    ∙ and_then-append size [] (quoted arg) (more_args args) (λ b. append_args size args b)
        (λ b r. append_args-eq size args b r)
