-- ===== src/Relaunch.antt =====
-- The command line of a program that is started again as administrator: append_text,
-- append_quoted_arg and build_relaunch_params of src/app/win_runtime.c.
pub mod Reader
pub mod Writes
pub mod Roundtrip
use tund.Base.{
  ℕ, zero, suc, ◌+◌, ◌*◌, Bool, true, false, List, [], ◌∷◌, ◌++◌, Option, none, some, leb, ◌==◌,
  if◌then◌else◌, length,
}

-- 34 and 92
abbrev pub quote : ℕ
quote = b'"'

abbrev pub backslash : ℕ
backslash = b'\\'

-- The text so far, longer by another, if an array of that size holds it with its NUL.
unfoldable pub append_text : ℕ → List ℕ → List ℕ → Option (List ℕ)
append_text size buf text = if leb size (length buf + length text) then none else some (buf ++ text)

-- What comes next, unless there is no room any more.
unfoldable pub and_then : Option (List ℕ) → (List ℕ → Option (List ℕ)) → Option (List ℕ)
and_then none f = none
and_then (some buf) f = f buf

-- So many backslashes, one after the other.
unfoldable pub append_slashes : ℕ → List ℕ → ℕ → Option (List ℕ)
unfolding and_then
append_slashes size buf zero = some buf
append_slashes size buf (suc n) =
    and_then (append_text size buf (backslash ∷ [])) (λ b. append_slashes size b n)

-- The loop of `append_quoted_arg`, with the backslashes that wait to be written.
unfoldable pub quote_loop : ℕ → ℕ → List ℕ → List ℕ → Option (List ℕ)
unfolding and_then append_slashes
quote_loop size slashes [] buf = append_slashes size buf (slashes * 2)
quote_loop size slashes (c ∷ cs) buf = elim (c == backslash) [
  | true ↦ quote_loop size (suc slashes) cs buf
  | false ↦ elim (c == quote) [
    | true ↦ and_then (append_slashes size buf (slashes * 2)) (λ b.
        and_then (append_text size b (backslash ∷ quote ∷ [])) (λ b'. quote_loop size 0 cs b'))
    | false ↦
        and_then (append_slashes size buf slashes)
          (λ b. and_then (append_text size b (c ∷ [])) (λ b'. quote_loop size 0 cs b'))
  ]
]

unfoldable pub append_quoted_arg : ℕ → List ℕ → List ℕ → Option (List ℕ)
unfolding and_then quote_loop
append_quoted_arg size buf arg =
    and_then (append_text size buf (quote ∷ []))
      (λ b. and_then (quote_loop size 0 arg b) (λ b'. append_text size b' (quote ∷ [])))

-- The arguments after the first, which has no space before it.
unfoldable pub append_args : ℕ → List (List ℕ) → List ℕ → Option (List ℕ)
unfolding and_then append_quoted_arg
append_args size [] buf = some buf
append_args size (arg ∷ args) buf =
    and_then (append_text size buf (b' ' ∷ []))
      (λ b. and_then (append_quoted_arg size b arg) (λ b'. append_args size args b'))

-- The arguments without the program's name; `params` has 8192 bytes.
unfoldable pub build_relaunch_params : ℕ → List (List ℕ) → Option (List ℕ)
unfolding append_args
build_relaunch_params size [] = some []
build_relaunch_params size (arg ∷ args) =
    and_then (append_quoted_arg size [] arg) (λ b. append_args size args b)
