-- ===== src/AppEvents/Json.antt =====
-- A reader of JSON strings, for what src/app/events.c writes.
use tund.Base.{
  ℕ, zero, suc, ◌+◌, ◌-◌, ◌*◌, ◌/◌, ◌%◌, ◌<◌, List, [], ◌∷◌, ◌++◌, Option, none, some, ltb, leb,
  ◌==◌, ◌&&◌, if◌then◌else◌, ◌≡◌, refl, ap, ◌∙◌, arith, Bool-cases, inl, inr, subst, sym, ◌≢◌, ◌≤◌,
  ltb→lt, ltb-false→le,
}
use mathlib.Core.List.{append_assoc}
use native.Mathlib.Decide.{ℕ_discrete}
use tund.AppEvents.{hex_digit, unicode_escape, escape_byte, escape, event_json_string}

-- Where a reader stands in a string: between characters, behind a backslash, or with so many digits
-- of a code point still to come, and what they come to so far, none where one was no digit.
pub data Reader : Type 0 where
  between behind : Reader
  digits : ℕ → Option ℕ → Reader

-- A hexadecimal digit.
unfoldable pub digit_value : ℕ → Option ℕ
digit_value c =
    if leb 48 c && leb c 57
    then some (c - 48)
    else if leb 97 c && leb c 102
    then some (c - 87)
    else if leb 65 c && leb c 70
    then some (c - 55)
    else none

-- The character that a letter behind a backslash stands for; JSON knows no others.
unfoldable pub letter_value : ℕ → Option ℕ
letter_value c =
    if c == 98
    then some 8
    else if c == 102
    then some 12
    else if c == 110
    then some 10
    else if c == 114
    then some 13
    else if c == 116
    then some 9
    else if c == 34
    then some 34
    else if c == 92
    then some 92
    else if c == 47
    then some 47
    else none

cons_some : ℕ → Option (List ℕ) → Option (List ℕ)
cons_some c none = none
cons_some c (some cs) = some (c ∷ cs)

cons_letter : Option ℕ → Option (List ℕ) → Option (List ℕ)
unfolding cons_some
cons_letter none cs = none
cons_letter (some c) cs = cons_some c cs

-- The number that so many hexadecimal digits grow by one more.
unfoldable pub shift_digit : ℕ → Option ℕ → Option ℕ
shift_digit v none = none
shift_digit v (some d) = some (v * 16 + d)

-- A code point is one byte of the text only below 128.
unfoldable pub ascii : Option ℕ → Option ℕ
ascii none = none
ascii (some v) = if ltb v 128 then some v else none

-- The characters up to the closing quote, which must be the last byte. A control character is
-- refused, and so is a backslash before anything but a letter of JSON or `u` and four digits.
unfoldable pub read_string : Reader → List ℕ → Option (List ℕ)
unfolding cons_some cons_letter
read_string between [] = none
read_string between (c ∷ cs) =
    let rest = read_string between cs in
    let special = read_string behind cs in
    if c == 92
    then special
    else if c == 34
    then elim cs [ [] ↦ some [] | _ ∷ _ ↦ none ]
    else if ltb c 32
    then none
    else cons_some c rest
read_string behind [] = none
read_string behind (c ∷ cs) =
    let rest = read_string between cs in
    let number = read_string (digits 4 (some 0)) cs in
    if c == 117 then number else cons_letter (letter_value c) rest
read_string (digits left v) [] = none
read_string (digits left none) (c ∷ cs) = none
read_string (digits zero (some v)) (c ∷ cs) = none
read_string (digits (suc zero) (some v)) (c ∷ cs) =
    cons_letter (ascii (shift_digit v (digit_value c))) (read_string between cs)
read_string (digits (suc (suc left)) (some v)) (c ∷ cs) =
    read_string (digits (suc left) (shift_digit v (digit_value c))) cs

-- What is to be shown of a byte.
abbrev ReadsBack : ℕ → List ℕ → Type 0
ReadsBack c rest =
    read_string between (escape_byte c ++ rest) ≡ cons_some c (read_string between rest)

at : (c k : ℕ) (rest : List ℕ) → c ≡ k → ReadsBack k rest → ReadsBack c rest
at c k rest e r = subst (λ x. ReadsBack x rest) (sym e) r

digit_value-hex_digit : (d : ℕ) → d < 16 → digit_value (hex_digit d) ≡ some d
unfolding digit_value hex_digit
digit_value-hex_digit d h = ground arith

unicode_value : (c : ℕ) → c < 32 → ascii (some ((0 * 16 + c / 16 % 16) * 16 + c % 16)) ≡ some c
unfolding ascii
unicode_value c h = ground arith

-- The last two digits.
two_digits :
    (x y v u : ℕ) (rest : List ℕ)
    → digit_value x ≡ some v
    → digit_value y ≡ some u
    → read_string (digits 2 (some 0)) (x ∷ y ∷ rest)
      ≡ cons_letter (ascii (some ((0 * 16 + v) * 16 + u))) (read_string between rest)
unfolding read_string shift_digit
two_digits x y v u rest first second =
    ap (λ o. read_string (digits 1 (shift_digit 0 o)) (y ∷ rest)) first
    ∙ ap (λ o. cons_letter (ascii (shift_digit (0 * 16 + v) o)) (read_string between rest)) second

read_string-unicode_escape :
    (c : ℕ) (rest : List ℕ)
    → c < 32
    → read_string between (unicode_escape c ++ rest) ≡ cons_some c (read_string between rest)
unfolding read_string unicode_escape cons_letter shift_digit digit_value hex_digit
read_string-unicode_escape c rest h =
    two_digits (hex_digit (c / 16 % 16)) (hex_digit (c % 16)) (c / 16 % 16) (c % 16) rest
      (digit_value-hex_digit (c / 16 % 16) (omega arith))
      (digit_value-hex_digit (c % 16) (omega arith))
    ∙ ap (λ o. cons_letter o (read_string between rest)) (unicode_value c h)

control_escape :
    (c : ℕ) → c < 32 → c ≢ 8 → c ≢ 12 → c ≢ 10 → c ≢ 13 → c ≢ 9 → escape_byte c ≡ unicode_escape c
unfolding escape_byte
control_escape c h a b d e f = ground arith

control : (c : ℕ) (rest : List ℕ) → c < 32 → ReadsBack c rest
unfolding read_string escape_byte letter_value cons_letter
control c rest h = elim (ℕ_discrete c 8) [
  | yes e ↦ at c 8 rest e refl
  | no n8 ↦ elim (ℕ_discrete c 12) [
    | yes e ↦ at c 12 rest e refl
    | no n12 ↦ elim (ℕ_discrete c 10) [
      | yes e ↦ at c 10 rest e refl
      | no n10 ↦ elim (ℕ_discrete c 13) [
        | yes e ↦ at c 13 rest e refl
        | no n13 ↦ elim (ℕ_discrete c 9) [
          | yes e ↦ at c 9 rest e refl
          | no n9 ↦
              ap (λ t. read_string between (t ++ rest)) (control_escape c h n8 n12 n10 n13 n9)
              ∙ read_string-unicode_escape c rest h
        ]
      ]
    ]
  ]
]

printable : (c : ℕ) (rest : List ℕ) → c ≢ 92 → c ≢ 34 → 32 ≤ c → ReadsBack c rest
unfolding read_string escape_byte
printable c rest n1 n2 h = ground arith

-- One byte, whatever follows.
read_string-escape_byte :
    (c : ℕ) (rest : List ℕ)
    → read_string between (escape_byte c ++ rest) ≡ cons_some c (read_string between rest)
unfolding read_string escape_byte letter_value cons_letter
read_string-escape_byte c rest = elim (ℕ_discrete c 92) [
  | yes e ↦ at c 92 rest e refl
  | no n1 ↦ elim (ℕ_discrete c 34) [
    | yes e ↦ at c 34 rest e refl
    | no n2 ↦ elim (Bool-cases (ltb c 32)) [
      | inl low ↦ control c rest (ltb→lt c 32 low)
      | inr high ↦ printable c rest n1 n2 (ltb-false→le c 32 high)
    ]
  ]
]

read_string-escape : (s : List ℕ) → read_string between (escape s ++ 34 ∷ []) ≡ some s
unfolding escape read_string
read_string-escape [] = refl
read_string-escape (c ∷ cs) =
    ap (read_string between) (append_assoc (escape_byte c) (escape cs) (34 ∷ []))
    ∙ read_string-escape_byte c (escape cs ++ 34 ∷ [])
    ∙ ap (cons_some c) (read_string-escape cs)

-- The reader behind the opening quote.
unfoldable pub read_json_string : List ℕ → Option (List ℕ)
read_json_string [] = none
read_json_string (c ∷ cs) = if c == 34 then read_string between cs else none

-- A reader that takes nothing but JSON strings, with no control character in them, only the
-- escapes of JSON and code points below 128 behind a backslash and u, and other bytes as they are,
-- gives back any text that event_json_string wrote.
pub read_json_string-event_json_string :
    (s : List ℕ) → read_json_string (event_json_string s) ≡ some s
unfolding read_json_string event_json_string
read_json_string-event_json_string s = read_string-escape s
