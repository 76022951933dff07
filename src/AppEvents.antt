-- ===== src/AppEvents.antt =====
-- src/app/events.c: how a name is written as a JSON string.
pub mod Json
use tund.Base.{ℕ, ◌+◌, ◌/◌, ◌%◌, List, [], ◌∷◌, ◌++◌, ltb, ◌==◌, if◌then◌else◌}

-- A digit of `%x`.
unfoldable pub hex_digit : ℕ → ℕ
hex_digit d = if ltb d 10 then 48 + d else 87 + d

-- `\u%04x` of a byte below 0x20, whose first two digits are 0.
unfoldable pub unicode_escape : ℕ → List ℕ
unfolding hex_digit
unicode_escape c =
    92 ∷ b'u' ∷ hex_digit 0 ∷ hex_digit 0 ∷ hex_digit (c / 16 % 16) ∷ hex_digit (c % 16) ∷ []

-- The switch on a byte.
unfoldable pub escape_byte : ℕ → List ℕ
unfolding unicode_escape
escape_byte c =
    if c == 92
    then 92 ∷ 92 ∷ []
    else if c == 34
    then 92 ∷ 34 ∷ []
    else if c == 8
    then 92 ∷ b'b' ∷ []
    else if c == 12
    then 92 ∷ b'f' ∷ []
    else if c == 10
    then 92 ∷ b'n' ∷ []
    else if c == 13
    then 92 ∷ b'r' ∷ []
    else if c == 9
    then 92 ∷ b't' ∷ []
    else if ltb c 32
    then unicode_escape c
    else c ∷ []

-- The loop over a C string.
unfoldable pub escape : List ℕ → List ℕ
escape [] = []
escape (c ∷ cs) = escape_byte c ++ escape cs

-- `event_json_string`.
unfoldable pub event_json_string : List ℕ → List ℕ
event_json_string value = 34 ∷ escape value ++ 34 ∷ []
