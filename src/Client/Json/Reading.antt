-- ===== src/Client/Json/Reading.antt =====
-- A reader of JSON string literals, written from the grammar, and what it reads of `escape_json`.
use manka_shreds_sdk.Common.{
  ℕ, zero, suc, ◌+◌, ◌-◌, ◌*◌, ◌/◌, ◌%◌, ◌<◌, ◌≡◌, refl, arith, List, [], ◌∷◌, ◌++◌, Option, none,
  some, ltb, ◌==◌, if◌then◌else◌,
}
use mathlib.Core.List.{append_assoc}
use manka_shreds_sdk.Handshake.{hex_digit}
use manka_shreds_sdk.Client.Json.{escape_char, escape_chars, escape_json}

-- Between characters, behind a backslash, or with the digits to come of `\u` and their value so far.
pub data State : Type 0 where
  plain : State
  escaped : State
  digits : ℕ → ℕ → State

pub data Step : Type 0 where
  fails : Step
  ends : Step
  moves : State → Step
  yields : ℕ → Step

-- The value of a lowercase hexadecimal digit
abbrev from_hex : ℕ → ℕ
from_hex c = if ltb c 58 then c - 48 else c - 87

-- One character of a literal: a quote ends it, a control character is not allowed.
abbrev step : State → ℕ → Step
step plain c =
    if c == b'"'
    then ends
    else if c == b'\\'
    then moves escaped
    else if ltb c 32
    then fails
    else yields c
step escaped c =
    if c == b'"'
    then yields b'"'
    else if c == b'\\'
    then yields b'\\'
    else if c == b'n'
    then yields 10
    else if c == b'r'
    then yields 13
    else if c == b't'
    then yields 9
    else if c == b'u'
    then moves (digits 4 0)
    else fails
step (digits zero value) c = fails
step (digits (suc zero) value) c = yields (value * 16 + from_hex c)
step (digits (suc (suc n)) value) c = moves (digits (suc n) (value * 16 + from_hex c))

abbrev push : ℕ → Option (List ℕ × List ℕ) → Option (List ℕ × List ℕ)
push c none = none
push c (some (value, rest)) = some (c ∷ value, rest)

-- The characters of a literal whose opening quote has been read, and what follows the literal.
unfoldable pub read_literal : State → List ℕ → Option (List ℕ × List ℕ)
read_literal state [] = none
read_literal state (c ∷ cs) = elim (step state c) [
  | fails ↦ none
  | ends ↦ some ([], cs)
  | moves next ↦ read_literal next cs
  | yields x ↦ push x (read_literal plain cs)
]

from_hex-hex_digit : (d : ℕ) → d < 16 → from_hex (hex_digit d) ≡ d
unfolding hex_digit
from_hex-hex_digit d h = ground arith

-- An escaped character is read as itself.
read_literal-escape_char :
    (c : ℕ) (rest : List ℕ)
    → read_literal plain (escape_char c ++ rest) ≡ push c (read_literal plain rest)
unfolding escape_char read_literal
read_literal-escape_char c rest =
    ground (arith, from_hex-hex_digit (c / 16), from_hex-hex_digit (c % 16))

read_literal-escape_chars :
    (value rest : List ℕ)
    → read_literal plain (escape_chars value ++ (b'"' ∷ rest)) ≡ some (value, rest)
unfolding escape_chars
read_literal-escape_chars [] rest = unfold read_literal in refl
read_literal-escape_chars (c ∷ value) rest =
    rw (append_assoc, read_literal-escape_char c, read_literal-escape_chars value rest) refl

-- `escape_json` appends a quote and then the rest of a JSON string literal, which a reader
-- written from the grammar reads as the very string that was escaped, whatever follows it.
pub read_literal-escape_json :
    (value out rest : List ℕ)
    → (literal : List ℕ) × (escape_json value out ++ rest ≡ out ++ (b'"' ∷ literal))
      × (read_literal plain literal ≡ some (value, rest))
unfolding escape_json
read_literal-escape_json value out rest =
    (escape_chars value ++ (b'"' ∷ rest), simp (append_assoc), read_literal-escape_chars value rest)
