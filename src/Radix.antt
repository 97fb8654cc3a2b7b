-- ===== src/Radix.antt =====
-- `from_str_radix(src, 16)` of Rust's standard library, for an unsigned type of `bound` values: an
-- optional `+`, then one or more hexadecimal digits of either case, whose value is in range.
pub mod Digits
use manka_shreds_sdk.Common.{
  ℕ, ◌+◌, ◌-◌, ◌*◌, List, [], ◌∷◌, Option, none, some, Bool, ◌&&◌, leb, ltb, ◌==◌, if◌then◌else◌,
}

-- `char::to_digit(16)`
unfoldable pub to_digit : ℕ → Option ℕ
to_digit c =
    if leb b'0' c && leb c b'9'
    then some (c - b'0')
    else if leb b'a' c && leb c b'f'
    then some (c - b'a' + 10)
    else if leb b'A' c && leb c b'F'
    then some (c - b'A' + 10)
    else none

-- The value so far, and a digit, where it is in range
unfoldable pub push_digit : ℕ → Option ℕ → Option ℕ → Option ℕ
push_digit bound (some value) (some d) =
    if ltb (value * 16 + d) bound then some (value * 16 + d) else none
push_digit bound (some value) none = none
push_digit bound none d = none

unfoldable pub from_digits : ℕ → Option ℕ → List ℕ → Option ℕ
unfolding push_digit to_digit
from_digits bound value [] = value
from_digits bound value (c ∷ cs) = from_digits bound (push_digit bound value (to_digit c)) cs

-- A `+` that digits follow is passed over; a sign alone is no number.
unfoldable pub skip_plus : ℕ → List ℕ → List ℕ
skip_plus c [] = c ∷ []
skip_plus c (d ∷ cs) = if c == b'+' then d ∷ cs else c ∷ d ∷ cs

unfoldable pub from_str_radix : ℕ → List ℕ → Option ℕ
unfolding from_digits skip_plus
from_str_radix bound [] = none
from_str_radix bound (c ∷ cs) = from_digits bound (some 0) (skip_plus c cs)
