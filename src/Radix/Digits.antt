-- ===== src/Radix/Digits.antt =====
-- Hexadecimal digits that are written are read back.
use manka_shreds_sdk.Common.{ℕ, ◌+◌, ◌*◌, ◌<◌, ◌≡◌, refl, arith, [], ◌∷◌, none, some, false, ◌==◌}
use manka_shreds_sdk.Handshake.{hex_digit}
use manka_shreds_sdk.Radix.{to_digit, push_digit, from_digits, skip_plus, from_str_radix}

pub to_digit-hex_digit : (d : ℕ) → d < 16 → to_digit (hex_digit d) ≡ some d
unfolding to_digit hex_digit
to_digit-hex_digit d h = ground arith

-- A digit is no sign.
pub hex_digit-ne-plus : (d : ℕ) → (hex_digit d == b'+') ≡ false
unfolding hex_digit
hex_digit-ne-plus d = ground arith

to_digit-lt : (c d : ℕ) → to_digit c ≡ some d → d < 16
unfolding to_digit
to_digit-lt c d h = ground arith

-- Two digits, of either case, are a byte.
pub from_str_radix-pair :
    (c d i j : ℕ)
    → to_digit c ≡ some i
    → to_digit d ≡ some j
    → from_str_radix 256 (c ∷ d ∷ []) ≡ some (i * 16 + j)
unfolding from_str_radix from_digits skip_plus push_digit
from_str_radix-pair c d i j h k = ground (arith, to_digit-lt c i, to_digit-lt d j, plus)
  where
    plus : to_digit b'+' ≡ none
    plus = unfold to_digit in refl
