-- ===== src/Bytes.antt =====
-- Byte slices: what Rust's indexing, slicing and little-endian loads do, panics included.
-- The helpers `require`, `u16_at`, `u32_at` and `u64_at` are those of rust/src/events.rs.
pub mod Reads
pub mod Words
use manka_shreds_sdk.Common.{
  ℕ, zero, suc, ◌+◌, ◌-◌, ◌*◌, ◌/◌, ◌%◌, ◌<◌, List, [], ◌∷◌, Option, none, some, String, ◌&&◌, ltb,
  leb, ◌==◌, if◌then◌else◌, length, get_elem?, get_or, take, drop,
}
use manka_shreds_sdk.Error.{Result, ok, err, panic, truncated, ◌>>=◌}

abbrev pub IsByte : ℕ → Type 0
IsByte b = b < 256

-- The `n` bytes from `at` on, as far as there are any.
unfoldable pub window : List ℕ → ℕ → ℕ → List ℕ
window bytes at n = take n (drop at bytes)

-- The number that a little-endian byte sequence stands for.
abbrev pub from_le : List ℕ → ℕ
from_le [] = 0
from_le (b ∷ bs) = b + 256 * from_le bs

-- The number in `n` bytes from `at` on, and the byte at `i`; 0 stands for what is not there.
unfoldable pub word : List ℕ → ℕ → ℕ → ℕ
unfolding window
word bytes at n = from_le (window bytes at n)

unfoldable pub byte : List ℕ → ℕ → ℕ
byte bytes i = get_or bytes i 0

-- `to_le_bytes` of an integer of `n` bytes
abbrev pub to_le : ℕ → ℕ → List ℕ
to_le zero v = []
to_le (suc n) v = (v % 256) ∷ to_le n (v / 256)

-- `bytes[at]`
unfoldable pub byte_at : List ℕ → ℕ → Result ℕ
byte_at bytes at = elim (get_elem? bytes at) [ none ↦ panic | some b ↦ ok b ]

-- `&bytes[from..to]`
unfoldable pub slice : List ℕ → ℕ → ℕ → Result (List ℕ)
unfolding window
slice bytes from to =
    if leb from to && leb to (length bytes) then ok (window bytes from (to - from)) else panic

-- `bytes.get(from..to)`
unfoldable pub slice? : List ℕ → ℕ → ℕ → Option (List ℕ)
unfolding window
slice? bytes from to =
    if leb from to && leb to (length bytes) then some (window bytes from (to - from)) else none

-- `s.try_into().expect("…")` into an array of `n` bytes
unfoldable pub to_array : ℕ → List ℕ → Result (List ℕ)
to_array n s = if length s == n then ok s else panic

-- `bytes[at..at + n].try_into().expect("…")`
unfoldable pub array_at : ℕ → List ℕ → ℕ → Result (List ℕ)
array_at n bytes at = do s ← slice bytes at (at + n); to_array n s

unfoldable pub u16_at : List ℕ → ℕ → Result ℕ
u16_at bytes at = do lo ← byte_at bytes at; hi ← byte_at bytes (at + 1); ok (from_le (lo ∷ hi ∷ []))

unfoldable pub u32_at : List ℕ → ℕ → Result ℕ
u32_at bytes at = do a ← array_at 4 bytes at; ok (from_le a)

unfoldable pub u64_at : List ℕ → ℕ → Result ℕ
u64_at bytes at = do a ← array_at 8 bytes at; ok (from_le a)

unfoldable pub require : List ℕ → ℕ → String → Result (Unit {0})
require bytes need what =
    if ltb (length bytes) need then err (truncated what need (length bytes)) else ok tt
