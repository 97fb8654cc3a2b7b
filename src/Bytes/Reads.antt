-- ===== src/Bytes/Reads.antt =====
-- A read inside the bounds does not panic, and returns the word that the bytes hold.
use manka_shreds_sdk.Common.{
  ℕ, zero, suc, ◌+◌, ◌-◌, ◌*◌, ◌≤◌, ◌<◌, min, ◌≡◌, refl, ap, ◌∙◌, List, [], ◌∷◌, arith, length,
  get_or, take, drop, length-take, length-drop,
}
use native.Mathlib.Numerals.{add-one}
use manka_shreds_sdk.Error.{ok}
use manka_shreds_sdk.Bytes.{
  window, from_le, word, byte, byte_at, slice, to_array, array_at, u16_at, u32_at, u64_at,
}

pub byte_at_lem : (bytes : List ℕ) (i : ℕ) → i < length bytes → byte_at bytes i ≡ ok (byte bytes i)
unfolding byte_at byte
byte_at_lem [] i h = absurd (omega arith)
byte_at_lem (b ∷ bs) zero h = refl
byte_at_lem (b ∷ bs) (suc i) h = byte_at_lem bs i (omega arith)

pub length-window :
    (bytes : List ℕ) (at n : ℕ) → length (window bytes at n) ≡ min n (length bytes - at)
unfolding window
length-window bytes at n = omega (arith, length-take n (drop at bytes), length-drop at bytes)

pub slice_lem :
    (bytes : List ℕ) (from to : ℕ)
    → from ≤ to
    → to ≤ length bytes
    → slice bytes from to ≡ ok (window bytes from (to - from))
unfolding slice
slice_lem bytes from to h k = ground arith

-- The same for a range that is given by its length.
pub slice_here :
    (bytes : List ℕ) (at n : ℕ)
    → at + n ≤ length bytes
    → slice bytes at (at + n) ≡ ok (window bytes at n)
slice_here bytes at n h =
    slice_lem bytes at (at + n) (omega arith) h ∙ ap (λ m. ok (window bytes at m)) (omega arith)

pub array_at_lem :
    (n : ℕ) (bytes : List ℕ) (at : ℕ)
    → at + n ≤ length bytes
    → array_at n bytes at ≡ ok (window bytes at n)
unfolding array_at to_array
array_at_lem n bytes at h =
    rw (slice_lem bytes at (at + n) (omega arith) h, at_end)
      (ground (arith, length-window bytes at n))
  where
    at_end : at + n - at ≡ n
    at_end = omega arith

-- A word is its first byte and the word behind it.
word-suc :
    (bytes : List ℕ) (at n : ℕ)
    → word bytes at (suc n) ≡ byte bytes at + 256 * word bytes (at + 1) n
unfolding word window byte
word-suc [] zero zero = omega arith
word-suc [] (suc at) zero = omega arith
word-suc [] zero (suc n) = omega arith
word-suc [] (suc at) (suc n) = rw add-one (omega arith)
word-suc (b ∷ bs) zero n = refl
word-suc (b ∷ bs) (suc at) n =
    word-suc bs at n ∙ ap (λ k. get_or bs at 0 + 256 * from_le (take n (drop k (b ∷ bs)))) next
  where
    next : suc (at + 1) ≡ suc at + 1
    next = omega arith

word-zero : (bytes : List ℕ) (at : ℕ) → word bytes at 0 ≡ 0
unfolding word window
word-zero bytes at = refl

pub word_two :
    (bytes : List ℕ) (at : ℕ) → word bytes at 2 ≡ byte bytes at + 256 * byte bytes (at + 1)
word_two bytes at =
    omega (arith, word-suc bytes at 1, word-suc bytes (at + 1) 0, word-zero bytes (at + 1 + 1))

pub u16_at_lem :
    (bytes : List ℕ) (at : ℕ) → at + 2 ≤ length bytes → u16_at bytes at ≡ ok (word bytes at 2)
unfolding u16_at
u16_at_lem bytes at h =
    ground (arith, byte_at_lem bytes at, byte_at_lem bytes (at + 1), word_two bytes at)

pub u32_at_lem :
    (bytes : List ℕ) (at : ℕ) → at + 4 ≤ length bytes → u32_at bytes at ≡ ok (word bytes at 4)
unfolding u32_at word
u32_at_lem bytes at h = rw (array_at_lem 4 bytes at h)

pub u64_at_lem :
    (bytes : List ℕ) (at : ℕ) → at + 8 ≤ length bytes → u64_at bytes at ≡ ok (word bytes at 8)
unfolding u64_at word
u64_at_lem bytes at h = rw (array_at_lem 8 bytes at h)

pub word_four :
    (bytes : List ℕ) (at : ℕ)
    → word bytes at 4
      ≡ from_le
          (byte bytes at ∷ byte bytes (at + 1) ∷ byte bytes (at + 2) ∷ byte bytes (at + 3) ∷ [])
word_four bytes at = ground (
  arith,
  word-suc bytes at 3,
  word-suc bytes (at + 1) 2,
  word-suc bytes (at + 2) 1,
  word-suc bytes (at + 3) 0,
  word-zero bytes (at + 4),
)
