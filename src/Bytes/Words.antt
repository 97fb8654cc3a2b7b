-- ===== src/Bytes/Words.antt =====
-- Words and windows of a sequence that is put together from parts.
use manka_shreds_sdk.Common.{
  ℕ, zero, suc, ◌+◌, ◌-◌, ◌/◌, ◌^◌, ◌≤◌, ◌<◌, ◌≡◌, refl, ap, ◌∙◌, List, [], ◌∷◌, ◌++◌, arith,
  length, take, drop, drop-append, take-append, All,
}
use native.Mathlib.Nat.{pow-succ'}
use manka_shreds_sdk.Bytes.{IsByte, window, from_le, word, byte, to_le}

-- What lies in the front part is not changed by what follows it.
take-append_front {ℓ} :
    {A : Type ℓ} (n : ℕ) (xs ys : List A) → n ≤ length xs → take n (xs ++ ys) ≡ take n xs
take-append_front zero xs ys h = refl
take-append_front (suc n) [] ys h = absurd (omega arith)
take-append_front (suc n) (x ∷ xs) ys h = ap (λ t. x ∷ t) (take-append_front n xs ys (omega arith))

pub window-append_front :
    (xs ys : List ℕ) (at n : ℕ) → at + n ≤ length xs → window (xs ++ ys) at n ≡ window xs at n
unfolding window
window-append_front [] ys zero n h = take-append_front n [] ys (omega arith)
window-append_front [] ys (suc at) n h = absurd (omega arith)
window-append_front (x ∷ xs) ys zero n h = take-append_front n (x ∷ xs) ys (omega arith)
window-append_front (x ∷ xs) ys (suc at) n h = window-append_front xs ys at n (omega arith)

pub word-append_front :
    (xs ys : List ℕ) (at n : ℕ) → at + n ≤ length xs → word (xs ++ ys) at n ≡ word xs at n
unfolding word
word-append_front xs ys at n h = ap from_le (window-append_front xs ys at n h)

pub byte-append_front : (xs ys : List ℕ) (i : ℕ) → i < length xs → byte (xs ++ ys) i ≡ byte xs i
unfolding byte
byte-append_front [] ys i h = absurd (omega arith)
byte-append_front (x ∷ xs) ys zero h = refl
byte-append_front (x ∷ xs) ys (suc i) h = byte-append_front xs ys i (omega arith)

-- A window behind the front part, and the window that is a part of its own.
window-append_back :
    (xs ys : List ℕ) (at n : ℕ)
    → length xs ≤ at
    → window (xs ++ ys) at n ≡ window ys (at - length xs) n
unfolding window
window-append_back xs ys at n h = ap (take n) (drop-append at xs ys h)

pub window_here : (xs ys : List ℕ) (n : ℕ) → n ≡ length xs → window (xs ++ ys) 0 n ≡ xs
unfolding window
window_here xs ys n h = rw h (take-append xs ys)

-- Behind a front part of known length.
module _ (k : ℕ) (xs ys : List ℕ) (whole : length xs ≡ k) where
  pub window_behind : (at n : ℕ) → k ≤ at → window (xs ++ ys) at n ≡ window ys (at - k) n
  window_behind at n h =
      window-append_back xs ys at n (omega arith) ∙ ap (λ m. window ys (at - m) n) whole

  pub drop_behind : (at : ℕ) → k ≤ at → drop at (xs ++ ys) ≡ drop (at - k) ys
  drop_behind at h = drop-append at xs ys (omega arith) ∙ ap (λ m. drop (at - m) ys) whole

length-to_le : (n v : ℕ) → length (to_le n v) ≡ n
length-to_le zero v = refl
length-to_le (suc n) v = ap suc (length-to_le n (v / 256))

-- `from_le_bytes` of `to_le_bytes`
from_le-to_le : (n v : ℕ) → v < 256 ^ n → from_le (to_le n v) ≡ v
from_le-to_le zero v h = omega arith
from_le-to_le (suc n) v h =
    omega (arith, from_le-to_le n (v / 256) (omega (arith, pow-succ' 256 n)))

-- Bytes are told apart by the number that they stand for.
from_le-lt : (bs : List ℕ) → All IsByte bs → from_le bs < 256 ^ length bs
from_le-lt [] h = omega arith
from_le-lt (b ∷ bs) h = omega (arith, pow-succ' 256 (length bs), from_le-lt bs h.1)

from_le-injective :
    (xs ys : List ℕ)
    → All IsByte xs
    → All IsByte ys
    → length xs ≡ length ys
    → from_le xs ≡ from_le ys
    → xs ≡ ys
from_le-injective [] [] hx hy l e = refl
from_le-injective [] (y ∷ ys) hx hy l e = absurd (omega arith)
from_le-injective (x ∷ xs) [] hx hy l e = absurd (omega arith)
from_le-injective (x ∷ xs) (y ∷ ys) hx hy l e =
    cc (heads, from_le-injective xs ys hx.1 hy.1 (omega arith) (omega arith))
  where
    heads : x ≡ y
    heads = omega arith
