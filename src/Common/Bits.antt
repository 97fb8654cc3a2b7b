-- ===== src/Common/Bits.antt =====
-- `&` with a mask of one bit, or of the lowest bits, as arithmetic on any number.
use Prim.Native.Nat.{
  ℕ, zero, suc, ◌+◌, ◌*◌, ◌/◌, ◌%◌, ◌^◌, ◌≤◌, min, bit_and, digits, bit_and-bitwise,
}
use mathlib.Core.Path.{◌≡◌, refl, sym, ◌∙◌, ap}
use native.Mathlib.Nat.{div-div-eq-div-mul, pow-suc, pow-succ'}
use native.Mathlib.Decide.{dec_le}
use native.Mathlib.Omega.{arith}

-- The digit recursion that `bit_and` stands for, on `k` digits at most.
abbrev conj : ℕ → ℕ → ℕ → ℕ
conj = digits (λ _. 0) min

-- More digits than the first number has change nothing.
conj_enough : (k a b : ℕ) → a ≤ k → conj (suc k) a b ≡ conj k a b
conj_enough zero zero b h = refl
conj_enough (suc k) zero b h = refl
conj_enough zero (suc a) b h = absurd (omega arith)
conj_enough (suc k) (suc a) b h =
    ap (λ m. m * 2 + min (suc a % 2) (b % 2)) (conj_enough k (suc a / 2) (b / 2) (omega arith))

conj_least : (k a b : ℕ) → a ≤ k → conj k a b ≡ bit_and a b
conj_least zero zero b h = sym (bit_and-bitwise zero b)
conj_least zero (suc a) b h = absurd (omega arith)
conj_least (suc k) a b h = elim (dec_le a k) [
  | yes more ↦ conj_enough k a b more ∙ conj_least k a b more
  | no last ↦ ap (λ m. conj m a b) {x = suc k} {y = a} (omega arith) ∙ sym (bit_and-bitwise a b)
]

zero-bit_and : (b : ℕ) → bit_and 0 b ≡ 0
zero-bit_and b = bit_and-bitwise 0 b

-- The lowest digit apart.
bit_and_digit : (a b : ℕ) → bit_and a b ≡ bit_and (a / 2) (b / 2) * 2 + min (a % 2) (b % 2)
bit_and_digit zero b = omega (arith, zero-bit_and b, zero-bit_and (b / 2))
bit_and_digit (suc a) b =
    bit_and-bitwise (suc a) b
    ∙ ap (λ m. m * 2 + min (suc a % 2) (b % 2)) (conj_least a (suc a / 2) (b / 2) (omega arith))

bit_and-zero_below : (k a : ℕ) → a ≤ k → bit_and a 0 ≡ 0
bit_and-zero_below zero a h = omega (arith, zero-bit_and 0, ap (λ m. bit_and m 0) (empty a h))
  where
    empty : (n : ℕ) → n ≤ 0 → n ≡ 0
    empty n le = omega arith
bit_and-zero_below (suc k) zero h = zero-bit_and 0
bit_and-zero_below (suc k) (suc a) h =
    omega (arith, bit_and_digit (suc a) 0, bit_and-zero_below k (suc a / 2) (omega arith))

bit_and-zero : (a : ℕ) → bit_and a 0 ≡ 0
bit_and-zero a = bit_and-zero_below a a (omega arith)

pub bit_and-one : (a : ℕ) → bit_and a 1 ≡ a % 2
bit_and-one a = omega (arith, bit_and_digit a 1, bit_and-zero (a / 2))

-- `a & 0b11`
pub bit_and_three : (a : ℕ) → bit_and a 3 ≡ a % 4
bit_and_three a = omega (arith, bit_and_digit a 3, bit_and-one (a / 2))

-- `a & (1 << i)`
pub bit_and-pow : (i a : ℕ) → bit_and a (2 ^ i) ≡ a / 2 ^ i % 2 * 2 ^ i
bit_and-pow zero a = omega (arith, bit_and-one a)
bit_and-pow (suc i) a =
    bit_and_digit a (2 ^ suc i)
    ∙ rw (half, even)
        (omega (
          arith,
          bit_and-pow i (a / 2),
          ap (λ (x : ℕ). x % 2 * 2 ^ suc i) quotient,
          ap (λ (x : ℕ). a / 2 / 2 ^ i % 2 * x) (pow-suc 2 i),
        ))
  where
    half : 2 ^ suc i / 2 ≡ 2 ^ i
    half = omega (arith, pow-suc 2 i)

    even : 2 ^ suc i % 2 ≡ 0
    even = omega (arith, pow-suc 2 i)

    quotient : a / 2 ^ suc i ≡ a / 2 / 2 ^ i
    quotient = rw pow-succ' (sym (div-div-eq-div-mul a 2 (2 ^ i)))
