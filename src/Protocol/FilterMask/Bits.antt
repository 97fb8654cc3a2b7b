-- ===== src/Protocol/FilterMask/Bits.antt =====
-- What `FilterMask::iter` yields is the mask, bit by bit.
use manka_shreds_sdk.Common.{
  ℕ, zero, suc, ◌+◌, ◌*◌, ◌/◌, ◌%◌, ◌^◌, ◌≤◌, ◌<◌, ◌≡◌, refl, sym, not, ap, ◌∙◌, List, [], ◌∷◌,
  true, ==_iff, arith, ◌==◌, if◌then◌else◌,
}
use manka_shreds_sdk.Common.Bits.{bit_and-pow}
use mathlib.Core.Logic.{◌↔◌}
use native.Mathlib.Nat.{pow-suc, div-div-eq-div-mul, mod-eq_of_lt, div-add-mod, add-zero}
use native.Mathlib.Numerals.{add-one}
use manka_shreds_sdk.Protocol.FilterMask.{FilterMask, has, matched_from, iter, is_empty}

-- The mask that has exactly the bits of a list of different indices.
abbrev pub weight : List ℕ → ℕ
weight [] = 0
weight (i ∷ is) = 2 ^ i + weight is

two_pow_pos : (i : ℕ) → 0 < 2 ^ i
two_pow_pos zero = omega arith
two_pow_pos (suc i) = omega (arith, pow-suc 2 i, two_pow_pos i)

-- A digit times the power that stands for it is 0 only if the digit is.
digit_eq_zero : (d p : ℕ) → d < 2 → 0 < p → not (d * p == 0) ≡ (d == 1)
digit_eq_zero zero p h k = ground arith
digit_eq_zero (suc zero) p h k = ground arith
digit_eq_zero (suc (suc d)) p h k = absurd (omega arith)

-- `has` reads one binary digit of the mask.
pub has_lem : (m : FilterMask) (i : ℕ) → i < 16 → has m i ≡ (m.bits / 2 ^ i % 2 == 1)
unfolding has
has_lem m i h =
    rw (mod-eq_of_lt h, bit_and-pow)
      (digit_eq_zero (m.bits / 2 ^ i % 2) (2 ^ i) (omega arith) (two_pow_pos i))

weight_step :
    (m : FilterMask) (i : ℕ) (rest : List ℕ)
    → i < 16
    → weight (if has m i then i ∷ rest else rest) ≡ m.bits / 2 ^ i % 2 * 2 ^ i + weight rest
weight_step m i rest h = rw (has_lem m i h) (digit (m.bits / 2 ^ i % 2) (omega arith))
  where
    digit : (d : ℕ) → d < 2 → weight (if d == 1 then i ∷ rest else rest) ≡ d * 2 ^ i + weight rest
    digit zero k = omega arith
    digit (suc zero) k = omega arith
    digit (suc (suc d)) k = absurd (omega arith)

-- The digits from `from` on are those that are yielded, and those behind them.
weight-matched_from :
    (m : FilterMask) (count from : ℕ)
    → from + count ≤ 16
    → weight (matched_from m from count) + m.bits / 2 ^ (from + count) * 2 ^ (from + count)
      ≡ m.bits / 2 ^ from * 2 ^ from
unfolding matched_from
weight-matched_from m zero from h = rw add-zero (omega arith)
weight-matched_from m (suc count) from h =
    rw (weight_step m from (matched_from m (from + 1) count) (omega arith), next)
      (omega (
        arith,
        weight-matched_from m count (from + 1) (omega arith),
        ap (λ (x : ℕ). x * 2 ^ from) (div-add-mod (m.bits / 2 ^ from) 2),
        ap (λ (x : ℕ). x * 2 ^ (from + 1)) quotient,
        ap (λ (x : ℕ). m.bits / 2 ^ from / 2 * x) double,
      ))
  where
    next : from + suc count ≡ from + 1 + count
    next = omega arith

    double : 2 ^ (from + 1) ≡ 2 ^ from * 2
    double = rw add-one (pow-suc 2 from)

    quotient : m.bits / 2 ^ (from + 1) ≡ m.bits / 2 ^ from / 2
    quotient = rw double (sym (div-div-eq-div-mul m.bits (2 ^ from) 2))

-- For a mask of 16 bits, the powers of two at the indices that `iter` yields add up to the
-- mask.
weight-iter : (m : FilterMask) → m.bits < 2 ^ 16 → weight (iter m) ≡ m.bits
unfolding iter
weight-iter m h = omega (arith, weight-matched_from m 16 0)

weight-eq-zero : (is : List ℕ) → weight is ≡ 0 → is ≡ []
weight-eq-zero [] h = refl
weight-eq-zero (i ∷ is) h = absurd (omega (arith, two_pow_pos i))

-- A mask of 16 bits is empty exactly if `iter` yields nothing.
is_empty-iter : (m : FilterMask) → m.bits < 2 ^ 16 → (is_empty m ≡ true) ↔ (iter m ≡ [])
unfolding is_empty
is_empty-iter m h = (
  λ e. weight-eq-zero (iter m) (weight-iter m h ∙ (==_iff m.bits 0).0 e),
  λ e. (==_iff m.bits 0).1 (sym (weight-iter m h) ∙ ap weight e),
)
