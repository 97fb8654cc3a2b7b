-- ===== src/DictionaryCache/Names.antt =====
-- The names of the cache's files: an entry's name gives its id back, and a temporary name is none's.
use mathlib.Core.List.{append_assoc}
use manka_shreds_sdk.Common.{
  Bool-cases, inl, inr, ℕ, zero, suc, ◌+◌, ◌-◌, ◌*◌, ◌/◌, ◌%◌, ◌^◌, ◌<◌, ◌≡◌, ◌≢◌, refl, sym, ap,
  ◌∙◌, arith, List, [], ◌∷◌, ◌++◌, none, some, false, ◌&&◌, leb, ltb, if◌then◌else◌, length, drop,
  length-append,
}
use manka_shreds_sdk.Handshake.{codes, hex_digit, same_bytes}
use manka_shreds_sdk.Radix.{push_digit, from_digits, skip_plus, from_str_radix}
use manka_shreds_sdk.Radix.Digits.{to_digit-hex_digit, hex_digit-ne-plus}
use manka_shreds_sdk.DictionaryCache.{
  hex8, path_for, decimal_digits, temp_name, strip_suffix, parse_digits, parse_name,
}

from_digits_step :
    (bound v d w : ℕ) (cs : List ℕ)
    → d < 16
    → v * 16 + d ≡ w
    → w < bound
    → from_digits bound (some v) (hex_digit d ∷ cs) ≡ from_digits bound (some w) cs
unfolding from_digits push_digit
from_digits_step bound v d w cs h e k = rw (to_digit-hex_digit d h, e) (ground arith)

from_digits-hex8 : (id : ℕ) → id < 2 ^ 32 → from_digits (2 ^ 32) (some 0) (hex8 id) ≡ some id
unfolding hex8
from_digits-hex8 id h =
    from_digits_step (2 ^ 32) 0 (id / 16 ^ 7 % 16) (id / 16 ^ 7) _ (omega arith) (omega arith)
      (omega arith)
    ∙ from_digits_step (2 ^ 32) (id / 16 ^ 7) (id / 16 ^ 6 % 16) (id / 16 ^ 6) _ (omega arith)
        (omega arith) (omega arith)
    ∙ from_digits_step (2 ^ 32) (id / 16 ^ 6) (id / 16 ^ 5 % 16) (id / 16 ^ 5) _ (omega arith)
        (omega arith) (omega arith)
    ∙ from_digits_step (2 ^ 32) (id / 16 ^ 5) (id / 16 ^ 4 % 16) (id / 16 ^ 4) _ (omega arith)
        (omega arith) (omega arith)
    ∙ from_digits_step (2 ^ 32) (id / 16 ^ 4) (id / 16 ^ 3 % 16) (id / 16 ^ 3) _ (omega arith)
        (omega arith) (omega arith)
    ∙ from_digits_step (2 ^ 32) (id / 16 ^ 3) (id / 16 ^ 2 % 16) (id / 16 ^ 2) _ (omega arith)
        (omega arith) (omega arith)
    ∙ from_digits_step (2 ^ 32) (id / 16 ^ 2) (id / 16 % 16) (id / 16) _ (omega arith) (omega arith)
        (omega arith)
    ∙ from_digits_step (2 ^ 32) (id / 16) (id % 16) id [] (omega arith) (omega arith) h
    ∙ unfold from_digits in refl

skip_plus-hex : (d c : ℕ) (cs : List ℕ) → skip_plus (hex_digit d) (c ∷ cs) ≡ hex_digit d ∷ c ∷ cs
unfolding skip_plus
skip_plus-hex d c cs = rw (hex_digit-ne-plus d)

pub parse_name-path_for : (id : ℕ) → id < 2 ^ 32 → parse_name (path_for id) ≡ some id
unfolding parse_name strip_suffix parse_digits path_for from_str_radix same_bytes
parse_name-path_for id h = rw skip_plus-hex (from_digits-hex8 id h)

pub path_for-injective : (i j : ℕ) → i < 2 ^ 32 → j < 2 ^ 32 → path_for i ≡ path_for j → i ≡ j
path_for-injective i j h k e =
    cc (parse_name-path_for i h, parse_name-path_for j k, ap parse_name e)

-- The digits stand in front of what was there.
decimal_digits-append :
    (fuel n : ℕ) (behind rest : List ℕ)
    → decimal_digits fuel n (behind ++ rest) ≡ decimal_digits fuel n behind ++ rest
unfolding decimal_digits
decimal_digits-append zero n behind rest = refl
decimal_digits-append (suc fuel) n behind rest = elim (Bool-cases (ltb n 10)) [
  | inl e ↦ simp e
  | inr e ↦ simp (e, decimal_digits-append fuel (n / 10) ((b'0' + n % 10) ∷ behind) rest)
]

-- The number that the digits at the front of a text make, behind `acc`
unfoldable value : ℕ → List ℕ → ℕ
value acc [] = acc
value acc (c ∷ cs) =
    let more = value (acc * 10 + (c - b'0')) cs in if leb b'0' c && leb c b'9' then more else acc

value-decimal_digits :
    (fuel n : ℕ) (behind : List ℕ)
    → n < fuel
    → value 0 (decimal_digits fuel n behind) ≡ value n behind
unfolding decimal_digits
value-decimal_digits zero n behind h = absurd (omega arith)
value-decimal_digits (suc fuel) n behind h = ground (
  arith,
  value-decimal_digits fuel (n / 10) ((b'0' + n % 10) ∷ behind),
  digit (n / 10) (n % 10) behind,
  digit 0 n behind,
)
  where
    digit :
        (acc d : ℕ) (cs : List ℕ) → d < 10 → value acc ((b'0' + d) ∷ cs) ≡ value (acc * 10 + d) cs
    digit acc d cs h = unfold value in ground arith

-- A temporary name ends otherwise than a dictionary's does.
temp_ending :
    (id pid unique : ℕ) → (front : List ℕ) × (temp_name id pid unique ≡ front ++ codes ".tmp")
unfolding temp_name
temp_ending id pid unique = (
  hex8 id ++ (b'.' ∷ decimal_digits (pid + 1) pid (b'.' ∷ decimal_digits (unique + 1) unique [])),
  simp (
    decimal_digits-append (unique + 1) unique [] (codes ".tmp"),
    decimal_digits-append (pid + 1) pid (b'.' ∷ decimal_digits (unique + 1) unique [])
        (codes ".tmp"),
    append_assoc,
  ),
)

no_dict_ending :
    (front : List ℕ)
    → same_bytes (drop (length front - 1) (front ++ codes ".tmp")) (codes ".dict") ≡ false
unfolding same_bytes
no_dict_ending [] = refl
no_dict_ending (c ∷ []) = ground arith
no_dict_ending (c ∷ d ∷ front) =
    ap (λ n. same_bytes (drop n (c ∷ d ∷ front ++ codes ".tmp")) (codes ".dict")) skip
    ∙ no_dict_ending (d ∷ front)
  where
    skip : length (c ∷ d ∷ front) - 1 ≡ suc (length (d ∷ front) - 1)
    skip = omega arith

strip_suffix-tmp : (front : List ℕ) → strip_suffix (codes ".dict") (front ++ codes ".tmp") ≡ none
unfolding strip_suffix
strip_suffix-tmp front = rw (length-append front (codes ".tmp")) (
    ground (
      arith,
      ap (λ n. same_bytes (drop n (front ++ codes ".tmp")) (codes ".dict")) size
          ∙ no_dict_ending front,
    ))
  where
    size : length front + 4 - 5 ≡ length front - 1
    size = omega arith

parse_name-temp_name : (id pid unique : ℕ) → parse_name (temp_name id pid unique) ≡ none
unfolding parse_name parse_digits
parse_name-temp_name id pid unique =
    let (front, e) = temp_ending id pid unique in rw (e, strip_suffix-tmp front)

pub temp_name-ne-path_for :
    (id pid unique i : ℕ) → i < 2 ^ 32 → temp_name id pid unique ≢ path_for i
temp_name-ne-path_for id pid unique i h e =
    cc (parse_name-temp_name id pid unique, parse_name-path_for i h, ap parse_name e)

-- Only the low 32 bits of an id are written.
hex8_mod : (id : ℕ) → hex8 id ≡ hex8 (id % 2 ^ 32)
unfolding hex8
hex8_mod id =
    digits (omega arith) (omega arith) (omega arith) (omega arith) (omega arith) (omega arith)
      (omega arith) (omega arith)
  where
    digits :
        id / 16 ^ 7 % 16 ≡ id % 2 ^ 32 / 16 ^ 7 % 16
        → id / 16 ^ 6 % 16 ≡ id % 2 ^ 32 / 16 ^ 6 % 16
        → id / 16 ^ 5 % 16 ≡ id % 2 ^ 32 / 16 ^ 5 % 16
        → id / 16 ^ 4 % 16 ≡ id % 2 ^ 32 / 16 ^ 4 % 16
        → id / 16 ^ 3 % 16 ≡ id % 2 ^ 32 / 16 ^ 3 % 16
        → id / 16 ^ 2 % 16 ≡ id % 2 ^ 32 / 16 ^ 2 % 16
        → id / 16 % 16 ≡ id % 2 ^ 32 / 16 % 16
        → id % 16 ≡ id % 2 ^ 32 % 16
        → hex8 id ≡ hex8 (id % 2 ^ 32)
    digits a b c d e f g h = cc (a, b, c, d, e, f, g, h)

pub temp_name-ne-any_path : (id pid unique i : ℕ) → temp_name id pid unique ≢ path_for i
unfolding path_for
temp_name-ne-any_path id pid unique i e =
    temp_name-ne-path_for id pid unique (i % 2 ^ 32) (omega arith)
      (e ∙ ap (λ digits. digits ++ codes ".dict") (hex8_mod i))

append-cancel : (xs ys zs : List ℕ) → xs ++ ys ≡ xs ++ zs → ys ≡ zs
append-cancel [] ys zs e = e
append-cancel (x ∷ xs) ys zs e = append-cancel xs ys zs (cc)

-- What follows the id in a temporary name
temp_parts :
    (id pid u : ℕ)
    → drop 8 (temp_name id pid u)
      ≡ (b'.' ∷ decimal_digits (pid + 1) pid []) ++ (b'.' ∷ decimal_digits (u + 1) u (codes ".tmp"))
unfolding temp_name hex8
temp_parts id pid u =
    simp (decimal_digits-append (pid + 1) pid [] (b'.' ∷ decimal_digits (u + 1) u (codes ".tmp")))

value_of : (u : ℕ) → value 0 (decimal_digits (u + 1) u (codes ".tmp")) ≡ u
unfolding value
value_of u = value-decimal_digits (u + 1) u (codes ".tmp") (omega arith) ∙ refl

-- Two calls of one process never write to the same temporary name.
pub temp_name-injective : (id jd pid u v : ℕ) → temp_name id pid u ≡ temp_name jd pid v → u ≡ v
temp_name-injective id jd pid u v e =
    let tails : ◌≡◌ {A = List ℕ} (b'.' ∷ decimal_digits (u + 1) u (codes ".tmp"))
        (b'.' ∷ decimal_digits (v + 1) v (codes ".tmp")) =
      append-cancel (b'.' ∷ decimal_digits (pid + 1) pid []) _ _
        (sym (temp_parts id pid u) ∙ ap (drop 8) e ∙ temp_parts jd pid v) in
    sym (value_of u) ∙ ap (λ text. value 0 (drop 1 text)) tails ∙ value_of v
