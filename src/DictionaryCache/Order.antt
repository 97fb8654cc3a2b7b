-- ===== src/DictionaryCache/Order.antt =====
-- What the cache relies on of `sort_unstable_by_key` with `Reverse(used)` as the key.
use manka_shreds_sdk.Common.{
  ℕ, zero, suc, ◌+◌, ◌<◌, ◌≡◌, ◌≢◌, ap, ◌∙◌, arith, List, [], ◌∷◌, ◌++◌, Bool, not, ◌&&◌, ltb, leb,
  ◌==◌, if◌then◌else◌, drop,
}
use native.Mathlib.Decide.{ℕ_discrete as dec_eq}

-- How many entries pass a test
unfoldable pub count : (ℕ × ℕ → Bool) → List (ℕ × ℕ) → ℕ
count p [] = 0
count p (e ∷ es) = (if p e then 1 else 0) + count p es

-- None behind another was used later.
abbrev pub IsDescending : List (ℕ × ℕ) → Type 0
IsDescending [] = Unit
IsDescending (e ∷ es) = (count (λ x. ltb e.0 x.0) es ≡ 0) × IsDescending es

-- The sort is a permutation, and its result descends.
pub record IsSort (sort_by_use : List (ℕ × ℕ) → List (ℕ × ℕ)) : Type 0 where
  pub count-sort : (p : ℕ × ℕ → Bool) (es : List (ℕ × ℕ)) → count p (sort_by_use es) ≡ count p es
  pub sort-IsDescending : (es : List (ℕ × ℕ)) → IsDescending (sort_by_use es)

-- Whether an entry is of an id, of an id at another time than t, or of another id not before t
abbrev pub of_id : ℕ → ℕ × ℕ → Bool
of_id id x = x.1 == id

abbrev pub at_other : ℕ → ℕ → ℕ × ℕ → Bool
at_other id t x = (x.1 == id) && not (x.0 == t)

abbrev pub not_before : ℕ → ℕ → ℕ × ℕ → Bool
not_before id t x = not (x.1 == id) && leb t x.0

-- An entry of the id is behind one that was used earlier.
one_above :
    (id t u : ℕ) (es : List (ℕ × ℕ))
    → count (of_id id) es ≡ 1
    → count (at_other id t) es ≡ 0
    → u < t
    → count (λ x. ltb u x.0) es ≢ 0
unfolding count
one_above id t u [] h k l e = omega arith
one_above id t u ((v, j) ∷ es) h k l e = elim (dec_eq j id) [
  | yes same ↦ elim (dec_eq v t) [ yes now ↦ ground arith | no later ↦ ground arith ]
  | no other ↦ one_above id t u es (ground arith) (ground arith) l (ground arith)
]

-- The one entry of the id, later than all the others, comes first.
pub sorted_first :
    (id t : ℕ) (es : List (ℕ × ℕ))
    → count (of_id id) es ≡ 1
    → count (at_other id t) es ≡ 0
    → count (not_before id t) es ≡ 0
    → IsDescending es
    → (rest : List (ℕ × ℕ)) × (es ≡ (t, id) ∷ rest) × (count (of_id id) rest ≡ 0)
unfolding count
sorted_first id t [] h k l d = absurd (omega arith)
sorted_first id t ((v, j) ∷ es) h k l d = elim (dec_eq j id) [
  | yes same ↦
      let now : v ≡ t = ground arith in
      (es, ap (λ n. (n, j) ∷ es) now ∙ ap (λ n. (t, n) ∷ es) same, ground arith)
  | no other ↦ absurd (one_above id t v es (ground arith) (ground arith) (ground arith) d.0)
]

pub count-drop :
    (p : ℕ × ℕ → Bool) (n : ℕ) (es : List (ℕ × ℕ)) → count p es ≡ 0 → count p (drop n es) ≡ 0
unfolding count
count-drop p zero es h = h
count-drop p (suc n) [] h = h
count-drop p (suc n) (e ∷ es) h = count-drop p n es (omega arith)

pub count-append :
    (p : ℕ × ℕ → Bool) (xs ys : List (ℕ × ℕ)) → count p (xs ++ ys) ≡ count p xs + count p ys
unfolding count
count-append p [] ys = omega arith
count-append p (x ∷ xs) ys = rw (count-append p xs ys) (omega arith)
