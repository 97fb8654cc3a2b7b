-- ===== src/Transaction/Access/Arrays.antt =====
-- A run of arrays of one width: `arrays` returns them in order, and together they are the section.
use manka_shreds_sdk.Common.{
  ℕ, zero, suc, ◌+◌, ◌*◌, ◌≤◌, ◌≡◌, refl, ap, ◌∙◌, arith, List, [], ◌∷◌, ◌++◌, none, some, ltb,
  if◌then◌else◌, length, get_elem?, All, take, drop, drop-drop, take-append-take,
}
use native.Mathlib.Nat.{add-zero}
use manka_shreds_sdk.Error.{ok}
use manka_shreds_sdk.Bytes.{window}
use manka_shreds_sdk.Bytes.Reads.{array_at_lem, length-window}
use manka_shreds_sdk.Transaction.Access.{arrays}

module _ (n : ℕ) (bytes : List ℕ) (at : ℕ) where
  -- The arrays from `index` on, as parts of the bytes.
  unfoldable pub chunks : ℕ → ℕ → List (List ℕ)
  chunks index zero = []
  chunks index (suc rounds) = window bytes (at + index * n) n ∷ chunks (index + 1) rounds

  pub arrays_lem :
      (index rounds : ℕ)
      → at + (index + rounds) * n ≤ length bytes
      → arrays n bytes at index rounds ≡ ok (chunks index rounds)
  unfolding arrays chunks
  arrays_lem index zero h = refl
  arrays_lem index (suc rounds) h = rw (
    array_at_lem n bytes (at + index * n) (omega arith),
    arrays_lem (index + 1) rounds (omega arith),
  )

  pub length-chunks : (index rounds : ℕ) → length (chunks index rounds) ≡ rounds
  unfolding chunks
  length-chunks index zero = refl
  length-chunks index (suc rounds) = ap suc (length-chunks (index + 1) rounds)

  pub get_elem?-chunks :
      (index rounds i : ℕ)
      → get_elem? (chunks index rounds) i
        ≡ (if ltb i rounds then some (window bytes (at + (index + i) * n) n) else none)
  unfolding chunks
  get_elem?-chunks index zero i = ground arith
  get_elem?-chunks index (suc rounds) zero = rw add-zero (ground arith)
  get_elem?-chunks index (suc rounds) (suc i) =
      get_elem?-chunks (index + 1) rounds i ∙ rw next (ground arith)
    where
      next : index + 1 + i ≡ index + suc i
      next = omega arith

abbrev pub join : List (List ℕ) → List ℕ
join [] = []
join (xs ∷ xss) = xs ++ join xss

module _ (n : ℕ) (bytes : List ℕ) (at : ℕ) where
  pub join-chunks :
      (index rounds : ℕ)
      → join (chunks n bytes at index rounds) ≡ window bytes (at + index * n) (rounds * n)
  unfolding chunks window
  join-chunks index zero =
      ap (λ m. take m (drop (at + index * n) bytes)) {x = 0} {y = 0 * n} (omega arith)
  join-chunks index (suc rounds) =
      let tail = drop (at + index * n) bytes in
      ap (λ t. take n tail ++ t) (join-chunks (index + 1) rounds ∙ behind)
      ∙ take-append-take n (rounds * n) tail
      ∙ ap (λ m. take m tail) {x = n + rounds * n} {y = suc rounds * n} (omega arith)
    where
      next : at + (index + 1) * n ≡ at + index * n + n
      next = omega arith

      behind :
          take (rounds * n) (drop (at + (index + 1) * n) bytes)
          ≡ take (rounds * n) (drop n (drop (at + index * n) bytes))
      behind = rw (next, drop-drop)

  pub chunks-All :
      (index rounds : ℕ)
      → at + (index + rounds) * n ≤ length bytes
      → All (λ (xs : List ℕ). length xs ≡ n) (chunks n bytes at index rounds)
  unfolding chunks
  chunks-All index zero h = tt
  chunks-All index (suc rounds) h = (
    omega (arith, length-window bytes (at + index * n) n),
    chunks-All (index + 1) rounds (omega arith),
  )
