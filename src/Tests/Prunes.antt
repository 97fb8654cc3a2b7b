-- ===== src/Tests/Prunes.antt =====
-- A prune of a directory with one dictionary too many.
use manka_shreds_sdk.Common.{
  All, take, drop, Bool, length, ℕ, zero, suc, ◌^◌, ◌≤◌, ◌<◌, ◌≡◌, ◌≢◌, refl, arith, List, [], ◌∷◌,
  inr,
}
use manka_shreds_sdk.DictionaryCache.{path_for, entries, prune, keep}
use manka_shreds_sdk.DictionaryCache.Files.{File, Directory}
use manka_shreds_sdk.DictionaryCache.Names.{path_for-injective}
use manka_shreds_sdk.DictionaryCache.Order.{count}
use manka_shreds_sdk.DictionaryCache.Owned.{IsOwned}
use manka_shreds_sdk.DictionaryCache.Latest.{prune-take}
use manka_shreds_sdk.Tests.Caches.{insertion_sort, sorts, dir}

-- Files for the ids below n, each used at the time of its id
abbrev numbered : ℕ → List File
numbered zero = []
numbered (suc n) = record { name = path_for n; contents = []; modified = n } ∷ numbered n

numbered-All : (n k : ℕ) → n ≤ k → k < 2 ^ 32 → All (λ (g : File). g.name ≢ path_for k) (numbered n)
numbered-All zero k h small = tt
numbered-All (suc n) k h small = (
  λ e. let same = path_for-injective n k (omega arith) small e in omega arith,
  numbered-All n k (omega arith) small,
)

numbered-IsOwned : (n : ℕ) → n ≤ 2 ^ 32 → IsOwned (numbered n)
numbered-IsOwned zero h = tt
numbered-IsOwned (suc n) h = (
  inr (n, omega arith, refl),
  numbered-All n n (omega arith) (omega arith),
  numbered-IsOwned n (omega arith),
)

abbrev full : Directory
full = record dir { files = numbered 9 }

prune-take_example :
    ((p : ℕ × ℕ → Bool)
      → count p (entries (prune insertion_sort full)).0
        ≡ count p (take keep (insertion_sort (entries full).0)))
    × (length (entries (prune insertion_sort full)).0 ≤ keep)
    × All
        (λ (kept : ℕ × ℕ).
          All (λ (gone : ℕ × ℕ). gone.0 ≤ kept.0) (drop keep (insertion_sort (entries full).0)))
        (take keep (insertion_sort (entries full).0))
prune-take_example =
    prune-take insertion_sort sorts full refl refl (numbered-IsOwned 9 (omega arith))
