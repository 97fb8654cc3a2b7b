-- ===== src/DictionaryCache/Latest.antt =====
-- Which dictionaries a prune keeps, where no call fails.
use manka_shreds_sdk.Common.{
  ℕ, zero, suc, ◌+◌, ◌^◌, ◌≤◌, ◌<◌, ◌≡◌, refl, sym, ap, ◌∙◌, arith, List, [], ◌∷◌, Bool, true,
  false, ◌==◌, ltb, leb, if◌then◌else◌, length, drop, take, take_all, take-append-drop,
  length-take-le, All,
}
use native.Mathlib.Decide.{ℕ_discrete as dec_eq}
use manka_shreds_sdk.DictionaryCache.{path_for, entries_of, entries, prune, keep}
use manka_shreds_sdk.DictionaryCache.Files.{File, Directory, without}
use manka_shreds_sdk.DictionaryCache.Order.{count, count-append, IsSort, IsDescending, of_id}
use manka_shreds_sdk.DictionaryCache.Calm.{IsCalm}
use manka_shreds_sdk.DictionaryCache.Recent.{IsOwn, too_wide, All-without}
use manka_shreds_sdk.DictionaryCache.Removal.{
  any_entry, both, length-count, count-without, count-drop-le, removed,
}
use manka_shreds_sdk.DictionaryCache.Owned.{
  IsOwned, owned_names, one_each, narrow_ids, entries-prune, entries-files,
}

-- Whether an entry is the one of this time and id
abbrev is_entry : ℕ → ℕ → ℕ × ℕ → Bool
is_entry used i = both (λ x. x.0 == used) i

none_of_id :
    (p : ℕ × ℕ → Bool) (i : ℕ) (es : List (ℕ × ℕ))
    → count (of_id i) es ≡ 0
    → count (both p i) es ≡ 0
unfolding count
none_of_id p i [] h = refl
none_of_id p i ((v, j) ∷ es) h = let rest = none_of_id p i es (ground arith) in ground arith

-- The one entry of an id is the one that is known to be there.
single_entry :
    (p : ℕ × ℕ → Bool) (used i : ℕ) (es : List (ℕ × ℕ))
    → count (of_id i) es ≤ 1
    → 1 ≤ count (is_entry used i) es
    → count (both p i) es ≡ (if p (used, i) then 1 else 0)
unfolding count
single_entry p used i [] h k = absurd (omega arith)
single_entry p used i ((v, j) ∷ es) h k = elim (dec_eq j i) [
  | yes same ↦
      let alone : count (of_id i) es ≡ 0 = ground arith in
      let others = none_of_id p i es alone in
      let no_twin = none_of_id (λ x. x.0 == used) i es alone in
      let now : v ≡ used = ground arith in rw (others, now, same) (ground arith)
  | no other ↦ let rest = single_entry p used i es (ground arith) (ground arith) in ground arith
]

-- Removing files by the entries they make takes these entries off the listing, and no others.
count-removed :
    (p : ℕ × ℕ → Bool) (es : List (ℕ × ℕ)) (fs : List File)
    → All (λ (f : File). IsOwn f.name) fs
    → count too_wide es ≡ 0
    → ((j : ℕ) → count (of_id j) (entries_of [] fs) ≤ 1)
    → ((q : ℕ × ℕ → Bool) → count q es ≤ count q (entries_of [] fs))
    → count p (entries_of [] (removed es fs)) + count p es ≡ count p (entries_of [] fs)
unfolding removed count
count-removed p [] fs owned narrow single within = omega arith
count-removed p ((used, i) ∷ es) fs owned narrow single within =
    let small : i < 2 ^ 32 = ground arith in
    let left = without (path_for i) fs in
    let known : 1 ≤ count (is_entry used i) (entries_of [] fs) =
      let here = within (is_entry used i) in ground arith in
    let gone : (q : ℕ × ℕ → Bool)
        → count q (entries_of [] left) + (if q (used, i) then 1 else 0)
          ≡ count q (entries_of [] fs) =
      λ q.
        let all = count-without q i small fs owned in
        let one = single_entry q used i (entries_of [] fs) (single i) known in omega arith in
    let rest =
      count-removed p es left (All-without 0 0 (λ (f : File). IsOwn f.name) (path_for i) fs owned)
        (ground arith) (λ j. let most = single j in let fewer = gone (of_id j) in omega arith)
        (λ q. let before = within q in let fewer = gone q in omega arith) in
    let this = gone p in omega arith

-- What comes first in a descending list was used no earlier than what comes behind.
not_later :
    (t : ℕ) (es : List (ℕ × ℕ)) → count (λ x. ltb t x.0) es ≡ 0 → All (λ (x : ℕ × ℕ). x.0 ≤ t) es
unfolding count
not_later t [] h = tt
not_later t ((v, j) ∷ es) h = (ground arith, not_later t es (ground arith))

All-drop {ℓ κ} : {A : Type ℓ} (P : A → Type κ) (n : ℕ) (xs : List A) → All P xs → All P (drop n xs)
All-drop P zero xs h = h
All-drop P (suc n) [] h = h
All-drop P (suc n) (x ∷ xs) h = All-drop P n xs h.1

descending-All :
    (n : ℕ) (es : List (ℕ × ℕ))
    → IsDescending es
    → All (λ (kept : ℕ × ℕ). All (λ (gone : ℕ × ℕ). gone.0 ≤ kept.0) (drop n es)) (take n es)
descending-All zero es h = tt
descending-All (suc n) [] h = tt
descending-All (suc n) (e ∷ es) (last, rest) =
    (All-drop _ n es (not_later e.0 es last), descending-All n es rest)

module _ (sort_by_use : List (ℕ × ℕ) → List (ℕ × ℕ)) (sorts : IsSort sort_by_use) where
  -- The entries of the files that are left are the first eight.
  removed-take :
      (p : ℕ × ℕ → Bool) (fs : List File)
      → IsOwned fs
      → count p (entries_of [] (removed (drop keep (sort_by_use (entries_of [] fs))) fs))
        ≡ count p (take keep (sort_by_use (entries_of [] fs)))
  removed-take p fs owned =
      let es = entries_of [] fs in
      let sorted = sort_by_use es in
      let own = owned_names fs owned in
      let within : (q : ℕ × ℕ → Bool) → count q (drop keep sorted) ≤ count q es = λ q.
        let same = sorts.count-sort q es in
        let fewer = count-drop-le q keep sorted in omega arith in
      let narrow : count too_wide (drop keep sorted) ≡ 0 =
        let wide = narrow_ids fs own in let fewer = within too_wide in omega arith in
      let taken =
        count-removed p (drop keep sorted) fs own narrow (λ j. one_each j fs owned) within in
      let same = sorts.count-sort p es in
      let split : count p sorted ≡ count p (take keep sorted) + count p (drop keep sorted) =
        ap (count p) (sym (take-append-drop keep sorted))
        ∙ count-append p (take keep sorted) (drop keep sorted) in
      omega arith

  few_or_many :
      (p : ℕ × ℕ → Bool) (fs : List File)
      → IsOwned fs
      → (b : Bool) → leb (length (entries_of [] fs)) keep ≡ b
      → count p (
          if b
          then entries_of [] fs
          else entries_of [] (removed (drop keep (sort_by_use (entries_of [] fs))) fs))
        ≡ count p (take keep (sort_by_use (entries_of [] fs)))
  few_or_many p fs owned true few =
      let es = entries_of [] fs in
      let same : length (sort_by_use es) ≡ length es =
        length-count (sort_by_use es) ∙ sorts.count-sort any_entry es ∙ sym (length-count es) in
      rw (take_all keep (sort_by_use es) (ground arith)) (sym (sorts.count-sort p es))
  few_or_many p fs owned false many = removed-take p fs owned

  -- Where no call to the file system fails, no two files have one name, and the only files
  -- named like dictionaries are named by the cache: the entries that are listed behind a
  -- prune are the first eight of the sorted entries that were listed before it, each as often
  -- as there, so at most eight, and none of them was used earlier than one that went.
  pub prune-take :
      (dir : Directory)
      → IsCalm dir
      → dir.is_there ≡ true
      → IsOwned dir.files
      → ((p : ℕ × ℕ → Bool)
          → count p (entries (prune sort_by_use dir)).0
            ≡ count p (take keep (sort_by_use (entries dir).0)))
        × (length (entries (prune sort_by_use dir)).0 ≤ keep)
        × All
            (λ (kept : ℕ × ℕ).
              All (λ (gone : ℕ × ℕ). gone.0 ≤ kept.0) (drop keep (sort_by_use (entries dir).0)))
            (take keep (sort_by_use (entries dir).0))
  prune-take dir calm there owned =
      let es = entries_of [] dir.files in
      let sorted = sort_by_use es in
      let same : (p : ℕ × ℕ → Bool)
          → count p (entries (prune sort_by_use dir)).0 ≡ count p (take keep sorted) =
        λ p. rw (entries-prune sort_by_use dir calm there) (few_or_many p dir.files owned _ refl) in
      rw (entries-files dir calm there) (
        same,
        omega (
          arith,
          same any_entry,
          length-count (entries (prune sort_by_use dir)).0,
          length-count (take keep sorted),
          length-take-le keep sorted,
        ),
        descending-All keep sorted (sorts.sort-IsDescending es),
      )
