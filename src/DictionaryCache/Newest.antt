-- ===== src/DictionaryCache/Newest.antt =====
-- What is stored last is what `newest` gives, where no call fails and the clock goes forward.
use manka_shreds_sdk.Common.{
  ℕ, ◌^◌, ◌<◌, ◌≡◌, refl, ap, ◌∙◌, List, [], ◌∷◌, some, Bool, true, false, leb, ==_iff,
  if◌then◌else◌, length, drop, All,
}
use manka_shreds_sdk.Protocol.Dictionary.{dictionary_id}
use manka_shreds_sdk.DictionaryCache.{
  path_for, entries_of, entries, load, check_loaded, load_first, or_else, newest, remove_all, prune,
  keep,
}
use manka_shreds_sdk.DictionaryCache.Files.{File, Directory, find, contents_of}
use manka_shreds_sdk.DictionaryCache.Held.{find-here}
use manka_shreds_sdk.DictionaryCache.Order.{
  count, count-drop, IsSort, of_id, at_other, not_before, sorted_first,
}
use manka_shreds_sdk.DictionaryCache.Calm.{IsCalm, read_file_calm, entries_calm}
use manka_shreds_sdk.DictionaryCache.Recent.{
  Behind, too_wide, stored_file, Newly, listed, remove_all-Newly,
}

if-Newly :
    (id t : ℕ) (bytes : List ℕ) (b : Bool) (x y : Directory)
    → Newly id t bytes x
    → Newly id t bytes y
    → Newly id t bytes (if b then x else y)
if-Newly id t bytes true x y h k = h
if-Newly id t bytes false x y h k = k

-- The dictionary that is stored is loaded.
load_first_own :
    (id t : ℕ) (bytes : List ℕ) (others : List (ℕ × ℕ)) (dir : Directory)
    → dictionary_id bytes ≡ id
    → IsCalm dir
    → (rest : List File) → dir.files ≡ stored_file id t bytes ∷ rest
    → (load_first ((t, id) ∷ others) dir).0 ≡ some (id, bytes)
unfolding load_first load check_loaded or_else contents_of
load_first_own id t bytes others dir right calm rest files =
    let found : contents_of (find (path_for id) dir.files) ≡ some bytes =
      rw (files, find-here (stored_file id t bytes) rest) refl in
    rw (read_file_calm dir calm (path_for id), found, (==_iff (dictionary_id bytes) id).1 right)
      refl

module _ (sort_by_use : List (ℕ × ℕ) → List (ℕ × ℕ)) (sorts : IsSort sort_by_use) (id t : ℕ)
    (bytes : List ℕ) (small : id < 2 ^ 32) where
  first_of :
      (fs : List File)
      → All (Behind id t) fs
      → let es = sort_by_use (entries_of [] (stored_file id t bytes ∷ fs)) in
        (rest : List (ℕ × ℕ)) × (es ≡ (t, id) ∷ rest) × (count (of_id id) rest ≡ 0)
  first_of fs h =
      let es = entries_of [] (stored_file id t bytes ∷ fs) in
      let (a, b, c, d) = listed id t bytes small fs h in
      sorted_first id t (sort_by_use es) (sorts.count-sort (of_id id) es ∙ a)
        (sorts.count-sort (at_other id t) es ∙ b) (sorts.count-sort (not_before id t) es ∙ c)
        (sorts.sort-IsDescending es)

  listed-Newly : (dir : Directory) → Newly id t bytes dir → Newly id t bytes (entries dir).1
  listed-Newly dir new = rw (entries_calm dir new.calm new.there) (record {
    calm = refl;
    there = new.there;
    rest = new.rest;
    files_are = new.files_are;
    behind = new.behind;
  })

  entries-Newly :
      (dir : Directory) (new : Newly id t bytes dir)
      → (entries dir).0 ≡ entries_of [] (stored_file id t bytes ∷ new.rest)
  entries-Newly dir new =
      rw (entries_calm dir new.calm new.there) (ap (entries_of []) new.files_are)

  drop-keep : (e : ℕ × ℕ) (es : List (ℕ × ℕ)) → drop keep (e ∷ es) ≡ drop 7 es
  drop-keep e es = refl

  discarded :
      (fs : List File)
      → All (Behind id t) fs
      → let es = drop keep (sort_by_use (entries_of [] (stored_file id t bytes ∷ fs))) in
        (count (of_id id) es ≡ 0) × (count too_wide es ≡ 0)
  discarded fs h =
      let es = entries_of [] (stored_file id t bytes ∷ fs) in
      let (a, b, c, d) = listed id t bytes small fs h in
      let (rest, first, none_of) = first_of fs h in
      (
        rw first (count-drop (of_id id) 7 rest none_of),
        count-drop too_wide keep (sort_by_use es) (sorts.count-sort too_wide es ∙ d),
      )

  pub prune-Newly :
      (dir : Directory) → Newly id t bytes dir → Newly id t bytes (prune sort_by_use dir)
  unfolding prune
  prune-Newly dir new =
      let kept = (entries dir).1 in
      let same = listed-Newly dir new in
      let (own, narrow) = discarded new.rest new.behind in
      let gone = drop keep (sort_by_use (entries dir).0) in
      if-Newly id t bytes (leb (length (entries dir).0) keep) kept (remove_all gone kept) same (
        remove_all-Newly id t bytes small gone kept (rw (entries-Newly dir new) own)
          (rw (entries-Newly dir new) narrow) same)

  pub newest-Newly :
      (dir : Directory)
      → dictionary_id bytes ≡ id
      → Newly id t bytes dir
      → (newest sort_by_use dir).0 ≡ some (id, bytes)
  unfolding newest
  newest-Newly dir right new =
      let (rest, first, none_of) = first_of new.rest new.behind in
      let same = listed-Newly dir new in
      rw (entries-Newly dir new, first)
        (load_first_own id t bytes rest (entries dir).1 right same.calm same.rest same.files_are)
