-- ===== src/DictionaryCache/Recent.antt =====
-- A directory in which one dictionary is newer than every other file.
use manka_shreds_sdk.Common.{
  ℕ, ◌^◌, ◌<◌, ◌≡◌, ◌≢◌, ◌⊎◌, inl, inr, refl, sym, ap, ◌∙◌, arith, List, [], ◌∷◌, none, some, Bool,
  true, not, ltb, All, Bool-cases,
}
use manka_shreds_sdk.Handshake.{same_bytes}
use manka_shreds_sdk.DictionaryCache.{
  path_for, used_of, parse_name, entry_named, entry_at, entries_of, remove_all,
}
use manka_shreds_sdk.DictionaryCache.Names.{parse_name-path_for, path_for-injective}
use manka_shreds_sdk.DictionaryCache.Files.{
  File, Directory, done, first_answer, other_answers, without, stamp, remove_file,
}
use manka_shreds_sdk.DictionaryCache.Held.{same_bytes-ne}
use manka_shreds_sdk.DictionaryCache.Order.{count, count-append, of_id, at_other, not_before}
use manka_shreds_sdk.DictionaryCache.Calm.{IsCalm, remove_file_calm}

-- No file is named like a dictionary unless the cache has named it.
abbrev pub IsOwn : List ℕ → Type 0
IsOwn name = (parse_name name ≡ none) ⊎ ((i : ℕ) × (i < 2 ^ 32) × (name ≡ path_for i))

-- Another file, last modified before t
abbrev pub Behind : ℕ → ℕ → File → Type 0
Behind id t f = (f.modified < t) × (f.name ≢ path_for id) × IsOwn f.name

abbrev pub too_wide : ℕ × ℕ → Bool
too_wide x = not (ltb x.1 (2 ^ 32))

abbrev pub stored_file : ℕ → ℕ → List ℕ → File
stored_file id t bytes = record { name = path_for id; contents = bytes; modified = t }

-- The dictionary is in the directory, and no other file is as new.
pub record Newly (id t : ℕ) (bytes : List ℕ) (dir : Directory) : Type 0 where
  pub calm : IsCalm dir
  pub there : dir.is_there ≡ true
  pub rest : List File
  pub files_are : dir.files ≡ stored_file id t bytes ∷ rest
  pub behind : All (Behind id t) rest

pub entry_at-eq-none : (f : File) → parse_name f.name ≡ none → entry_at done done f ≡ []
unfolding entry_at entry_named
entry_at-eq-none f e = ap (λ o. entry_named o f.modified) e

pub entry_at-eq-some :
    (f : File) (i : ℕ) → parse_name f.name ≡ some i → entry_at done done f ≡ (f.modified, i) ∷ []
unfolding entry_at entry_named used_of
entry_at-eq-some f i e = ap (λ o. entry_named o f.modified) e

-- What a file behind adds to the counts
module _ (id t : ℕ) where
  entry_counts :
      (f : File)
      → Behind id t f
      → (count (of_id id) (entry_at done done f) ≡ 0)
        × (count (not_before id t) (entry_at done done f) ≡ 0)
        × (count too_wide (entry_at done done f) ≡ 0)
  unfolding count
  entry_counts f (older, other, inl unread) = rw (entry_at-eq-none f unread) (refl, refl, refl)
  entry_counts f (older, other, inr (i, small, named)) =
      let apart : i ≢ id = λ e. other (named ∙ ap path_for e) in
      rw (entry_at-eq-some f i (ap parse_name named ∙ parse_name-path_for i small))
        (ground arith, ground arith, ground arith)

  at_other_zero : (es : List (ℕ × ℕ)) → count (of_id id) es ≡ 0 → count (at_other id t) es ≡ 0
  unfolding count
  at_other_zero [] h = refl
  at_other_zero (e ∷ es) h = let rest = at_other_zero es (ground arith) in ground arith

  Behind-counts :
      (fs : List File)
      → All (Behind id t) fs
      → (count (of_id id) (entries_of [] fs) ≡ 0)
        × (count (not_before id t) (entries_of [] fs) ≡ 0)
        × (count too_wide (entries_of [] fs) ≡ 0)
  unfolding entries_of count first_answer other_answers
  Behind-counts [] h = (refl, refl, refl)
  Behind-counts (f ∷ fs) (h, hs) =
      let (a, b, c) = entry_counts f h in
      let (d, e, g) = Behind-counts fs hs in
      (
        rw (count-append (of_id id) (entry_at done done f) (entries_of [] fs)) (omega arith),
        rw (count-append (not_before id t) (entry_at done done f) (entries_of [] fs)) (omega arith),
        rw (count-append too_wide (entry_at done done f) (entries_of [] fs)) (omega arith),
      )

  pub All-without :
      (P : File → Type 0) (n : List ℕ) (fs : List File) → All P fs → All P (without n fs)
  unfolding without
  All-without P n [] h = h
  All-without P n (f ∷ fs) (h, hs) = elim (Bool-cases (same_bytes n f.name)) [
    | inl e ↦ rw e (All-without P n fs hs)
    | inr e ↦ rw e (h, All-without P n fs hs)
  ]

  pub stamp-Behind : (fs : List File) → All (Behind id t) fs → stamp (path_for id) t fs ≡ fs
  unfolding stamp
  stamp-Behind [] h = refl
  stamp-Behind (f ∷ fs) ((older, other, own), hs) =
      simp (same_bytes-ne (path_for id) f.name (λ e. other (sym e)), stamp-Behind fs hs)

module _ (id t : ℕ) (bytes : List ℕ) (small : id < 2 ^ 32) where
  -- The entries: that of the dictionary, and those of files behind
  pub listed :
      (fs : List File)
      → All (Behind id t) fs
      → let es = entries_of [] (stored_file id t bytes ∷ fs) in
        (count (of_id id) es ≡ 1)
        × (count (at_other id t) es ≡ 0)
        × (count (not_before id t) es ≡ 0)
        × (count too_wide es ≡ 0)
  unfolding entries_of count first_answer other_answers
  listed fs h =
      let (a, b, c) = Behind-counts id t fs h in
      let d = at_other_zero id t (entries_of [] fs) a in
      let own = stored_file id t bytes in
      rw (entry_at-eq-some own id (parse_name-path_for id small))
        (ground arith, ground arith, ground arith, ground arith)

  remove_file-Newly :
      (i : ℕ) (dir : Directory)
      → i ≢ id
      → i < 2 ^ 32
      → Newly id t bytes dir
      → Newly id t bytes (remove_file (path_for i) dir)
  unfolding without
  remove_file-Newly i dir apart narrow new =
      let other : path_for i ≢ path_for id = λ e. apart (path_for-injective i id narrow small e) in
      rw (remove_file_calm dir new.calm (path_for i)) (record {
        calm = refl;
        there = new.there;
        rest = without (path_for i) new.rest;
        files_are = rw new.files_are (simp (same_bytes-ne (path_for i) (path_for id) other));
        behind = All-without id t (Behind id t) (path_for i) new.rest new.behind;
      })

  pub remove_all-Newly :
      (es : List (ℕ × ℕ)) (dir : Directory)
      → count (of_id id) es ≡ 0
      → count too_wide es ≡ 0
      → Newly id t bytes dir
      → Newly id t bytes (remove_all es dir)
  unfolding remove_all count
  remove_all-Newly [] dir h k new = new
  remove_all-Newly ((used, i) ∷ es) dir h k new =
      let others : count (of_id id) es ≡ 0 = ground arith in
      let narrow : count too_wide es ≡ 0 = ground arith in
      remove_all-Newly es (remove_file (path_for i) dir) others narrow
        (remove_file-Newly i dir (ground arith) (ground arith) new)
