-- ===== src/DictionaryCache/Owned.antt =====
-- What a directory lists whose files the cache has named, and what it lists behind a prune, where no call
-- fails.
use manka_shreds_sdk.Common.{
  ◌*◌, ◌+◌, ℕ, ◌≤◌, ◌≡◌, ◌≢◌, inl, inr, refl, sym, ap, ◌∙◌, arith, List, [], ◌∷◌, Bool, true, false,
  leb, if◌then◌else◌, length, drop, All, Bool-cases,
}
use manka_shreds_sdk.Handshake.{same_bytes}
use manka_shreds_sdk.Handshake.Proofs.{same_bytes-eq}
use manka_shreds_sdk.DictionaryCache.{
  path_for, entry_at, entries_of, entries, remove_all, prune, keep,
}
use manka_shreds_sdk.DictionaryCache.Files.{File, Directory, done}
use manka_shreds_sdk.DictionaryCache.Held.{apart}
use manka_shreds_sdk.DictionaryCache.Order.{count, of_id}
use manka_shreds_sdk.DictionaryCache.Calm.{IsCalm, entries_calm}
use manka_shreds_sdk.DictionaryCache.Recent.{IsOwn, too_wide}
use manka_shreds_sdk.DictionaryCache.Removal.{
  entry_of, no_entries, entries_of_cons, removed, remove_all-files,
}

-- A directory has one file of a name, and none that is named like a dictionary unless the cache
-- has named it.
abbrev pub IsOwned : List File → Type 0
IsOwned [] = Unit
IsOwned (f ∷ fs) = IsOwn f.name × All (λ (g : File). g.name ≢ f.name) fs × IsOwned fs

pub owned_names : (fs : List File) → IsOwned fs → All (λ (f : File). IsOwn f.name) fs
owned_names [] h = tt
owned_names (f ∷ fs) (own, others, owned) = (own, owned_names fs owned)

module _ (i : ℕ) where
  entry_unlike :
      (f : File) → IsOwn f.name → f.name ≢ path_for i → count (of_id i) (entry_at done done f) ≡ 0
  unfolding count
  entry_unlike f own h = elim (entry_of f own) [
    | inl e ↦ rw e refl
    | inr (j, narrow, named, e) ↦
        let other : j ≢ i = λ same. h (named ∙ ap path_for same) in rw e (ground arith)
  ]

  entry_once : (f : File) → IsOwn f.name → count (of_id i) (entry_at done done f) ≤ 1
  unfolding count
  entry_once f own = elim (entry_of f own) [
    | inl e ↦ rw e (omega arith)
    | inr (j, narrow, named, e) ↦ rw e (ground arith)
  ]

  none_of :
      (name : List ℕ) (fs : List File)
      → name ≡ path_for i
      → All (λ (f : File). IsOwn f.name) fs
      → All (λ (f : File). f.name ≢ name) fs
      → count (of_id i) (entries_of [] fs) ≡ 0
  none_of name [] same own others = no_entries (of_id i)
  none_of name (f ∷ fs) same (own, owned) (other, others) =
      let rest = none_of name fs same owned others in
      let this = entry_unlike f own (λ q. other (q ∙ sym same)) in
      rw (entries_of_cons (of_id i) f fs) (omega arith)

  pub one_each : (fs : List File) → IsOwned fs → count (of_id i) (entries_of [] fs) ≤ 1
  one_each [] h = rw (no_entries (of_id i)) (omega arith)
  one_each (f ∷ fs) (own, others, owned) =
      let rest = one_each fs owned in
      let once = entry_once f own in
      rw (entries_of_cons (of_id i) f fs) (elim (Bool-cases (same_bytes f.name (path_for i))) [
        | inl e ↦
            let same : f.name ≡ path_for i = same_bytes-eq f.name (path_for i) e in
            let nothing = none_of f.name fs same (owned_names fs owned) others in omega arith
        | inr e ↦ let this = entry_unlike f own (apart f.name (path_for i) e) in omega arith
      ])

entry_narrow : (f : File) → IsOwn f.name → count too_wide (entry_at done done f) ≡ 0
unfolding count
entry_narrow f own = elim (entry_of f own) [
  | inl e ↦ rw e refl
  | inr (j, small, named, e) ↦ rw e (ground arith)
]

pub narrow_ids :
    (fs : List File) → All (λ (f : File). IsOwn f.name) fs → count too_wide (entries_of [] fs) ≡ 0
narrow_ids [] h = no_entries too_wide
narrow_ids (f ∷ fs) (own, owned) =
    let this = entry_narrow f own in
    let rest = narrow_ids fs owned in rw (entries_of_cons too_wide f fs) (omega arith)

pub entries-files :
    (dir : Directory) → IsCalm dir → dir.is_there ≡ true → (entries dir).0 ≡ entries_of [] dir.files
entries-files dir calm there = ap (λ p. p.0) (entries_calm dir calm there)

-- What is listed behind a prune.
pub entries-prune :
    (sort_by_use : List (ℕ × ℕ) → List (ℕ × ℕ)) (dir : Directory)
    → IsCalm dir
    → dir.is_there ≡ true
    → (entries (prune sort_by_use dir)).0 ≡ (
        if leb (length (entries_of [] dir.files)) keep
        then entries_of [] dir.files
        else entries_of [] (removed (drop keep (sort_by_use (entries_of [] dir.files))) dir.files))
unfolding prune
entries-prune sort_by_use dir calm there =
    let es = entries_of [] dir.files in
    let listed : Directory = record dir {
      answers = [];
      calls = dir.calls + 1 + 2 * length dir.files;
    } in
    ap
      (λ (p : List (ℕ × ℕ) × Directory).
        (entries
          (if leb (length p.0) keep then p.1 else remove_all (drop keep (sort_by_use p.0)) p.1)).0)
      (entries_calm dir calm there)
    ∙ by_length (leb (length es) keep) listed (drop keep (sort_by_use es)) refl there
  where
    by_length :
        (b : Bool) (listed : Directory) (gone : List (ℕ × ℕ))
        → IsCalm listed
        → listed.is_there ≡ true
        → (entries (if b then listed else remove_all gone listed)).0
          ≡ (if b then entries_of [] listed.files else entries_of [] (removed gone listed.files))
    by_length true listed gone calm there = entries-files listed calm there
    by_length false listed gone calm there =
        let (left, calm_left, there_left) = remove_all-files gone listed calm in
        entries-files (remove_all gone listed) calm_left (there_left ∙ there)
        ∙ ap (entries_of []) left
