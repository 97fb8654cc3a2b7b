-- ===== src/DictionaryCache/Removal.antt =====
-- What the removals of a prune take from the entries, where no call fails.
use manka_shreds_sdk.Common.{
  ℕ, zero, suc, ◌+◌, ◌^◌, ◌≤◌, ◌<◌, ◌≡◌, ◌⊎◌, inl, inr, refl, sym, ap, ◌∙◌, arith, List, [], ◌∷◌,
  Bool, true, false, ◌&&◌, if◌then◌else◌, length, drop, All, Bool-cases,
}
use native.Mathlib.Decide.{ℕ_discrete as dec_eq}
use manka_shreds_sdk.Handshake.{same_bytes}
use manka_shreds_sdk.Handshake.Proofs.{same_bytes_refl}
use manka_shreds_sdk.DictionaryCache.{path_for, parse_name, entry_at, entries_of, remove_all}
use manka_shreds_sdk.DictionaryCache.Names.{parse_name-path_for, path_for-injective}
use manka_shreds_sdk.DictionaryCache.Files.{
  File, Directory, done, first_answer, other_answers, without, remove_file,
}
use manka_shreds_sdk.DictionaryCache.Held.{same_bytes-ne}
use manka_shreds_sdk.DictionaryCache.Order.{count, count-append, of_id}
use manka_shreds_sdk.DictionaryCache.Calm.{IsCalm, remove_file_calm}
use manka_shreds_sdk.DictionaryCache.Recent.{IsOwn, entry_at-eq-none, entry_at-eq-some}

-- An entry of an id that passes a test
abbrev pub both : (ℕ × ℕ → Bool) → ℕ → ℕ × ℕ → Bool
both p i x = of_id i x && p x

abbrev pub any_entry : ℕ × ℕ → Bool
any_entry x = true

-- The entry of a file that the cache has named, and of another
pub entry_of :
    (f : File)
    → IsOwn f.name
    → (entry_at done done f ≡ [])
      ⊎ ((i : ℕ) × (i < 2 ^ 32)
          × (f.name ≡ path_for i)
          × (entry_at done done f ≡ (f.modified, i) ∷ []))
entry_of f (inl unread) = inl (entry_at-eq-none f unread)
entry_of f (inr (i, small, named)) =
    inr (i, small, named, entry_at-eq-some f i (ap parse_name named ∙ parse_name-path_for i small))

pub no_entries : (p : ℕ × ℕ → Bool) → count p (entries_of [] []) ≡ 0
unfolding count entries_of
no_entries p = refl

pub entries_of_cons :
    (p : ℕ × ℕ → Bool) (f : File) (fs : List File)
    → count p (entries_of [] (f ∷ fs)) ≡ count p (entry_at done done f) + count p (entries_of [] fs)
unfolding entries_of first_answer other_answers
entries_of_cons p f fs = count-append p (entry_at done done f) (entries_of [] fs)

-- The entries of a file's removal are those of its id.
module _ (p : ℕ × ℕ → Bool) (i : ℕ) (small : i < 2 ^ 32) where
  removed_entry :
      (f : File)
      → IsOwn f.name
      → count (both p i) (entry_at done done f)
        ≡ (if same_bytes (path_for i) f.name then count p (entry_at done done f) else 0)
  unfolding count
  removed_entry f own = elim (entry_of f own) [
    | inl e ↦ rw e (elim (Bool-cases (same_bytes (path_for i) f.name)) [
      | inl k ↦ rw k refl
      | inr k ↦ rw k refl
    ])
    | inr (j, narrow, named, e) ↦ rw e (elim (dec_eq i j) [
      | yes same ↦
          let here : same_bytes (path_for i) f.name ≡ true =
            ap (same_bytes (path_for i)) (named ∙ ap path_for (sym same))
            ∙ same_bytes_refl (path_for i) in
          rw here (ground arith)
      | no other ↦
          let away : same_bytes (path_for i) f.name ≡ false =
            same_bytes-ne (path_for i) f.name
              (λ q. other (path_for-injective i j small narrow (q ∙ named))) in
          rw away (ground arith)
    ])
  ]

  kept_entry :
      (b : Bool) (f : File) (fs : List File)
      → count p (entries_of [] (if b then fs else f ∷ fs))
        ≡ (if b then 0 else count p (entry_at done done f)) + count p (entries_of [] fs)
  unfolding entries_of first_answer other_answers
  kept_entry true f fs = omega arith
  kept_entry false f fs = count-append p (entry_at done done f) (entries_of [] fs)

  pub count-without :
      (fs : List File)
      → All (λ (f : File). IsOwn f.name) fs
      → count p (entries_of [] (without (path_for i) fs)) + count (both p i) (entries_of [] fs)
        ≡ count p (entries_of [] fs)
  unfolding without count
  count-without [] h = let none_there = no_entries (both p i) in omega arith
  count-without (f ∷ fs) (own, owned) =
      let behind = count-without fs owned in
      let gone = removed_entry f own in
      rw
        (
          kept_entry (same_bytes (path_for i) f.name) f (without (path_for i) fs),
          entries_of_cons (both p i) f fs,
          entries_of_cons p f fs,
        )
        (grind arith)

pub length-count : (es : List (ℕ × ℕ)) → length es ≡ count any_entry es
unfolding count
length-count [] = refl
length-count (e ∷ es) = let rest = length-count es in omega arith

pub count-drop-le :
    (p : ℕ × ℕ → Bool) (n : ℕ) (es : List (ℕ × ℕ)) → count p (drop n es) ≤ count p es
unfolding count
count-drop-le p zero es = omega arith
count-drop-le p (suc n) [] = omega arith
count-drop-le p (suc n) (e ∷ es) = let rest = count-drop-le p n es in omega arith

-- The files without those of some entries
unfoldable pub removed : List (ℕ × ℕ) → List File → List File
removed [] fs = fs
removed (e ∷ es) fs = removed es (without (path_for e.1) fs)

pub remove_all-files :
    (es : List (ℕ × ℕ)) (dir : Directory)
    → IsCalm dir
    → ((remove_all es dir).files ≡ removed es dir.files)
      × IsCalm (remove_all es dir)
      × ((remove_all es dir).is_there ≡ dir.is_there)
unfolding remove_all removed
remove_all-files [] dir calm = (refl, calm, refl)
remove_all-files ((used, i) ∷ es) dir calm =
    let next = remove_file (path_for i) dir in
    let step = remove_file_calm dir calm (path_for i) in
    let (same, still, there) = remove_all-files es next (ap (λ (d : Directory). d.answers) step) in
    (
      same ∙ ap (λ (d : Directory). removed es d.files) step,
      still,
      there ∙ ap (λ (d : Directory). d.is_there) step,
    )
