-- ===== src/DictionaryCache/Kept.antt =====
-- What the methods of the cache do to the dictionaries it holds, whatever the file system answers.
use manka_shreds_sdk.Common.{
  ℕ, ◌+◌, ◌%◌, ◌^◌, ◌<◌, ◌≡◌, ◌≢◌, ◌⊎◌, inl, inr, refl, sym, ap, ◌∙◌, arith, List, [], ◌∷◌, none,
  some, Bool, true, false, not, leb, ◌==◌, if◌then◌else◌, drop, length, subst,
}
use native.Mathlib.Decide.{ℕ_discrete as dec_eq}
use manka_shreds_sdk.Protocol.Dictionary.{dictionary_id}
use manka_shreds_sdk.Protocol.Dictionary.Hash.{dictionary_id_range}
use manka_shreds_sdk.DictionaryCache.{
  path_for, temp_name, entries, remove_all, prune, stored, written, store_in, store, keep,
}
use manka_shreds_sdk.DictionaryCache.Names.{path_for-injective, temp_name-ne-path_for}
use manka_shreds_sdk.DictionaryCache.Files.{
  Directory, write_file, answer_write, put, remove_file, rename, create_dir_all, touch, call,
}
use manka_shreds_sdk.DictionaryCache.Held.{
  held, bytes_at, bytes_at-remove_file, bytes_at-touch, bytes_at-write_file,
  bytes_at-create_dir_all, bytes_at-entries, bytes_at-rename, write_file-eq-true,
}

-- Whatever is held under an id hashes to it.
abbrev pub IsIntact : Directory → Type 0
IsIntact dir =
    (i : ℕ) (bytes : List ℕ) → i < 2 ^ 32 → held i dir ≡ some bytes → dictionary_id bytes ≡ i

-- What is held for an id stays, or is gone.
abbrev pub Keeps : ℕ → Directory → Directory → Type 0
Keeps i before after = (held i after ≡ held i before) ⊎ (held i after ≡ none)

-- What is held for an id stays, is gone, or is the whole of a dictionary that was stored under it.
abbrev pub Changes : ℕ → ℕ → List ℕ → Directory → Directory → Type 0
Changes i id bytes before after =
    (held i after ≡ held i before)
    ⊎ ((held i after ≡ none) ⊎ ((i ≡ id) × (held i after ≡ some bytes)))

pub remove_file-Keeps : (i : ℕ) (m : List ℕ) (dir : Directory) → Keeps i dir (remove_file m dir)
remove_file-Keeps i m dir = elim (bytes_at-remove_file (path_for i) dir m) [
  | inl e ↦ inl e
  | inr (same, gone) ↦ inr gone
]

pub Keeps-trans : (i : ℕ) (a b c : Directory) → Keeps i a b → Keeps i b c → Keeps i a c
Keeps-trans i a b c (inl e) (inl f) = inl (f ∙ e)
Keeps-trans i a b c (inr e) (inl f) = inr (f ∙ e)
Keeps-trans i a b c h (inr f) = inr f

Changes-Keeps :
    (i id : ℕ) (bytes : List ℕ) (a b c : Directory)
    → Changes i id bytes a b
    → Keeps i b c
    → Changes i id bytes a c
Changes-Keeps i id bytes a b c h (inr gone) = inr (inl gone)
Changes-Keeps i id bytes a b c (inl e) (inl f) = inl (f ∙ e)
Changes-Keeps i id bytes a b c (inr (inl e)) (inl f) = inr (inl (f ∙ e))
Changes-Keeps i id bytes a b c (inr (inr (same, e))) (inl f) = inr (inr (same, f ∙ e))

remove_all-Keeps : (i : ℕ) (es : List (ℕ × ℕ)) (dir : Directory) → Keeps i dir (remove_all es dir)
unfolding remove_all
remove_all-Keeps i [] dir = inl refl
remove_all-Keeps i ((used, id) ∷ rest) dir =
    Keeps-trans i dir (remove_file (path_for id) dir)
      (remove_all rest (remove_file (path_for id) dir)) (remove_file-Keeps i (path_for id) dir)
      (remove_all-Keeps i rest (remove_file (path_for id) dir))

if-Keeps :
    (i : ℕ) (b : Bool) (dir x y : Directory)
    → Keeps i dir x
    → Keeps i dir y
    → Keeps i dir (if b then x else y)
if-Keeps i true dir x y h k = h
if-Keeps i false dir x y h k = k

Changes-from :
    (i id : ℕ) (bytes : List ℕ) (a b c : Directory)
    → held i b ≡ held i a
    → Changes i id bytes b c
    → Changes i id bytes a c
Changes-from i id bytes a b c e (inl f) = inl (f ∙ e)
Changes-from i id bytes a b c e (inr f) = inr f

if-Changes :
    (i id : ℕ) (bytes : List ℕ) (b : Bool) (dir : Directory) (x y : Bool × Directory)
    → Changes i id bytes dir x.1
    → Changes i id bytes dir y.1
    → Changes i id bytes dir (if b then x else y).1
if-Changes i id bytes true dir x y h k = h
if-Changes i id bytes false dir x y h k = k

pid-write_file :
    (name bytes : List ℕ) (dir : Directory) → (write_file name bytes dir).1.pid ≡ dir.pid
unfolding write_file answer_write put call
pid-write_file name bytes dir = ground arith

module _ (sort_by_use : List (ℕ × ℕ) → List (ℕ × ℕ)) where
  prune-Keeps : (i : ℕ) (dir : Directory) → Keeps i dir (prune sort_by_use dir)
  unfolding prune
  prune-Keeps i dir =
      let listed = (entries dir).1 in
      let pruned = remove_all (drop keep (sort_by_use (entries dir).0)) listed in
      let same : Keeps i dir listed = inl (bytes_at-entries (path_for i) dir) in
      if-Keeps i (leb (length (entries dir).0) keep) dir listed pruned same (
        Keeps-trans i dir listed pruned same
          (remove_all-Keeps i (drop keep (sort_by_use (entries dir).0)) listed))

  stored-Keeps :
      (i id unique : ℕ) (moved : Bool) (dir : Directory)
      → Keeps i dir (stored sort_by_use id unique (moved, dir)).1
  unfolding stored
  stored-Keeps i id unique true dir =
      let touched = touch (path_for id) dir in
      let same : Keeps i dir touched = inl (bytes_at-touch (path_for i) dir (path_for id)) in
      Keeps-trans i dir touched (prune sort_by_use touched) same (prune-Keeps i touched)
  stored-Keeps i id unique false dir = remove_file-Keeps i (temp_name id dir.pid unique) dir

  written-Changes :
      (i id unique : ℕ) (bytes : List ℕ) (whole : Bool) (dir : Directory)
      → i < 2 ^ 32
      → (whole ≡ true → bytes_at (temp_name id dir.pid unique) dir ≡ some bytes)
      → id < 2 ^ 32
      → Changes i id bytes dir (written sort_by_use id unique (whole, dir)).1
  unfolding written
  written-Changes i id unique bytes false dir h full small =
      let temp = temp_name id dir.pid unique in
      Changes-Keeps i id bytes dir dir (remove_file temp dir) (inl refl)
        (remove_file-Keeps i temp dir)
  written-Changes i id unique bytes true dir h full small =
      let temp = temp_name id dir.pid unique in
      let moved = rename temp (path_for id) dir in
      let change : Changes i id bytes dir moved.1 =
        elim (bytes_at-rename (path_for i) dir temp (path_for id)
          (λ e. temp_name-ne-path_for id dir.pid unique i h (sym e))) [
            | inl e ↦ inl e
            | inr (same, e) ↦ inr (inr (path_for-injective i id h small same, e ∙ full refl))
          ] in
      Changes-Keeps i id bytes dir moved.1 (stored sort_by_use id unique moved).1 change
        (stored-Keeps i id unique moved.0 moved.1)

  store_in-Changes :
      (i id : ℕ) (bytes : List ℕ) (there : Bool) (dir : Directory)
      → i < 2 ^ 32
      → id < 2 ^ 32
      → Changes i id bytes dir (store_in sort_by_use id bytes (there, dir)).1
  unfolding store_in
  store_in-Changes i id bytes false dir h small = inl refl
  store_in-Changes i id bytes true dir h small =
      let temp = temp_name id dir.pid dir.next_unique in
      let counted = record dir { next_unique = (dir.next_unique + 1) % 2 ^ 64 } in
      let wrote = write_file temp bytes counted in
      let kept : held i wrote.1 ≡ held i dir =
        bytes_at-write_file (path_for i) counted temp bytes
          (λ e. temp_name-ne-path_for id dir.pid dir.next_unique i h (sym e)) in
      let full : wrote.0 ≡ true
          → bytes_at (temp_name id wrote.1.pid dir.next_unique) wrote.1 ≡ some bytes =
        λ e. rw (pid-write_file temp bytes counted) (write_file-eq-true temp bytes counted e) in
      let after = (written sort_by_use id dir.next_unique wrote).1 in
      Changes-from i id bytes dir wrote.1 after kept
        (written-Changes i id dir.next_unique bytes wrote.0 wrote.1 h full small)

  -- Whatever the file system answers, and wherever a write breaks off, `store` leaves what is
  -- held under any id of 32 bits as it was, or removes it, or has put the whole of the stored
  -- dictionary there, under its own id alone.
  pub store-Changes :
      (i id : ℕ) (bytes : List ℕ) (dir : Directory)
      → i < 2 ^ 32
      → id < 2 ^ 32
      → Changes i id bytes dir (store sort_by_use id bytes dir).1
  unfolding store
  store-Changes i id bytes dir h small =
      let made = create_dir_all dir in
      if-Changes i id bytes (not (dictionary_id bytes == id)) dir (false, dir)
        (store_in sort_by_use id bytes made) (inl refl)
        (Changes-from i id bytes dir made.1 (store_in sort_by_use id bytes made).1
          (bytes_at-create_dir_all (path_for i) dir)
          (store_in-Changes i id bytes made.0 made.1 h small))

  -- Bytes that do not hash to their id are refused, and the directory is not touched.
  store-eq-false :
      (id : ℕ) (bytes : List ℕ) (dir : Directory)
      → dictionary_id bytes ≢ id
      → store sort_by_use id bytes dir ≡ (false, dir)
  unfolding store
  store-eq-false id bytes dir h = ground arith

  pub store-IsIntact :
      (id : ℕ) (bytes : List ℕ) (dir : Directory)
      → IsIntact dir
      → IsIntact (store sort_by_use id bytes dir).1
  store-IsIntact id bytes dir v i b h e = elim (dec_eq (dictionary_id bytes) id) [
    | no wrong ↦ v i b h (sym (ap (λ r. held i r.1) (store-eq-false id bytes dir wrong)) ∙ e)
    | yes right ↦
        let small : id < 2 ^ 32 = subst (λ n. n < 2 ^ 32) right (dictionary_id_range bytes).0 in
        elim (store-Changes i id bytes dir h small) [
          | inl k ↦ v i b h (sym k ∙ e)
          | inr (inl k) ↦ absurd (cc (sym k ∙ e))
          | inr (inr (same, k)) ↦
              let whole : bytes ≡ b = cc (sym k ∙ e) in
              ap dictionary_id (sym whole) ∙ right ∙ sym same
        ]
  ]
