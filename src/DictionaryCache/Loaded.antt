-- ===== src/DictionaryCache/Loaded.antt =====
-- What the cache gives back: `load` and `newest`.
use manka_shreds_sdk.Common.{
  ℕ, ◌≡◌, ◌⊎◌, inl, inr, refl, sym, ap, ◌∙◌, arith, List, [], ◌∷◌, Option, none, some, ◌==◌, ==_iff,
  Bool-cases, subst,
}
use mathlib.Core.Option.{some-injective}
use native.Mathlib.Decide.{ℕ_discrete as dec_eq}
use manka_shreds_sdk.Protocol.Dictionary.{dictionary_id}
use manka_shreds_sdk.DictionaryCache.{
  path_for, entries, check_loaded, load, or_else, load_first, newest,
}
use manka_shreds_sdk.DictionaryCache.Files.{
  Directory, Answer, done, refused, broken_off, read_file, answer_read, call,
}
use manka_shreds_sdk.DictionaryCache.Held.{held, bytes_at, bytes_at-touch, bytes_at-entries}
use manka_shreds_sdk.DictionaryCache.Kept.{Keeps, Keeps-trans, remove_file-Keeps}

-- What a read gives is the bytes of the file, or nothing.
answer_read_lem :
    (a : Answer) (dir : Directory) (m : List ℕ)
    → ((answer_read (a, dir) m).0 ≡ bytes_at m dir) ⊎ ((answer_read (a, dir) m).0 ≡ none)
unfolding answer_read
answer_read_lem done dir m = inl refl
answer_read_lem refused dir m = inr refl
answer_read_lem (broken_off k) dir m = inr refl

answer_read-files :
    (n m : List ℕ) (a : Answer) (dir : Directory)
    → bytes_at n (answer_read (a, dir) m).1 ≡ bytes_at n dir
unfolding answer_read
answer_read-files n m done dir = refl
answer_read-files n m refused dir = refl
answer_read-files n m (broken_off k) dir = refl

read_file_lem :
    (m : List ℕ) (dir : Directory)
    → ((read_file m dir).0 ≡ bytes_at m dir) ⊎ ((read_file m dir).0 ≡ none)
unfolding read_file call
read_file_lem m dir = answer_read_lem _ _ m

bytes_at-read_file :
    (n m : List ℕ) (dir : Directory) → bytes_at n (read_file m dir).1 ≡ bytes_at n dir
unfolding read_file call
bytes_at-read_file n m dir = answer_read-files n m _ _

check_loaded-Keeps :
    (i id : ℕ) (found : Option (List ℕ)) (dir : Directory)
    → Keeps i dir (check_loaded id (found, dir)).1
unfolding check_loaded
check_loaded-Keeps i id none dir = inl refl
check_loaded-Keeps i id (some bytes) dir = elim (Bool-cases (dictionary_id bytes == id)) [
  | inl e ↦ rw e (inl (bytes_at-touch (path_for i) dir (path_for id)))
  | inr e ↦ rw e (remove_file-Keeps i (path_for id) dir)
]

check_loaded-eq-some :
    (id : ℕ) (found : Option (List ℕ)) (dir : Directory) (bytes : List ℕ)
    → (check_loaded id (found, dir)).0 ≡ some bytes
    → (dictionary_id bytes ≡ id) × (found ≡ some bytes)
unfolding check_loaded
check_loaded-eq-some id none dir bytes e = absurd (cc e)
check_loaded-eq-some id (some b) dir bytes e = elim (dec_eq (dictionary_id b) id) [
  | yes right ↦
      let same : b ≡ bytes =
        some-injective b bytes (simp ((==_iff (dictionary_id b) id).1 right) at e) in
      (ap dictionary_id (sym same) ∙ right, ap some same)
  | no wrong ↦ absurd (ground arith)
]

-- A load leaves every dictionary, or removes one.
load-Keeps : (i id : ℕ) (dir : Directory) → Keeps i dir (load id dir).1
unfolding load
load-Keeps i id dir =
    let read = read_file (path_for id) dir in
    let same : Keeps i dir read.1 = inl (bytes_at-read_file (path_for i) (path_for id) dir) in
    Keeps-trans i dir read.1 (check_loaded id read).1 same (check_loaded-Keeps i id read.0 read.1)

load-eq-some :
    (id : ℕ) (dir : Directory) (bytes : List ℕ)
    → (load id dir).0 ≡ some bytes
    → (dictionary_id bytes ≡ id) × (held id dir ≡ some bytes)
unfolding load
load-eq-some id dir bytes e =
    let read = read_file (path_for id) dir in
    let (right, found) = check_loaded-eq-some id read.0 read.1 bytes e in
    (
      right,
      elim (read_file_lem (path_for id) dir) [
        | inl same ↦ sym same ∙ found
        | inr gone ↦ absurd (cc (sym gone ∙ found))
      ],
    )

pub held_before :
    (id : ℕ) (before after : Directory) (bytes : List ℕ)
    → Keeps id before after
    → held id after ≡ some bytes
    → held id before ≡ some bytes
held_before id before after bytes (inl e) h = sym e ∙ h
held_before id before after bytes (inr e) h = absurd (cc (sym e ∙ h))

-- The search for the newest, too, leaves every dictionary, or removes it.
or_else-Keeps :
    (i id : ℕ) (loaded : Option (List ℕ)) (before dir : Directory)
    (others : Directory → Option (ℕ × List ℕ) × Directory)
    → Keeps i before dir
    → Keeps i dir (others dir).1
    → Keeps i before (or_else id (loaded, dir) others).1
unfolding or_else
or_else-Keeps i id (some b) before dir others k h = k
or_else-Keeps i id none before dir others k h = Keeps-trans i before dir (others dir).1 k h

load_first-Keeps : (i : ℕ) (es : List (ℕ × ℕ)) (dir : Directory) → Keeps i dir (load_first es dir).1
unfolding load_first
load_first-Keeps i [] dir = inl refl
load_first-Keeps i ((used, id) ∷ rest) dir =
    let loaded = load id dir in
    or_else-Keeps i id loaded.0 dir loaded.1 (load_first rest) (load-Keeps i id dir)
      (load_first-Keeps i rest loaded.1)

-- What is given back is a dictionary that is held, and the id it is given with is its own.
abbrev pub IsHeld : ℕ → List ℕ → Directory → Type 0
IsHeld id bytes dir = (dictionary_id bytes ≡ id) × (held id dir ≡ some bytes)

or_else-eq-some :
    (i : ℕ) (loaded : Option (List ℕ)) (before dir : Directory) (es : List (ℕ × ℕ)) (id : ℕ)
    (bytes : List ℕ)
    → ((b : List ℕ) → loaded ≡ some b → IsHeld i b before)
    → Keeps id before dir
    → (or_else i (loaded, dir) (load_first es)).0 ≡ some (id, bytes)
    → ((load_first es dir).0 ≡ some (id, bytes) → IsHeld id bytes dir)
    → IsHeld id bytes before
unfolding or_else
or_else-eq-some i (some b) before dir es id bytes h k e others =
    let both : (i, b) ≡ (id, bytes) = some-injective (i, b) (id, bytes) e in
    let own : IsHeld i b before = h b refl in subst (λ p. IsHeld p.0 p.1 before) both own
or_else-eq-some i none before dir es id bytes h k e others =
    let (right, found) = others e in (right, held_before id before dir bytes k found)

load_first-eq-some :
    (es : List (ℕ × ℕ)) (dir : Directory) (id : ℕ) (bytes : List ℕ)
    → (load_first es dir).0 ≡ some (id, bytes)
    → IsHeld id bytes dir
unfolding load_first
load_first-eq-some [] dir id bytes e = absurd (cc e)
load_first-eq-some ((used, i) ∷ rest) dir id bytes e =
    let loaded = load i dir in
    or_else-eq-some i loaded.0 dir loaded.1 rest id bytes (load-eq-some i dir) (load-Keeps id i dir)
      e (load_first-eq-some rest loaded.1 id bytes)

module _ (sort_by_use : List (ℕ × ℕ) → List (ℕ × ℕ)) where
  -- Whatever the file system answers, and whatever is in the directory, a dictionary that
  -- `newest` gives hashes to the id that it is given with, and is held under it.
  pub newest-eq-some :
      (dir : Directory) (id : ℕ) (bytes : List ℕ)
      → (newest sort_by_use dir).0 ≡ some (id, bytes)
      → IsHeld id bytes dir
  unfolding newest
  newest-eq-some dir id bytes e =
      let listed = entries dir in
      let (right, found) = load_first-eq-some (sort_by_use listed.0) listed.1 id bytes e in
      (right, sym (bytes_at-entries (path_for id) dir) ∙ found)

  pub newest-Keeps : (i : ℕ) (dir : Directory) → Keeps i dir (newest sort_by_use dir).1
  unfolding newest
  newest-Keeps i dir =
      let listed = entries dir in
      let same : Keeps i dir listed.1 = inl (bytes_at-entries (path_for i) dir) in
      Keeps-trans i dir listed.1 (load_first (sort_by_use listed.0) listed.1).1 same
        (load_first-Keeps i (sort_by_use listed.0) listed.1)
