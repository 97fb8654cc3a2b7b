-- ===== src/DictionaryCache/Threads/Runs.antt =====
-- The sequential code takes the steps: whatever the file system answers, `store` and `newest` are runs.
use manka_shreds_sdk.Common.{
  ℕ, ◌≡◌, inl, inr, refl, List, [], ◌∷◌, Option, none, some, Bool, true, false, ◌==◌, if◌then◌else◌,
  drop, length, leb, Bool-cases,
}
use manka_shreds_sdk.Protocol.Dictionary.{dictionary_id}
use manka_shreds_sdk.DictionaryCache.{
  path_for, temp_name, entries, check_loaded, load, or_else, load_first, newest, remove_all, prune,
  stored, keep,
}
use manka_shreds_sdk.DictionaryCache.Files.{
  Directory, Answer, done, refused, broken_off, call, read_file, answer_read, remove_file, read_dir,
  answer_list, touch,
}
use manka_shreds_sdk.DictionaryCache.Threads.{
  Phase, idle, Shared, set_phase, gives_up, touches, removes, looks, Reach, next,
}

-- The directory is reached, wherever the calls have come.
abbrev pub Runs : Shared → Directory → Type 0
Runs start dir = (phase : ℕ → Phase) × Reach start (record { dir = dir; phase = phase })

module _ (start : Shared) where
  pub looks-Runs :
      (dir after : Directory)
      → after.files ≡ dir.files
      → after.pid ≡ dir.pid
      → after.next_unique ≡ dir.next_unique
      → Runs start dir
      → Runs start after
  looks-Runs dir after files pid unique (phase, r) =
      (phase, next r (looks (record { dir = dir; phase = phase }) after files pid unique))

  touch-Runs : (id : ℕ) (dir : Directory) → Runs start dir → Runs start (touch (path_for id) dir)
  touch-Runs id dir (phase, r) = (phase, next r (touches (record { dir = dir; phase = phase }) id))

  remove_path-Runs :
      (id : ℕ) (dir : Directory) → Runs start dir → Runs start (remove_file (path_for id) dir)
  remove_path-Runs id dir (phase, r) =
      (phase, next r (removes (record { dir = dir; phase = phase }) id))

  pub remove_temp-Runs :
      (id unique : ℕ) (dir : Directory)
      → Runs start dir
      → Runs start (remove_file (temp_name id dir.pid unique) dir)
  remove_temp-Runs id unique dir (phase, r) = (
    set_phase unique idle phase,
    next r (gives_up (record { dir = dir; phase = phase }) unique id),
  )

  if-Runs :
      (b : Bool) (x y : Directory) → Runs start x → Runs start y → Runs start (if b then x else y)
  if-Runs true x y h k = h
  if-Runs false x y h k = k

  remove_all-Runs :
      (es : List (ℕ × ℕ)) (dir : Directory) → Runs start dir → Runs start (remove_all es dir)
  unfolding remove_all
  remove_all-Runs [] dir h = h
  remove_all-Runs ((used, id) ∷ es) dir h =
      remove_all-Runs es (remove_file (path_for id) dir) (remove_path-Runs id dir h)

  answer_list-kept :
      (a : Answer) (dir : Directory)
      → ((answer_list (a, dir)).1.files ≡ dir.files)
        × ((answer_list (a, dir)).1.pid ≡ dir.pid)
        × ((answer_list (a, dir)).1.next_unique ≡ dir.next_unique)
  unfolding answer_list
  answer_list-kept done dir = (refl, refl, refl)
  answer_list-kept refused dir = (refl, refl, refl)
  answer_list-kept (broken_off n) dir = (refl, refl, refl)

  entries-Runs : (dir : Directory) → Runs start dir → Runs start (entries dir).1
  unfolding entries read_dir call
  entries-Runs dir h =
      let (files, pid, unique) = answer_list-kept (call dir).0 (call dir).1 in
      looks-Runs dir (entries dir).1 files pid unique h

  answer_read-kept :
      (a : Answer) (dir : Directory) (name : List ℕ)
      → ((answer_read (a, dir) name).1.files ≡ dir.files)
        × ((answer_read (a, dir) name).1.pid ≡ dir.pid)
        × ((answer_read (a, dir) name).1.next_unique ≡ dir.next_unique)
  unfolding answer_read
  answer_read-kept done dir name = (refl, refl, refl)
  answer_read-kept refused dir name = (refl, refl, refl)
  answer_read-kept (broken_off n) dir name = (refl, refl, refl)

  check_loaded-Runs :
      (id : ℕ) (found : Option (List ℕ)) (dir : Directory)
      → Runs start dir
      → Runs start (check_loaded id (found, dir)).1
  unfolding check_loaded
  check_loaded-Runs id none dir h = h
  check_loaded-Runs id (some bytes) dir h = elim (Bool-cases (dictionary_id bytes == id)) [
    | inl e ↦ rw e (touch-Runs id dir h)
    | inr e ↦ rw e (remove_path-Runs id dir h)
  ]

  load-Runs : (id : ℕ) (dir : Directory) → Runs start dir → Runs start (load id dir).1
  unfolding load read_file call
  load-Runs id dir h =
      let read = read_file (path_for id) dir in
      let (files, pid, unique) = answer_read-kept (call dir).0 (call dir).1 (path_for id) in
      check_loaded-Runs id read.0 read.1 (looks-Runs dir read.1 files pid unique h)

  or_else-Runs :
      (id : ℕ) (loaded : Option (List ℕ)) (dir : Directory)
      (others : Directory → Option (ℕ × List ℕ) × Directory)
      → Runs start dir
      → Runs start (others dir).1
      → Runs start (or_else id (loaded, dir) others).1
  unfolding or_else
  or_else-Runs id (some b) dir others h k = h
  or_else-Runs id none dir others h k = k

  load_first-Runs :
      (es : List (ℕ × ℕ)) (dir : Directory) → Runs start dir → Runs start (load_first es dir).1
  unfolding load_first
  load_first-Runs [] dir h = h
  load_first-Runs ((used, id) ∷ es) dir h =
      let loaded = load id dir in
      let k = load-Runs id dir h in
      or_else-Runs id loaded.0 loaded.1 (load_first es) k (load_first-Runs es loaded.1 k)

  module _ (sort_by_use : List (ℕ × ℕ) → List (ℕ × ℕ)) where
    pub newest-Runs : (dir : Directory) → Runs start dir → Runs start (newest sort_by_use dir).1
    unfolding newest
    newest-Runs dir h =
        load_first-Runs (sort_by_use (entries dir).0) (entries dir).1 (entries-Runs dir h)

    prune-Runs : (dir : Directory) → Runs start dir → Runs start (prune sort_by_use dir)
    unfolding prune
    prune-Runs dir h =
        let listed = (entries dir).1 in
        let gone = drop keep (sort_by_use (entries dir).0) in
        let k = entries-Runs dir h in
        if-Runs (leb (length (entries dir).0) keep) listed (remove_all gone listed) k
          (remove_all-Runs gone listed k)

    pub stored-Runs :
        (id unique : ℕ) (moved : Bool) (dir : Directory)
        → Runs start dir
        → Runs start (stored sort_by_use id unique (moved, dir)).1
    unfolding stored
    stored-Runs id unique true dir h = prune-Runs (touch (path_for id) dir) (touch-Runs id dir h)
    stored-Runs id unique false dir h = remove_temp-Runs id unique dir h
