-- ===== src/DictionaryCache/RoundTrip.antt =====
-- `store`, and then `newest`, where no call fails.
use manka_shreds_sdk.Common.{
  ℕ, ◌+◌, ◌%◌, ◌^◌, ◌≤◌, ◌<◌, ◌≡◌, inl, inr, refl, sym, arith, List, [], ◌∷◌, some, true, ==_iff,
  if◌then◌else◌, All, Bool-cases,
}
use manka_shreds_sdk.Handshake.{same_bytes}
use manka_shreds_sdk.Handshake.Proofs.{same_bytes_refl}
use manka_shreds_sdk.Protocol.Dictionary.{dictionary_id}
use manka_shreds_sdk.DictionaryCache.{
  path_for, temp_name, newest, prune, stored, written, store_in, store,
}
use manka_shreds_sdk.DictionaryCache.Files.{File, Directory, without, stamp, put, touch}
use manka_shreds_sdk.DictionaryCache.Held.{apart, find-here}
use manka_shreds_sdk.DictionaryCache.Order.{IsSort}
use manka_shreds_sdk.DictionaryCache.Calm.{
  IsCalm, touch_calm, write_file_calm, rename_calm, create_dir_all_calm,
}
use manka_shreds_sdk.DictionaryCache.Recent.{IsOwn, Behind, Newly, All-without, stamp-Behind}
use manka_shreds_sdk.DictionaryCache.Newest.{prune-Newly, newest-Newly}

-- The clock, from a call on, shows later times than that of a file.
abbrev pub IsOlder : Directory → File → Type 0
IsOlder dir f = IsOwn f.name × ((n : ℕ) → dir.calls ≤ n → f.modified < dir.clock n)

others-Behind :
    (id n : ℕ) (dir : Directory) (fs : List File)
    → dir.calls ≤ n
    → All (IsOlder dir) fs
    → All (Behind id (dir.clock n)) (without (path_for id) fs)
unfolding without
others-Behind id n dir [] h older = tt
others-Behind id n dir (f ∷ fs) h ((own, before), olds) =
    elim (Bool-cases (same_bytes (path_for id) f.name)) [
      | inl e ↦ rw e (others-Behind id n dir fs h olds)
      | inr e ↦ rw e (
        (before n h, (λ k. apart (path_for id) f.name e (sym k)), own),
        others-Behind id n dir fs h olds,
      )
    ]

-- The directory behind the rename
abbrev placed : ℕ → List ℕ → Directory → Directory
placed id bytes dir =
    let temp = temp_name id dir.pid dir.next_unique in
    record dir {
      files =
          record {
            name = path_for id;
            contents = bytes;
            modified = dir.write_stamp (dir.calls + 1);
          }
          ∷ without (path_for id) (without temp (without temp dir.files));
      answers = [];
      calls = dir.calls + 1 + 1;
      next_unique = (dir.next_unique + 1) % 2 ^ 64;
    }

-- The directory behind `create_dir_all`
abbrev made_of : Directory → Directory
made_of dir = record dir {
  is_there = true;
  answers = [];
  calls = if dir.is_there then dir.calls else dir.calls + 1;
}

made-IsOlder :
    (dir : Directory) (fs : List File) → All (IsOlder dir) fs → All (IsOlder (made_of dir)) fs
made-IsOlder dir [] older = tt
made-IsOlder dir (f ∷ fs) ((own, before), olds) =
    ((own, λ n h. before n (ground arith)), made-IsOlder dir fs olds)

module _ (sort_by_use : List (ℕ × ℕ) → List (ℕ × ℕ)) (id : ℕ) (bytes : List ℕ) where
  store_in_calm :
      (dir : Directory)
      → IsCalm dir
      → dir.is_there ≡ true
      → store_in sort_by_use id bytes (true, dir)
        ≡ (true, prune sort_by_use (touch (path_for id) (placed id bytes dir)))
  unfolding store_in written stored put without
  store_in_calm dir calm there =
      let temp = temp_name id dir.pid dir.next_unique in
      let counted = record dir { next_unique = (dir.next_unique + 1) % 2 ^ 64 } in
      let f : File = record {
        name = temp;
        contents = bytes;
        modified = dir.write_stamp (dir.calls + 1);
      } in
      let wrote : Directory = record counted {
        files = f ∷ without temp dir.files;
        answers = [];
        calls = dir.calls + 1;
      } in
      rw (write_file_calm counted calm temp bytes there) (
        rw (rename_calm wrote refl temp (path_for id) f (find-here f (without temp dir.files)))
          (rw (same_bytes_refl temp) refl))

  store_calm :
      (dir : Directory)
      → dictionary_id bytes ≡ id
      → IsCalm dir
      → store sort_by_use id bytes dir
        ≡ (true, prune sort_by_use (touch (path_for id) (placed id bytes (made_of dir))))
  unfolding store
  store_calm dir right calm =
      rw ((==_iff (dictionary_id bytes) id).1 right, create_dir_all_calm dir calm)
        (store_in_calm (made_of dir) refl refl)

  touched-Newly :
      (dir : Directory)
      → dir.is_there ≡ true
      → All (IsOlder dir) dir.files
      → Newly id (dir.clock (dir.calls + 1 + 1)) bytes (touch (path_for id) (placed id bytes dir))
  unfolding stamp
  touched-Newly dir there older =
      let now = dir.calls + 1 + 1 in
      let temp = temp_name id dir.pid dir.next_unique in
      let left = without temp (without temp dir.files) in
      let others = without (path_for id) left in
      let kept =
        All-without id now (IsOlder dir) temp (without temp dir.files)
          (All-without id now (IsOlder dir) temp dir.files older) in
      let behind = others-Behind id now dir left (omega arith) kept in
      rw (touch_calm (placed id bytes dir) refl (path_for id)) (record {
        calm = refl;
        there = there;
        rest = others;
        files_are =
            simp (same_bytes_refl (path_for id), stamp-Behind id (dir.clock now) others behind);
        behind = behind;
      })

  -- Where no call to the file system fails, the only files named like dictionaries are named
  -- by the cache, and the clock shows later times than those of all files there, storing
  -- bytes under the id that they hash to succeeds, and the newest dictionary of the directory
  -- is then these bytes under this id, whatever a prune has discarded.
  pub newest-store :
      (dir : Directory)
      → IsSort sort_by_use
      → id < 2 ^ 32
      → dictionary_id bytes ≡ id
      → IsCalm dir
      → All (IsOlder dir) dir.files
      → ((store sort_by_use id bytes dir).0 ≡ true)
        × ((newest sort_by_use (store sort_by_use id bytes dir).1).0 ≡ some (id, bytes))
  newest-store dir sorts small right calm older =
      let made = made_of dir in
      let olds = made-IsOlder dir dir.files older in
      let t = made.clock (made.calls + 1 + 1) in
      let last = touch (path_for id) (placed id bytes made) in
      let new =
        prune-Newly sort_by_use sorts id t bytes small last (touched-Newly made refl olds) in
      rw (store_calm dir right calm)
        (refl, newest-Newly sort_by_use sorts id t bytes small (prune sort_by_use last) right new)
