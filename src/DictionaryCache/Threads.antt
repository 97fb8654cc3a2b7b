-- ===== src/DictionaryCache/Threads.antt =====
-- rust/src/dictcache.rs: `store` and `load` of several threads of one process, interleaved, and cut off
-- anywhere by a crash.
pub mod Consistent
pub mod Reachable
pub mod Runs
pub mod Stores
use manka_shreds_sdk.Common.{ℕ, ◌+◌, ◌^◌, ◌<◌, ◌≡◌, List, ◌==◌, if◌then◌else◌, take}
use manka_shreds_sdk.Protocol.Dictionary.{dictionary_id}
use manka_shreds_sdk.DictionaryCache.{path_for, temp_name}
use manka_shreds_sdk.DictionaryCache.Files.{Directory, put, rename, remove_file, touch}

-- How far a call of `store` has come: it writes its temporary file, or has written the whole of it.
pub data Phase : Type 0 where
  idle : Phase
  writing : ℕ → List ℕ → Phase
  whole : ℕ → List ℕ → Phase

-- The directory, and the calls of `store` by the number that each has drawn from `NEXT`
pub record Shared : Type 0 where
  pub dir : Directory
  pub phase : ℕ → Phase

-- One call goes on.
unfoldable pub set_phase : ℕ → Phase → (ℕ → Phase) → ℕ → Phase
set_phase unique p phase v = if v == unique then p else phase v

-- One step of one thread, between whose steps those of others may come
pub data Step : Shared → Shared → Type 0 where
  -- The test of the id has passed, and `NEXT` is counted up.
  begins :
      (s : Shared) (id : ℕ) (bytes : List ℕ)
      → dictionary_id bytes ≡ id
      → s.dir.next_unique + 1 < 2 ^ 64
      → Step s (record s {
        dir = record s.dir { next_unique = s.dir.next_unique + 1 };
        phase = set_phase s.dir.next_unique (writing id bytes) s.phase;
      })
  -- `std::fs::write` has written the first n bytes, and may stop there.
  writes :
      (s : Shared) (unique id : ℕ) (bytes : List ℕ) (n now : ℕ)
      → s.phase unique ≡ writing id bytes
      → Step s (record s { dir = put (temp_name id s.dir.pid unique) (take n bytes) now s.dir })
  -- `std::fs::write` has gone through.
  finishes :
      (s : Shared) (unique id : ℕ) (bytes : List ℕ) (now : ℕ)
      → s.phase unique ≡ writing id bytes
      → Step s (record s {
        dir = put (temp_name id s.dir.pid unique) bytes now s.dir;
        phase = set_phase unique (whole id bytes) s.phase;
      })
  -- `std::fs::rename`
  publishes :
      (s : Shared) (unique id : ℕ) (bytes : List ℕ)
      → s.phase unique ≡ whole id bytes
      → Step s (record s {
        dir = (rename (temp_name id s.dir.pid unique) (path_for id) s.dir).1;
        phase = set_phase unique idle s.phase;
      })
  -- The temporary file of a call that has failed, or is behind its rename, is removed.
  gives_up :
      (s : Shared) (unique id : ℕ)
      → Step s (record s {
        dir = remove_file (temp_name id s.dir.pid unique) s.dir;
        phase = set_phase unique idle s.phase;
      })
  -- `touch`, of `store` and of `load`
  touches : (s : Shared) (id : ℕ) → Step s (record s { dir = touch (path_for id) s.dir })
  -- The removals of `prune` and of `load`
  removes : (s : Shared) (id : ℕ) → Step s (record s { dir = remove_file (path_for id) s.dir })
  -- A call that leaves the files alone: `create_dir_all`, `read_dir` and `read`, and one that fails
  looks :
      (s : Shared) (after : Directory)
      → after.files ≡ s.dir.files
      → after.pid ≡ s.dir.pid
      → after.next_unique ≡ s.dir.next_unique
      → Step s (record s { dir = after })
  -- The process ends: no call goes on, and `NEXT` starts anew, under another process id.
  crashes :
      (s : Shared) (pid : ℕ)
      → Step s
          (record s { dir = record s.dir { pid = pid; next_unique = 0 }; phase = λ unique. idle })

pub data Reach (start : Shared) : Shared → Type 0 where
  here : Reach start start
  next : {s t : Shared} → Reach start s → Step s t → Reach start t
