-- ===== src/DictionaryCache/Files.antt =====
-- The directory of the cache, as `std::fs` shows it.
-- How each call will be answered, and what the clocks read, is part of the state.
use manka_shreds_sdk.Common.{
  ℕ, ◌+◌, List, [], ◌∷◌, Option, none, some, Bool, true, false, if◌then◌else◌, take,
}
use manka_shreds_sdk.Handshake.{same_bytes}

-- A file: its name, its bytes, and when it was last modified.
pub record File : Type 0 where
  pub name : List ℕ
  pub contents : List ℕ
  pub modified : ℕ

-- How a call is answered. A write that breaks off, as on a full disk, leaves what it has written.
pub data Answer : Type 0 where
  done : Answer
  refused : Answer
  broken_off : ℕ → Answer

-- The answers to the calls to come; behind the last one every call succeeds. The clock that
-- `SystemTime::now` reads and the one that stamps a written file are functions of the calls made.
pub record Directory : Type 0 where
  pub is_there : Bool
  pub files : List File
  pub answers : List Answer
  pub calls : ℕ
  pub clock : ℕ → ℕ
  pub write_stamp : ℕ → ℕ
  pub pid : ℕ
  pub next_unique : ℕ

-- The file of a name
unfoldable pub find : List ℕ → List File → Option File
find name [] = none
find name (f ∷ fs) = if same_bytes name f.name then some f else find name fs

-- The files without that of a name
unfoldable pub without : List ℕ → List File → List File
without name [] = []
without name (f ∷ fs) = if same_bytes name f.name then without name fs else f ∷ without name fs

-- The answer to one call, and the directory that has made it
unfoldable pub first_answer : List Answer → Answer
first_answer [] = done
first_answer (a ∷ rest) = a

unfoldable pub other_answers : List Answer → List Answer
other_answers [] = []
other_answers (a ∷ rest) = rest

unfoldable pub call : Directory → Answer × Directory
unfolding first_answer other_answers
call dir = (
  first_answer dir.answers,
  record dir { answers = other_answers dir.answers; calls = dir.calls + 1 },
)

unfoldable pub contents_of : Option File → Option (List ℕ)
contents_of none = none
contents_of (some f) = some f.contents

-- `std::fs::read(…).ok()`
unfoldable pub answer_read : Answer × Directory → List ℕ → Option (List ℕ) × Directory
unfolding contents_of
answer_read (done, dir) name = (contents_of (find name dir.files), dir)
answer_read (refused, dir) name = (none, dir)
answer_read (broken_off n, dir) name = (none, dir)

unfoldable pub read_file : List ℕ → Directory → Option (List ℕ) × Directory
unfolding answer_read
read_file name dir = answer_read (call dir) name

-- A file in the place of any of its name
unfoldable pub put : List ℕ → List ℕ → ℕ → Directory → Directory
put name bytes stamp dir = record dir {
  files = record { name = name; contents = bytes; modified = stamp } ∷ without name dir.files;
}

-- `std::fs::write(…).is_ok()`
unfoldable pub answer_write : Answer × Directory → List ℕ → List ℕ → Bool × Directory
unfolding put
answer_write (done, dir) name bytes = (true, put name bytes (dir.write_stamp dir.calls) dir)
answer_write (refused, dir) name bytes = (false, dir)
answer_write (broken_off n, dir) name bytes =
    (false, put name (take n bytes) (dir.write_stamp dir.calls) dir)

unfoldable pub write_file : List ℕ → List ℕ → Directory → Bool × Directory
unfolding answer_write
write_file name bytes dir =
    if dir.is_there then answer_write (call dir) name bytes else (false, dir)

-- `let _ = std::fs::remove_file(…)`
unfoldable pub answer_remove : Answer × Directory → List ℕ → Directory
answer_remove (done, dir) name = record dir { files = without name dir.files }
answer_remove (refused, dir) name = dir
answer_remove (broken_off n, dir) name = dir

unfoldable pub remove_file : List ℕ → Directory → Directory
unfolding answer_remove
remove_file name dir = answer_remove (call dir) name

-- `std::fs::rename(…).is_ok()`, which takes the place of any file of the new name at once
unfoldable pub move_file : Option File → List ℕ → List ℕ → Directory → Bool × Directory
move_file none from to dir = (false, dir)
move_file (some f) from to dir =
    (true, record dir { files = record f { name = to } ∷ without to (without from dir.files) })

unfoldable pub answer_rename : Answer × Directory → List ℕ → List ℕ → Bool × Directory
unfolding move_file
answer_rename (done, dir) from to = move_file (find from dir.files) from to dir
answer_rename (refused, dir) from to = (false, dir)
answer_rename (broken_off n, dir) from to = (false, dir)

unfoldable pub rename : List ℕ → List ℕ → Directory → Bool × Directory
unfolding answer_rename
rename from to dir = answer_rename (call dir) from to

-- `std::fs::create_dir_all(…).is_ok()`
unfoldable pub answer_create : Answer × Directory → Bool × Directory
answer_create (done, dir) = (true, record dir { is_there = true })
answer_create (refused, dir) = (false, dir)
answer_create (broken_off n, dir) = (false, dir)

unfoldable pub create_dir_all : Directory → Bool × Directory
unfolding answer_create
create_dir_all dir = if dir.is_there then (true, dir) else answer_create (call dir)

-- `std::fs::read_dir(…).ok()`
unfoldable pub answer_list : Answer × Directory → List File × Directory
answer_list (done, dir) = (if dir.is_there then dir.files else [], dir)
answer_list (refused, dir) = ([], dir)
answer_list (broken_off n, dir) = ([], dir)

unfoldable pub read_dir : Directory → List File × Directory
unfolding answer_list
read_dir dir = answer_list (call dir)

-- The files with the one of a name stamped anew
unfoldable pub stamp : List ℕ → ℕ → List File → List File
stamp name now [] = []
stamp name now (f ∷ fs) =
    (if same_bytes name f.name then record f { modified = now } else f) ∷ stamp name now fs

-- `touch`: the clock is read, and then the file is opened and stamped, if it is there.
unfoldable pub answer_touch : Answer × Directory → List ℕ → ℕ → Directory
unfolding stamp
answer_touch (done, dir) name now = record dir { files = stamp name now dir.files }
answer_touch (refused, dir) name now = dir
answer_touch (broken_off n, dir) name now = dir

unfoldable pub touch : List ℕ → Directory → Directory
unfolding answer_touch
touch name dir = answer_touch (call dir) name (dir.clock dir.calls)
