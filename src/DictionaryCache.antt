-- ===== src/DictionaryCache.antt =====
-- rust/src/dictcache.rs: `DictionaryCache`, the dictionaries kept between runs.
-- The methods take the directory that `self.dir` names, and return it changed.
pub mod Files
pub mod Names
pub mod Held
pub mod Kept
pub mod Loaded
pub mod Order
pub mod Calm
pub mod Recent
pub mod Newest
pub mod RoundTrip
pub mod Removal
pub mod Owned
pub mod Latest
pub mod Threads
pub mod Location
use manka_shreds_sdk.Common.{
  ℕ, zero, suc, ◌+◌, ◌*◌, ◌/◌, ◌%◌, ◌^◌, ◌-◌, ◌&&◌, List, [], ◌∷◌, ◌++◌, Option, none, some, Bool,
  true, false, not, leb, ltb, ◌==◌, if◌then◌else◌, length, take, drop,
}
use manka_shreds_sdk.Handshake.{codes, hex_digit, same_bytes}
use manka_shreds_sdk.Radix.{from_str_radix}
use manka_shreds_sdk.Protocol.Dictionary.{dictionary_id}
use manka_shreds_sdk.DictionaryCache.Files.{
  File, Directory, Answer, done, refused, broken_off, first_answer, other_answers, read_file,
  write_file, remove_file, rename, create_dir_all, read_dir, touch,
}

-- `KEEP`
abbrev pub keep : ℕ
keep = 8

-- `{id:08x}`, for an id of 32 bits
unfoldable pub hex8 : ℕ → List ℕ
hex8 id =
    hex_digit (id / 16 ^ 7 % 16)
    ∷ hex_digit (id / 16 ^ 6 % 16)
    ∷ hex_digit (id / 16 ^ 5 % 16)
    ∷ hex_digit (id / 16 ^ 4 % 16)
    ∷ hex_digit (id / 16 ^ 3 % 16)
    ∷ hex_digit (id / 16 ^ 2 % 16)
    ∷ hex_digit (id / 16 % 16)
    ∷ hex_digit (id % 16)
    ∷ []

-- `DictionaryCache::path_for`: the file's name in the directory
unfoldable pub path_for : ℕ → List ℕ
unfolding hex8
path_for id = hex8 id ++ codes ".dict"

-- A number in decimal, before `behind`. Every round leaves less than a tenth, so that one more round
-- than the number's value is enough.
unfoldable pub decimal_digits : ℕ → ℕ → List ℕ → List ℕ
decimal_digits zero n behind = behind
decimal_digits (suc fuel) n behind =
    let more = decimal_digits fuel (n / 10) ((b'0' + n % 10) ∷ behind) in
    if ltb n 10 then (b'0' + n) ∷ behind else more

-- `{id:08x}.{pid}.{unique}.tmp`
unfoldable pub temp_name : ℕ → ℕ → ℕ → List ℕ
unfolding hex8 decimal_digits
temp_name id pid unique =
    hex8 id
    ++ (b'.'
        ∷ decimal_digits (pid + 1) pid (b'.' ∷ decimal_digits (unique + 1) unique (codes ".tmp")))

-- `name.strip_suffix(suffix)`
unfoldable pub strip_suffix : List ℕ → List ℕ → Option (List ℕ)
strip_suffix suffix name =
    if leb (length suffix) (length name)
      && same_bytes (drop (length name - length suffix) name) suffix
    then some (take (length name - length suffix) name)
    else none

-- `u32::from_str_radix(name.strip_suffix(".dict")?, 16).ok()?`. A name that is no text holds a byte
-- that is no digit.
unfoldable pub parse_digits : Option (List ℕ) → Option ℕ
parse_digits none = none
parse_digits (some digits) = from_str_radix (2 ^ 32) digits

unfoldable pub parse_name : List ℕ → Option ℕ
unfolding strip_suffix parse_digits
parse_name name = parse_digits (strip_suffix (codes ".dict") name)

-- What is known of an entry when its metadata cannot be read: `UNIX_EPOCH`
unfoldable pub used_of : Answer → File → ℕ
used_of done f = f.modified
used_of refused f = 0
used_of (broken_off n) f = 0

-- The closure of `entries`: `entry.ok()?`, then the name, then the time.
unfoldable pub entry_named : Option ℕ → ℕ → List (ℕ × ℕ)
entry_named none used = []
entry_named (some id) used = (used, id) ∷ []

unfoldable pub entry_at : Answer → Answer → File → List (ℕ × ℕ)
unfolding entry_named used_of
entry_at done metadata f = entry_named (parse_name f.name) (used_of metadata f)
entry_at refused metadata f = []
entry_at (broken_off n) metadata f = []

-- `entries`, over the files of `read_dir`; each takes two answers.
unfoldable pub entries_of : List Answer → List File → List (ℕ × ℕ)
unfolding entry_at
entries_of answers [] = []
entries_of answers (f ∷ fs) =
    entry_at (first_answer answers) (first_answer (other_answers answers)) f
    ++ entries_of (other_answers (other_answers answers)) fs

unfoldable pub entries : Directory → List (ℕ × ℕ) × Directory
unfolding entries_of
entries dir =
    let (files, dir') = read_dir dir in
    (
      entries_of dir'.answers files,
      record dir' {
        answers = drop (2 * length files) dir'.answers;
        calls = dir'.calls + 2 * length files;
      },
    )

-- `DictionaryCache::load` behind the reading of the file
unfoldable pub check_loaded : ℕ → Option (List ℕ) × Directory → Option (List ℕ) × Directory
check_loaded id (none, dir) = (none, dir)
check_loaded id (some bytes, dir) =
    if not (dictionary_id bytes == id)
    then (none, remove_file (path_for id) dir)
    else (some bytes, touch (path_for id) dir)

-- `DictionaryCache::load`
unfoldable pub load : ℕ → Directory → Option (List ℕ) × Directory
unfolding check_loaded
load id dir = check_loaded id (read_file (path_for id) dir)

-- `entries.into_iter().find_map(…)`: what one entry gave, and else the others
unfoldable pub or_else :
    ℕ
    → Option (List ℕ) × Directory
    → (Directory → Option (ℕ × List ℕ) × Directory)
    → Option (ℕ × List ℕ) × Directory
or_else id (some bytes, dir) others = (some (id, bytes), dir)
or_else id (none, dir) others = others dir

unfoldable pub load_first : List (ℕ × ℕ) → Directory → Option (ℕ × List ℕ) × Directory
unfolding or_else
load_first [] dir = (none, dir)
load_first ((used, id) ∷ rest) dir = or_else id (load id dir) (load_first rest)

-- The removals of `prune`
unfoldable pub remove_all : List (ℕ × ℕ) → Directory → Directory
remove_all [] dir = dir
remove_all ((used, id) ∷ rest) dir = remove_all rest (remove_file (path_for id) dir)

-- `sort_unstable_by_key` with the latest use first is a parameter.
module _ (sort_by_use : List (ℕ × ℕ) → List (ℕ × ℕ)) where
  -- `DictionaryCache::newest`
  unfoldable pub newest : Directory → Option (ℕ × List ℕ) × Directory
  unfolding load_first entries
  newest dir = let (held, dir') = entries dir in load_first (sort_by_use held) dir'

  -- `DictionaryCache::prune`
  unfoldable pub prune : Directory → Directory
  unfolding remove_all entries
  prune dir =
      let (held, dir') = entries dir in
      if leb (length held) keep then dir' else remove_all (drop keep (sort_by_use held)) dir'

  -- `store` behind the rename
  unfoldable pub stored : ℕ → ℕ → Bool × Directory → Bool × Directory
  unfolding prune
  stored id unique (true, dir) = (true, prune (touch (path_for id) dir))
  stored id unique (false, dir) = (false, remove_file (temp_name id dir.pid unique) dir)

  -- `store` behind the write of the temporary file
  unfoldable pub written : ℕ → ℕ → Bool × Directory → Bool × Directory
  unfolding stored
  written id unique (true, dir) =
      stored id unique (rename (temp_name id dir.pid unique) (path_for id) dir)
  written id unique (false, dir) = (false, remove_file (temp_name id dir.pid unique) dir)

  -- `store` in a directory that is there; the counter wraps at 64 bits.
  unfoldable pub store_in : ℕ → List ℕ → Bool × Directory → Bool × Directory
  unfolding written
  store_in id bytes (true, dir) = written id dir.next_unique (
      write_file (temp_name id dir.pid dir.next_unique) bytes
        (record dir { next_unique = (dir.next_unique + 1) % 2 ^ 64 }))
  store_in id bytes (false, dir) = (false, dir)

  -- `DictionaryCache::store`
  unfoldable pub store : ℕ → List ℕ → Directory → Bool × Directory
  unfolding store_in
  store id bytes dir =
      if not (dictionary_id bytes == id)
      then (false, dir)
      else store_in id bytes (create_dir_all dir)
