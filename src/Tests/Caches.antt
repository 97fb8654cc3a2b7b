-- ===== src/Tests/Caches.antt =====
-- A cache of dictionaries with an insertion sort.
use manka_shreds_sdk.Common.{
  take, Bool, ◌≤◌, ℕ, ◌+◌, ◌^◌, ◌≤◌, ◌<◌, ◌≡◌, refl, arith, List, [], ◌∷◌, some, Bool, true, ltb,
  if◌then◌else◌, take, Bool-cases, inl, inr,
}
use manka_shreds_sdk.Protocol.Dictionary.{dictionary_id, hash_bytes, hash_byte, fold_hash}
use manka_shreds_sdk.Protocol.Dictionary.Hash.{dictionary_id_range}
use manka_shreds_sdk.Handshake.{hex_digit, same_bytes}
use manka_shreds_sdk.Radix.{from_str_radix, from_digits, skip_plus, push_digit, to_digit}
use manka_shreds_sdk.DictionaryCache.{
  store, newest, entries, entries_of, entry_at, entry_named, used_of, parse_name, parse_digits,
  strip_suffix, path_for, temp_name, hex8, load_first, or_else, load, check_loaded,
}
use manka_shreds_sdk.DictionaryCache.Recent.{IsOwn}
use manka_shreds_sdk.DictionaryCache.Files.{
  File, Directory, broken_off, find, contents_of, read_dir, answer_list, call, first_answer,
  other_answers, read_file, answer_read, put,
}
use manka_shreds_sdk.DictionaryCache.Order.{count, IsDescending, IsSort}
use manka_shreds_sdk.DictionaryCache.Kept.{IsIntact, Changes, store-Changes}
use manka_shreds_sdk.DictionaryCache.Loaded.{IsHeld, newest-eq-some}
use manka_shreds_sdk.DictionaryCache.RoundTrip.{newest-store}
use manka_shreds_sdk.DictionaryCache.Threads.{
  idle, writing, Shared, begins, writes, crashes, here, next, set_phase,
}
use manka_shreds_sdk.DictionaryCache.Threads.Runs.{Runs}
use manka_shreds_sdk.DictionaryCache.Threads.Stores.{store-Runs}
use manka_shreds_sdk.DictionaryCache.Threads.Reachable.{Reach-IsIntact}

unfoldable insert : ℕ × ℕ → List (ℕ × ℕ) → List (ℕ × ℕ)
insert e [] = e ∷ []
insert e (x ∷ xs) = let rest = insert e xs in if ltb e.0 x.0 then x ∷ rest else e ∷ x ∷ xs

unfoldable pub insertion_sort : List (ℕ × ℕ) → List (ℕ × ℕ)
unfolding insert
insertion_sort [] = []
insertion_sort (e ∷ es) = insert e (insertion_sort es)

count-insert :
    (p : ℕ × ℕ → Bool) (e : ℕ × ℕ) (xs : List (ℕ × ℕ))
    → count p (insert e xs) ≡ (if p e then 1 else 0) + count p xs
unfolding insert count
count-insert p e [] = refl
count-insert p e (x ∷ xs) = let rest = count-insert p e xs in ground arith

count-insertion_sort :
    (p : ℕ × ℕ → Bool) (es : List (ℕ × ℕ)) → count p (insertion_sort es) ≡ count p es
unfolding insertion_sort count
count-insertion_sort p [] = refl
count-insertion_sort p (e ∷ es) =
    let rest = count-insertion_sort p es in
    let put = count-insert p e (insertion_sort es) in omega arith

-- Where none is above a bound, none is above a higher one.
count_above :
    (a b : ℕ) (xs : List (ℕ × ℕ))
    → a ≤ b
    → count (λ x. ltb a x.0) xs ≡ 0
    → count (λ x. ltb b x.0) xs ≡ 0
unfolding count
count_above a b [] h k = refl
count_above a b (x ∷ xs) h k = let rest = count_above a b xs h (ground arith) in ground arith

insert-IsDescending : (e : ℕ × ℕ) (xs : List (ℕ × ℕ)) → IsDescending xs → IsDescending (insert e xs)
unfolding insert count
insert-IsDescending e [] h = (refl, tt)
insert-IsDescending e (x ∷ xs) (below, h) = elim (Bool-cases (ltb e.0 x.0)) [
  | inl l ↦
      let put = count-insert (λ y. ltb x.0 y.0) e xs in
      rw l (ground arith, insert-IsDescending e xs h)
  | inr l ↦
      let rest = count_above x.0 e.0 xs (ground arith) below in rw l (ground arith, (below, h))
]

insertion_sort-IsDescending : (es : List (ℕ × ℕ)) → IsDescending (insertion_sort es)
unfolding insertion_sort
insertion_sort-IsDescending [] = tt
insertion_sort-IsDescending (e ∷ es) =
    insert-IsDescending e (insertion_sort es) (insertion_sort-IsDescending es)

pub sorts : IsSort insertion_sort
sorts = record {
  count-sort = count-insertion_sort;
  sort-IsDescending = insertion_sort-IsDescending;
}

-- One dictionary that the cache holds, and one to store
abbrev old_bytes : List ℕ
old_bytes = 1 ∷ 2 ∷ []

abbrev pub new_bytes : List ℕ
new_bytes = 3 ∷ 4 ∷ 5 ∷ []

abbrev old_id : ℕ
old_id = dictionary_id old_bytes

abbrev pub new_id : ℕ
new_id = dictionary_id new_bytes

abbrev old_file : File
old_file = record { name = path_for old_id; contents = old_bytes; modified = 40 }

abbrev pub dir : Directory
dir = record {
  is_there = true;
  files = old_file ∷ [];
  answers = [];
  calls = 0;
  clock = λ n. 100 + n;
  write_stamp = λ n. 90;
  pid = 7;
  next_unique = 0;
}

-- The same, where the disk is full after two bytes
abbrev full_dir : Directory
full_dir = record dir { answers = broken_off 2 ∷ [] }

small_old : old_id < 2 ^ 32
small_old = (dictionary_id_range old_bytes).0

small_new : new_id < 2 ^ 32
small_new = (dictionary_id_range new_bytes).0

IsOwn-old : IsOwn (path_for old_id)
IsOwn-old = inr (old_id, small_old, refl)

found_old : (newest insertion_sort dir).0 ≡ some (old_id, old_bytes)
unfolding newest entries entries_of entry_at entry_named used_of parse_name parse_digits
    strip_suffix from_str_radix from_digits skip_plus push_digit to_digit path_for hex8 hex_digit
    read_dir answer_list call first_answer other_answers insertion_sort insert load_first or_else
    load check_loaded read_file answer_read find contents_of same_bytes dictionary_id hash_bytes
    hash_byte fold_hash
found_old = refl

newest-store_example :
    ((store insertion_sort new_id new_bytes dir).0 ≡ true)
    × ((newest insertion_sort (store insertion_sort new_id new_bytes dir).1).0
        ≡ some (new_id, new_bytes))
newest-store_example =
    newest-store insertion_sort new_id new_bytes dir sorts small_new refl refl
      ((IsOwn-old, λ n h. omega arith), tt)

store-Changes_example :
    Changes old_id new_id new_bytes full_dir (store insertion_sort new_id new_bytes full_dir).1
store-Changes_example =
    store-Changes insertion_sort old_id new_id new_bytes full_dir small_old small_new

newest-eq-some_example : IsHeld old_id old_bytes dir
newest-eq-some_example = newest-eq-some insertion_sort dir old_id old_bytes found_old

-- A call that has begun in an empty directory, has written a byte, and is cut off
abbrev pub empty_dir : Directory
empty_dir = record dir { files = [] }

abbrev start : Shared
start = record { dir = empty_dir; phase = λ unique. idle }

abbrev begun : Shared
begun = record start {
  dir = record empty_dir { next_unique = 1 };
  phase = set_phase 0 (writing new_id new_bytes) start.phase;
}

abbrev half_written : Shared
half_written = record begun { dir = put (temp_name new_id 7 0) (take 1 new_bytes) 95 begun.dir }

abbrev cut_off : Shared
cut_off = record half_written {
  dir = record half_written.dir { pid = 8; next_unique = 0 };
  phase = λ unique. idle;
}

is_writing : begun.phase 0 ≡ writing new_id new_bytes
unfolding set_phase
is_writing = refl

pid_kept : half_written.dir.pid ≡ 7
unfolding put
pid_kept = refl

pub IsIntact-start : IsIntact empty_dir
unfolding find contents_of
IsIntact-start i bytes h e = absurd (cc e)

Reach-IsIntact_example : IsIntact cut_off.dir
Reach-IsIntact_example =
    Reach-IsIntact start cut_off (λ unique. refl) IsIntact-start
      (next
        (next (next here (begins start new_id new_bytes refl (omega arith)))
          (writes begun 0 new_id new_bytes 1 95 is_writing))
        (crashes half_written 8))

store-Runs_example :
    Runs start (store insertion_sort new_id new_bytes empty_dir).1
    × Runs start (newest insertion_sort empty_dir).1
store-Runs_example = store-Runs insertion_sort start new_id new_bytes (omega arith)
