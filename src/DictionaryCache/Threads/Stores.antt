-- ===== src/DictionaryCache/Threads/Stores.antt =====
-- `store`, as sequential code, takes the steps.
use manka_shreds_sdk.Common.{
  ℕ, ◌+◌, ◌%◌, ◌^◌, ◌<◌, ◌≡◌, refl, sym, ap, arith, List, Bool, true, false, ◌==◌, ==_iff,
  if◌then◌else◌, subst,
}
use native.Mathlib.Decide.{ℕ_discrete as dec_eq}
use manka_shreds_sdk.Protocol.Dictionary.{dictionary_id}
use manka_shreds_sdk.DictionaryCache.{path_for, temp_name, written, store_in, store, newest}
use manka_shreds_sdk.DictionaryCache.Files.{
  Directory, Answer, done, refused, broken_off, call, write_file, answer_write, rename,
  create_dir_all, answer_create,
}
use manka_shreds_sdk.DictionaryCache.Threads.{
  Phase, idle, writing, whole, Shared, set_phase, begins, writes, finishes, publishes, looks, Reach,
  here, next,
}
use manka_shreds_sdk.DictionaryCache.Threads.Runs.{
  Runs, newest-Runs, looks-Runs, remove_temp-Runs, stored-Runs,
}

-- The directory is reached with a call in a phase.
abbrev RunsIn : Shared → ℕ → Phase → Directory → Type 0
RunsIn start unique p dir =
    (phase : ℕ → Phase) × (phase unique ≡ p) × Reach start (record { dir = dir; phase = phase })

forget :
    (start : Shared) (unique : ℕ) (p : Phase) (dir : Directory)
    → RunsIn start unique p dir
    → Runs start dir
forget start unique p dir (phase, e, r) = (phase, r)

set_phase_here : (unique : ℕ) (p : Phase) (phase : ℕ → Phase) → set_phase unique p phase unique ≡ p
unfolding set_phase
set_phase_here unique p phase = simp ((==_iff unique unique).1 refl)

-- What a write may come to: the whole file, or a failure with a part of it
abbrev Wrote : Shared → ℕ → ℕ → List ℕ → Bool → Directory → Type 0
Wrote start unique id bytes true dir = RunsIn start unique (whole id bytes) dir
Wrote start unique id bytes false dir = RunsIn start unique (writing id bytes) dir

module _ (start : Shared) (unique id : ℕ) (bytes : List ℕ) where
  answer_write-Wrote :
      (a : Answer) (dir : Directory)
      → RunsIn start unique (writing id bytes) dir
      → let wrote = answer_write (a, dir) (temp_name id dir.pid unique) bytes in
        Wrote start unique id bytes wrote.0 wrote.1
  unfolding answer_write
  answer_write-Wrote done dir (phase, e, r) = (
    set_phase unique (whole id bytes) phase,
    set_phase_here unique (whole id bytes) phase,
    next r (
        finishes (record { dir = dir; phase = phase }) unique id bytes (dir.write_stamp dir.calls)
          e),
  )
  answer_write-Wrote refused dir h = h
  answer_write-Wrote (broken_off n) dir (phase, e, r) = (
    phase,
    e,
    next r (
        writes (record { dir = dir; phase = phase }) unique id bytes n (dir.write_stamp dir.calls)
          e),
  )

  if-Wrote :
      (b : Bool) (x y : Bool × Directory)
      → Wrote start unique id bytes x.0 x.1
      → Wrote start unique id bytes y.0 y.1
      → let r = if b then x else y in Wrote start unique id bytes r.0 r.1
  if-Wrote true x y h k = h
  if-Wrote false x y h k = k

  write_file-Wrote :
      (dir : Directory)
      → RunsIn start unique (writing id bytes) dir
      → let wrote = write_file (temp_name id dir.pid unique) bytes dir in
        Wrote start unique id bytes wrote.0 wrote.1
  unfolding write_file call
  write_file-Wrote dir (phase, e, r) =
      let called = (call dir).1 in
      let seen : RunsIn start unique (writing id bytes) called =
        (phase, e, next r (looks (record { dir = dir; phase = phase }) called refl refl refl)) in
      if-Wrote dir.is_there (answer_write (call dir) (temp_name id dir.pid unique) bytes)
        (false, dir) (answer_write-Wrote (call dir).0 called seen) (phase, e, r)

module _ (start : Shared) (sort_by_use : List (ℕ × ℕ) → List (ℕ × ℕ)) where
  written-Runs :
      (unique id : ℕ) (bytes : List ℕ) (through : Bool) (dir : Directory)
      → Wrote start unique id bytes through dir
      → Runs start (written sort_by_use id unique (through, dir)).1
  unfolding written
  written-Runs unique id bytes true dir (phase, e, r) =
      let moved = rename (temp_name id dir.pid unique) (path_for id) dir in
      stored-Runs start sort_by_use id unique moved.0 moved.1 (
        set_phase unique idle phase,
        next r (publishes (record { dir = dir; phase = phase }) unique id bytes e),
      )
  written-Runs unique id bytes false dir h =
      remove_temp-Runs start id unique dir (forget start unique (writing id bytes) dir h)

  store_in-Runs :
      (id : ℕ) (bytes : List ℕ) (there : Bool) (dir : Directory)
      → dictionary_id bytes ≡ id
      → dir.next_unique + 1 < 2 ^ 64
      → Runs start dir
      → Runs start (store_in sort_by_use id bytes (there, dir)).1
  unfolding store_in
  store_in-Runs id bytes false dir own small h = h
  store_in-Runs id bytes true dir own small (phase, r) =
      let unique = dir.next_unique in
      let counted = record dir { next_unique = unique + 1 } in
      let same : record dir { next_unique = (unique + 1) % 2 ^ 64 } ≡ counted =
        ap (λ n. record dir { next_unique = n }) (omega arith) in
      let begun : RunsIn start unique (writing id bytes) counted = (
        set_phase unique (writing id bytes) phase,
        set_phase_here unique (writing id bytes) phase,
        next r (begins (record { dir = dir; phase = phase }) id bytes own small),
      ) in
      let wrote = write_file (temp_name id dir.pid unique) bytes counted in
      let done =
        written-Runs unique id bytes wrote.0 wrote.1
          (write_file-Wrote start unique id bytes counted begun) in
      subst
        (λ d.
          Runs start
            (written sort_by_use id unique (write_file (temp_name id dir.pid unique) bytes d)).1)
        (sym same) done

  answer_create-kept :
      (a : Answer) (dir : Directory)
      → ((answer_create (a, dir)).1.files ≡ dir.files)
        × ((answer_create (a, dir)).1.pid ≡ dir.pid)
        × ((answer_create (a, dir)).1.next_unique ≡ dir.next_unique)
  unfolding answer_create
  answer_create-kept done dir = (refl, refl, refl)
  answer_create-kept refused dir = (refl, refl, refl)
  answer_create-kept (broken_off n) dir = (refl, refl, refl)

  if-kept :
      (b : Bool) (dir : Directory) (made : Bool × Directory)
      → (made.1.files ≡ dir.files) × (made.1.pid ≡ dir.pid) × (made.1.next_unique ≡ dir.next_unique)
      → let after = (if b then (true, dir) else made).1 in
        (after.files ≡ dir.files) × (after.pid ≡ dir.pid) × (after.next_unique ≡ dir.next_unique)
  if-kept true dir made h = (refl, refl, refl)
  if-kept false dir made h = h

  create_dir_all-Runs :
      (dir : Directory)
      → Runs start dir
      → Runs start (create_dir_all dir).1 × ((create_dir_all dir).1.next_unique ≡ dir.next_unique)
  unfolding create_dir_all call
  create_dir_all-Runs dir h =
      let (files, pid, unique) =
        if-kept dir.is_there dir (answer_create (call dir))
          (answer_create-kept (call dir).0 (call dir).1) in
      (looks-Runs start dir (create_dir_all dir).1 files pid unique h, unique)

-- Whatever the file system answers, what `store` and `newest` make of the directory is reached
-- by the steps of a call, from any state of the other calls, as long as the counter of the
-- temporary names is not about to wrap.
pub store-Runs :
    (sort_by_use : List (ℕ × ℕ) → List (ℕ × ℕ)) (s : Shared) (id : ℕ) (bytes : List ℕ)
    → s.dir.next_unique + 1 < 2 ^ 64
    → Runs s (store sort_by_use id bytes s.dir).1 × Runs s (newest sort_by_use s.dir).1
unfolding store
store-Runs sort_by_use s id bytes small =
    let start : Runs s s.dir = (s.phase, here) in
    let made = create_dir_all s.dir in
    let (ran, same) = create_dir_all-Runs s sort_by_use s.dir start in
    (
      elim (dec_eq (dictionary_id bytes) id) [
        | yes own ↦
            rw ((==_iff (dictionary_id bytes) id).1 own)
              (store_in-Runs s sort_by_use id bytes made.0 made.1 own (rw same small) ran)
        | no other ↦
            let wrong : (dictionary_id bytes == id) ≡ false = ground arith in rw wrong start
      ],
      newest-Runs s sort_by_use s.dir start,
    )
