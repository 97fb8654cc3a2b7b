-- ===== src/DictionaryCache/Calm.antt =====
-- The calls to the file system where none fails.
use manka_shreds_sdk.Common.{
  ◌+◌, ◌*◌, ◌≡◌, inl, inr, refl, sym, ap, ◌∙◌, List, [], ◌∷◌, some, Bool, true, false, drop, length,
  if◌then◌else◌, Bool-cases, ℕ, suc, zero,
}
use manka_shreds_sdk.DictionaryCache.{entries_of, entries}
use manka_shreds_sdk.DictionaryCache.Files.{
  File, Directory, done, first_answer, other_answers, call, find, without, contents_of, read_file,
  answer_read, write_file, answer_write, put, remove_file, answer_remove, rename, answer_rename,
  move_file, create_dir_all, answer_create, read_dir, answer_list, touch, answer_touch, stamp,
}

drop_none {ℓ} : {A : Type ℓ} → (n : ℕ) → drop {A = A} n [] ≡ []
drop_none zero = refl
drop_none (suc n) = refl

if_true {ℓ} : {A : Type ℓ} → {b : Bool} → (x y : A) → b ≡ true → (if b then x else y) ≡ x
if_true x y e = rw e refl

-- No call to come fails.
abbrev pub IsCalm : Directory → Type 0
IsCalm dir = dir.answers ≡ []

module _ (dir : Directory) (calm : IsCalm dir) where
  call_calm : call dir ≡ (done, record dir { answers = []; calls = dir.calls + 1 })
  unfolding call first_answer other_answers
  call_calm = rw calm refl

  pub read_file_calm :
      (name : List ℕ)
      → read_file name dir
        ≡ (contents_of (find name dir.files), record dir { answers = []; calls = dir.calls + 1 })
  unfolding read_file answer_read
  read_file_calm name = rw call_calm refl

  pub remove_file_calm :
      (name : List ℕ)
      → remove_file name dir
        ≡ record dir { files = without name dir.files; answers = []; calls = dir.calls + 1 }
  unfolding remove_file answer_remove
  remove_file_calm name = rw call_calm refl

  pub touch_calm :
      (name : List ℕ)
      → touch name dir ≡ record dir {
        files = stamp name (dir.clock dir.calls) dir.files;
        answers = [];
        calls = dir.calls + 1;
      }
  unfolding touch answer_touch
  touch_calm name = rw call_calm refl

  pub write_file_calm :
      (name bytes : List ℕ)
      → dir.is_there ≡ true
      → write_file name bytes dir ≡ (
        true,
        put name bytes
            (dir.write_stamp (dir.calls + 1))
            (record dir { answers = []; calls = dir.calls + 1 }),
      )
  unfolding write_file answer_write
  write_file_calm name bytes there =
      if_true (answer_write (call dir) name bytes) (false, dir) there ∙ rw call_calm refl

  pub rename_calm :
      (from to : List ℕ) (f : File)
      → find from dir.files ≡ some f
      → rename from to dir ≡ (
        true,
        record dir {
          files = record f { name = to } ∷ without to (without from dir.files);
          answers = [];
          calls = dir.calls + 1;
        },
      )
  unfolding rename answer_rename move_file
  rename_calm from to f found = rw call_calm (rw found refl)

  pub create_dir_all_calm : create_dir_all dir ≡ (
    true,
    record dir {
      is_there = true;
      answers = [];
      calls = if dir.is_there then dir.calls else dir.calls + 1;
    },
  )
  unfolding create_dir_all answer_create
  create_dir_all_calm = elim (Bool-cases dir.is_there) [
    | inl e ↦
        if_true (true, dir) (answer_create (call dir)) e
        ∙ ap (λ b. (true, record dir { is_there = b })) e
        ∙ ap (λ l. (true, record dir { is_there = true; answers = l })) calm
        ∙ ap (λ n. (true, record dir { is_there = true; answers = []; calls = n }))
            (sym (if_true dir.calls (dir.calls + 1) e))
    | inr e ↦ simp (e, call_calm)
  ]

  pub entries_calm :
      dir.is_there ≡ true
      → entries dir ≡ (
        entries_of [] dir.files,
        record dir { answers = []; calls = dir.calls + 1 + 2 * length dir.files },
      )
  unfolding entries read_dir answer_list
  entries_calm there = rw call_calm (rw there (rw (drop_none (2 * length dir.files)) refl))
