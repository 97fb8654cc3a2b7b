-- ===== src/DictionaryCache/Held.antt =====
-- What a directory holds for an id, and how each call of the file system changes it.
use manka_shreds_sdk.Common.{
  ℕ, ◌≡◌, ◌≢◌, ◌⊎◌, inl, inr, refl, sym, ap, ◌∙◌, List, [], ◌∷◌, Option, none, some, true, false,
  take, Bool-cases,
}
use manka_shreds_sdk.Handshake.{same_bytes}
use manka_shreds_sdk.Handshake.Proofs.{same_bytes-eq, same_bytes_refl}
use manka_shreds_sdk.DictionaryCache.{path_for, entries}
use manka_shreds_sdk.DictionaryCache.Files.{
  File, Directory, Answer, done, refused, broken_off, find, without, contents_of, call, put,
  write_file, answer_write, remove_file, answer_remove, move_file, rename, answer_rename,
  create_dir_all, answer_create, read_dir, answer_list, stamp, touch, answer_touch,
}

pub same_bytes-ne : (xs ys : List ℕ) → xs ≢ ys → same_bytes xs ys ≡ false
same_bytes-ne xs ys h = elim (Bool-cases (same_bytes xs ys)) [
  | inl e ↦ absurd (h (same_bytes-eq xs ys e))
  | inr e ↦ e
]

pub apart : (n m : List ℕ) → same_bytes n m ≡ false → n ≢ m
apart n m e h = cc (sym e ∙ ap (same_bytes n) (sym h) ∙ same_bytes_refl n)

find-without_self : (n : List ℕ) (fs : List File) → find n (without n fs) ≡ none
unfolding find without
find-without_self n [] = refl
find-without_self n (f ∷ fs) = elim (Bool-cases (same_bytes n f.name)) [
  | inl e ↦ simp (e, find-without_self n fs)
  | inr e ↦ simp (e, find-without_self n fs)
]

find-without_other : (n m : List ℕ) (fs : List File) → n ≢ m → find n (without m fs) ≡ find n fs
unfolding find without
find-without_other n m [] h = refl
find-without_other n m (f ∷ fs) h = elim (Bool-cases (same_bytes m f.name)) [
  | inl e ↦
      let apart : same_bytes n f.name ≡ false =
        same_bytes-ne n f.name (λ q. h (q ∙ sym (same_bytes-eq m f.name e))) in
      simp (e, apart, find-without_other n m fs h)
  | inr e ↦ simp (e, find-without_other n m fs h)
]

pub find-here : (f : File) (fs : List File) → find f.name (f ∷ fs) ≡ some f
unfolding find
find-here f fs = simp (same_bytes_refl f.name)

find-elsewhere : (n : List ℕ) (f : File) (fs : List File) → n ≢ f.name → find n (f ∷ fs) ≡ find n fs
unfolding find
find-elsewhere n f fs h = simp (same_bytes-ne n f.name h)

-- A stamp leaves every file's bytes alone.
contents_of-stamp :
    (n m : List ℕ) (now : ℕ) (fs : List File)
    → contents_of (find n (stamp m now fs)) ≡ contents_of (find n fs)
unfolding find stamp contents_of
contents_of-stamp n m now [] = refl
contents_of-stamp n m now (f ∷ fs) = elim (Bool-cases (same_bytes m f.name)) [
  | inl e ↦ elim (Bool-cases (same_bytes n f.name)) [
    | inl k ↦ simp (e, k)
    | inr k ↦ simp (e, k, contents_of-stamp n m now fs)
  ]
  | inr e ↦ elim (Bool-cases (same_bytes n f.name)) [
    | inl k ↦ simp (e, k)
    | inr k ↦ simp (e, k, contents_of-stamp n m now fs)
  ]
]

-- The bytes of the file of a name, and those held for an id
abbrev pub bytes_at : List ℕ → Directory → Option (List ℕ)
bytes_at name dir = contents_of (find name dir.files)

abbrev pub held : ℕ → Directory → Option (List ℕ)
held id dir = bytes_at (path_for id) dir

answer_remove_lem :
    (n m : List ℕ) (a : Answer) (dir : Directory)
    → (bytes_at n (answer_remove (a, dir) m) ≡ bytes_at n dir)
      ⊎ ((n ≡ m) × (bytes_at n (answer_remove (a, dir) m) ≡ none))
unfolding answer_remove contents_of
answer_remove_lem n m refused dir = inl refl
answer_remove_lem n m (broken_off k) dir = inl refl
answer_remove_lem n m done dir = elim (Bool-cases (same_bytes n m)) [
  | inl e ↦
      let same : n ≡ m = same_bytes-eq n m e in
      inr (same, rw same (rw (find-without_self m dir.files) refl))
  | inr e ↦ inl (ap contents_of (find-without_other n m dir.files (apart n m e)))
]

answer_touch_lem :
    (n m : List ℕ) (now : ℕ) (a : Answer) (dir : Directory)
    → bytes_at n (answer_touch (a, dir) m now) ≡ bytes_at n dir
unfolding answer_touch
answer_touch_lem n m now done dir = contents_of-stamp n m now dir.files
answer_touch_lem n m now refused dir = refl
answer_touch_lem n m now (broken_off k) dir = refl

pub put_lem :
    (n m bytes : List ℕ) (now : ℕ) (dir : Directory)
    → n ≢ m
    → bytes_at n (put m bytes now dir) ≡ bytes_at n dir
unfolding put
put_lem n m bytes now dir h = ap contents_of (
    find-elsewhere n (record { name = m; contents = bytes; modified = now }) (without m dir.files) h
    ∙ find-without_other n m dir.files h)

answer_write_lem :
    (n m bytes : List ℕ) (a : Answer) (dir : Directory)
    → n ≢ m
    → bytes_at n (answer_write (a, dir) m bytes).1 ≡ bytes_at n dir
unfolding answer_write
answer_write_lem n m bytes done dir h = put_lem n m bytes _ dir h
answer_write_lem n m bytes refused dir h = refl
answer_write_lem n m bytes (broken_off k) dir h = put_lem n m (take k bytes) _ dir h

-- A write that is reported to have gone through has left all its bytes.
answer_write-eq-true :
    (m bytes : List ℕ) (a : Answer) (dir : Directory)
    → (answer_write (a, dir) m bytes).0 ≡ true
    → bytes_at m (answer_write (a, dir) m bytes).1 ≡ some bytes
unfolding answer_write put contents_of
answer_write-eq-true m bytes done dir e = ap contents_of (
    find-here (record { name = m; contents = bytes; modified = dir.write_stamp dir.calls })
      (without m dir.files))
answer_write-eq-true m bytes refused dir e = cc
answer_write-eq-true m bytes (broken_off k) dir e = cc

answer_create_lem :
    (n : List ℕ) (a : Answer) (dir : Directory)
    → bytes_at n (answer_create (a, dir)).1 ≡ bytes_at n dir
unfolding answer_create
answer_create_lem n done dir = refl
answer_create_lem n refused dir = refl
answer_create_lem n (broken_off k) dir = refl

answer_list_lem :
    (n : List ℕ) (a : Answer) (dir : Directory)
    → bytes_at n (answer_list (a, dir)).1 ≡ bytes_at n dir
unfolding answer_list
answer_list_lem n done dir = refl
answer_list_lem n refused dir = refl
answer_list_lem n (broken_off k) dir = refl

-- A rename puts the bytes of the one name under the other, whole, or changes nothing.
move_file_lem :
    (n from to : List ℕ) (f : Option File) (dir : Directory)
    → n ≢ from
    → f ≡ find from dir.files
    → (bytes_at n (move_file f from to dir).1 ≡ bytes_at n dir)
      ⊎ ((n ≡ to) × (bytes_at n (move_file f from to dir).1 ≡ bytes_at from dir))
unfolding move_file contents_of
move_file_lem n from to none dir h e = inl refl
move_file_lem n from to (some f) dir h e = elim (Bool-cases (same_bytes n to)) [
  | inl k ↦
      let same : n ≡ to = same_bytes-eq n to k in
      inr (
        same,
        rw same (
            ap contents_of
              (find-here (record f { name = to }) (without to (without from dir.files)))
            ∙ ap contents_of e),
      )
  | inr k ↦ inl (
      ap contents_of (
        find-elsewhere n (record f { name = to }) (without to (without from dir.files))
          (apart n to k)
        ∙ find-without_other n to (without from dir.files) (apart n to k)
        ∙ find-without_other n from dir.files h))
]

answer_rename_lem :
    (n from to : List ℕ) (a : Answer) (dir : Directory)
    → n ≢ from
    → (bytes_at n (answer_rename (a, dir) from to).1 ≡ bytes_at n dir)
      ⊎ ((n ≡ to) × (bytes_at n (answer_rename (a, dir) from to).1 ≡ bytes_at from dir))
unfolding answer_rename
answer_rename_lem n from to done dir h = move_file_lem n from to (find from dir.files) dir h refl
answer_rename_lem n from to refused dir h = inl refl
answer_rename_lem n from to (broken_off k) dir h = inl refl

module _ (n : List ℕ) (dir : Directory) where
  pub bytes_at-remove_file :
      (m : List ℕ)
      → (bytes_at n (remove_file m dir) ≡ bytes_at n dir)
        ⊎ ((n ≡ m) × (bytes_at n (remove_file m dir) ≡ none))
  unfolding remove_file call
  bytes_at-remove_file m = answer_remove_lem n m _ _

  pub bytes_at-touch : (m : List ℕ) → bytes_at n (touch m dir) ≡ bytes_at n dir
  unfolding touch call
  bytes_at-touch m = answer_touch_lem n m _ _ _

  pub bytes_at-write_file :
      (m bytes : List ℕ) → n ≢ m → bytes_at n (write_file m bytes dir).1 ≡ bytes_at n dir
  unfolding write_file call
  bytes_at-write_file m bytes h = elim (Bool-cases dir.is_there) [
    | inl e ↦ simp e (answer_write_lem n m bytes _ _ h)
    | inr e ↦ simp e
  ]

  pub bytes_at-create_dir_all : bytes_at n (create_dir_all dir).1 ≡ bytes_at n dir
  unfolding create_dir_all call
  bytes_at-create_dir_all = elim (Bool-cases dir.is_there) [
    | inl e ↦ simp e
    | inr e ↦ simp e (answer_create_lem n _ _)
  ]

  pub bytes_at-entries : bytes_at n (entries dir).1 ≡ bytes_at n dir
  unfolding entries read_dir call
  bytes_at-entries = answer_list_lem n _ _

  pub bytes_at-rename :
      (from to : List ℕ)
      → n ≢ from
      → (bytes_at n (rename from to dir).1 ≡ bytes_at n dir)
        ⊎ ((n ≡ to) × (bytes_at n (rename from to dir).1 ≡ bytes_at from dir))
  unfolding rename call
  bytes_at-rename from to h = answer_rename_lem n from to _ _ h

pub write_file-eq-true :
    (m bytes : List ℕ) (dir : Directory)
    → (write_file m bytes dir).0 ≡ true
    → bytes_at m (write_file m bytes dir).1 ≡ some bytes
unfolding write_file call
write_file-eq-true m bytes dir e = elim (Bool-cases dir.is_there) [
  | inl k ↦ simp k (answer_write-eq-true m bytes _ _ (simp k at e))
  | inr k ↦ absurd (cc (simp k at e))
]
