-- ===== src/DictionaryCache/Threads/Consistent.antt =====
-- What holds of the directory and of the calls at work in it, between any two steps.
use manka_shreds_sdk.Common.{
  ℕ, ◌^◌, ◌<◌, ◌≡◌, ◌≢◌, ◌⊎◌, inl, inr, refl, sym, ◌∙◌, arith, List, none, some, false, ◌==◌,
  ==_iff,
}
use native.Mathlib.Decide.{ℕ_discrete as dec_eq}
use manka_shreds_sdk.Protocol.Dictionary.{dictionary_id}
use manka_shreds_sdk.DictionaryCache.{temp_name}
use manka_shreds_sdk.DictionaryCache.Files.{
  Directory, rename, answer_rename, move_file, remove_file, answer_remove, touch, answer_touch,
  call,
}
use manka_shreds_sdk.DictionaryCache.Held.{held, bytes_at}
use manka_shreds_sdk.DictionaryCache.Kept.{IsIntact}
use manka_shreds_sdk.DictionaryCache.Threads.{Phase, idle, writing, whole, Shared, set_phase}

-- A call's dictionary has its id, and where its file is said to be whole, it is.
abbrev pub IsSound : ℕ → Directory → Phase → Type 0
IsSound unique dir idle = Unit
IsSound unique dir (writing id bytes) = dictionary_id bytes ≡ id
IsSound unique dir (whole id bytes) =
    (dictionary_id bytes ≡ id) × (bytes_at (temp_name id dir.pid unique) dir ≡ some bytes)

pub record IsConsistent (s : Shared) : Type 0 where
  pub intact : IsIntact s.dir
  pub sound : (unique : ℕ) → IsSound unique s.dir (s.phase unique)

pub IsSound-still :
    (unique : ℕ) (p : Phase) (before after : Directory)
    → after.pid ≡ before.pid
    → ((id : ℕ)
        → bytes_at (temp_name id before.pid unique) after
          ≡ bytes_at (temp_name id before.pid unique) before)
    → IsSound unique before p
    → IsSound unique after p
IsSound-still unique idle before after pid same h = tt
IsSound-still unique (writing id bytes) before after pid same h = h
IsSound-still unique (whole id bytes) before after pid same (own, there) =
    (own, rw pid (same id ∙ there))

-- One call goes on, and leaves the temporary files of the others alone.
pub goes_on :
    (s : Shared) (v : ℕ) (p : Phase) (after : Directory)
    → after.pid ≡ s.dir.pid
    → ((u id : ℕ)
        → u ≢ v
        → bytes_at (temp_name id s.dir.pid u) after ≡ bytes_at (temp_name id s.dir.pid u) s.dir)
    → IsSound v after p
    → IsIntact after
    → IsConsistent s
    → IsConsistent (record s { dir = after; phase = set_phase v p s.phase })
unfolding set_phase
goes_on s v p after pid same own intact before = record {
  intact = intact;
  sound = λ u. elim (dec_eq u v) [
    | yes this ↦ rw this (rw ((==_iff v v).1 refl) own)
    | no other ↦
        let apart : (u == v) ≡ false = ground arith in
        rw apart
          (IsSound-still u (s.phase u) s.dir after pid (λ id. same u id other) (before.sound u))
  ];
}

pub if-IsIntact :
    (before after : Directory)
    → ((i : ℕ) → i < 2 ^ 32 → (held i after ≡ held i before) ⊎ (held i after ≡ none))
    → IsIntact before
    → IsIntact after
if-IsIntact before after keeps v i bytes h e = elim (keeps i h) [
  | inl k ↦ v i bytes h (sym k ∙ e)
  | inr k ↦ absurd (cc (sym k ∙ e))
]

pub pid-remove_file : (name : List ℕ) (dir : Directory) → (remove_file name dir).pid ≡ dir.pid
unfolding remove_file answer_remove call
pid-remove_file name dir = ground arith

pub pid-touch : (name : List ℕ) (dir : Directory) → (touch name dir).pid ≡ dir.pid
unfolding touch answer_touch call
pid-touch name dir = ground arith

pub pid-rename : (from to : List ℕ) (dir : Directory) → (rename from to dir).1.pid ≡ dir.pid
unfolding rename answer_rename move_file call
pid-rename from to dir = ground arith
