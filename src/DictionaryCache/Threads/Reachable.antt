-- ===== src/DictionaryCache/Threads/Reachable.antt =====
-- No interleaving, and no crash, leaves a dictionary under another's id.
use manka_shreds_sdk.Common.{
  ℕ, ◌+◌, ◌^◌, ◌<◌, ◌≡◌, ◌≢◌, inl, inr, refl, sym, ap, ◌∙◌, List, some, take, subst,
}
use native.Mathlib.Decide.{ℕ_discrete as dec_eq}
use manka_shreds_sdk.Protocol.Dictionary.{dictionary_id}
use manka_shreds_sdk.Protocol.Dictionary.Hash.{dictionary_id_range}
use manka_shreds_sdk.DictionaryCache.{path_for, temp_name}
use manka_shreds_sdk.DictionaryCache.Names.{
  path_for-injective, temp_name-ne-path_for, temp_name-ne-any_path, temp_name-injective,
}
use manka_shreds_sdk.DictionaryCache.Files.{
  Directory, contents_of, find, without, put, rename, remove_file, touch,
}
use manka_shreds_sdk.DictionaryCache.Held.{
  bytes_at, put_lem, find-here, bytes_at-remove_file, bytes_at-touch, bytes_at-rename,
}
use manka_shreds_sdk.DictionaryCache.Kept.{IsIntact}
use manka_shreds_sdk.DictionaryCache.Threads.{
  idle, writing, whole, Shared, set_phase, Step, begins, writes, finishes, publishes, gives_up,
  touches, removes, looks, crashes, Reach, here, next,
}
use manka_shreds_sdk.DictionaryCache.Threads.Consistent.{
  IsSound, IsConsistent, IsSound-still, goes_on, if-IsIntact, pid-remove_file, pid-touch,
  pid-rename,
}

module _ (s : Shared) (before : IsConsistent s) where
  own_id : (v id : ℕ) (bytes : List ℕ) → s.phase v ≡ writing id bytes → dictionary_id bytes ≡ id
  own_id v id bytes e = subst (IsSound v s.dir) e (before.sound v)

  whole_file :
      (v id : ℕ) (bytes : List ℕ)
      → s.phase v ≡ whole id bytes
      → (dictionary_id bytes ≡ id) × (bytes_at (temp_name id s.dir.pid v) s.dir ≡ some bytes)
  whole_file v id bytes e = subst (IsSound v s.dir) e (before.sound v)

  -- Writing to a temporary file changes that file alone.
  put-others :
      (v id now : ℕ) (bytes : List ℕ) (u jd : ℕ)
      → u ≢ v
      → bytes_at (temp_name jd s.dir.pid u) (put (temp_name id s.dir.pid v) bytes now s.dir)
        ≡ bytes_at (temp_name jd s.dir.pid u) s.dir
  put-others v id now bytes u jd other =
      put_lem (temp_name jd s.dir.pid u) (temp_name id s.dir.pid v) bytes now s.dir
        (λ e. other (temp_name-injective jd id s.dir.pid u v e))

  put-IsIntact :
      (v id now : ℕ) (bytes : List ℕ) → IsIntact (put (temp_name id s.dir.pid v) bytes now s.dir)
  put-IsIntact v id now bytes =
      let temp = temp_name id s.dir.pid v in
      if-IsIntact s.dir (put temp bytes now s.dir)
        (λ i h. inl (
          put_lem (path_for i) temp bytes now s.dir
            (λ e. temp_name-ne-path_for id s.dir.pid v i h (sym e))))
        before.intact

  writes-IsConsistent :
      (v id now : ℕ) (bytes part : List ℕ)
      → s.phase v ≡ writing id bytes
      → IsConsistent (record s { dir = put (temp_name id s.dir.pid v) part now s.dir })
  unfolding put
  writes-IsConsistent v id now bytes part e = record {
    intact = put-IsIntact v id now part;
    sound = λ u. elim (dec_eq u v) [
      | yes this ↦ rw this (rw e (own_id v id bytes e))
      | no other ↦
          IsSound-still u (s.phase u) s.dir (put (temp_name id s.dir.pid v) part now s.dir) refl
            (λ jd. put-others v id now part u jd other) (before.sound u)
    ];
  }

  finishes-IsConsistent :
      (v id now : ℕ) (bytes : List ℕ)
      → s.phase v ≡ writing id bytes
      → IsConsistent (record s {
        dir = put (temp_name id s.dir.pid v) bytes now s.dir;
        phase = set_phase v (whole id bytes) s.phase;
      })
  unfolding put contents_of
  finishes-IsConsistent v id now bytes e =
      let temp = temp_name id s.dir.pid v in
      let there : bytes_at temp (put temp bytes now s.dir) ≡ some bytes = ap contents_of (
        find-here (record { name = temp; contents = bytes; modified = now })
          (without temp s.dir.files)) in
      goes_on s v (whole id bytes) (put temp bytes now s.dir) refl (put-others v id now bytes)
        (own_id v id bytes e, there) (put-IsIntact v id now bytes) before

  publishes-IsConsistent :
      (v id : ℕ) (bytes : List ℕ)
      → s.phase v ≡ whole id bytes
      → IsConsistent (record s {
        dir = (rename (temp_name id s.dir.pid v) (path_for id) s.dir).1;
        phase = set_phase v idle s.phase;
      })
  publishes-IsConsistent v id bytes e =
      let temp = temp_name id s.dir.pid v in
      let after = (rename temp (path_for id) s.dir).1 in
      let (own, there) = whole_file v id bytes e in
      let small : id < 2 ^ 32 = subst (λ n. n < 2 ^ 32) own (dictionary_id_range bytes).0 in
      let intact : IsIntact after = λ i b h found.
        elim (bytes_at-rename (path_for i) s.dir temp (path_for id)
          (λ q. temp_name-ne-path_for id s.dir.pid v i h (sym q))) [
            | inl k ↦ before.intact i b h (sym k ∙ found)
            | inr (same, k) ↦
                let full : bytes ≡ b = cc (sym k ∙ found, there) in
                ap dictionary_id (sym full) ∙ own ∙ sym (path_for-injective i id h small same)
          ] in
      let others : (u jd : ℕ)
          → u ≢ v
          → bytes_at (temp_name jd s.dir.pid u) after ≡ bytes_at (temp_name jd s.dir.pid u) s.dir =
        λ u jd other.
          elim (bytes_at-rename (temp_name jd s.dir.pid u) s.dir temp (path_for id)
            (λ q. other (temp_name-injective jd id s.dir.pid u v q))) [
              | inl k ↦ k
              | inr (same, k) ↦ absurd (temp_name-ne-path_for jd s.dir.pid u id small same)
            ] in
      goes_on s v idle after (pid-rename temp (path_for id) s.dir) others tt intact before

  removed-IsIntact : (name : List ℕ) → IsIntact (remove_file name s.dir)
  removed-IsIntact name =
      if-IsIntact s.dir (remove_file name s.dir)
        (λ i h. elim (bytes_at-remove_file (path_for i) s.dir name) [
          | inl k ↦ inl k
          | inr (same, k) ↦ inr k
        ])
        before.intact

  gives_up-IsConsistent :
      (v id : ℕ)
      → IsConsistent (record s {
        dir = remove_file (temp_name id s.dir.pid v) s.dir;
        phase = set_phase v idle s.phase;
      })
  gives_up-IsConsistent v id =
      let temp = temp_name id s.dir.pid v in
      let others : (u jd : ℕ)
          → u ≢ v
          → bytes_at (temp_name jd s.dir.pid u) (remove_file temp s.dir)
            ≡ bytes_at (temp_name jd s.dir.pid u) s.dir =
        λ u jd other. elim (bytes_at-remove_file (temp_name jd s.dir.pid u) s.dir temp) [
          | inl k ↦ k
          | inr (same, k) ↦ absurd (other (temp_name-injective jd id s.dir.pid u v same))
        ] in
      goes_on s v idle (remove_file temp s.dir) (pid-remove_file temp s.dir) others tt
        (removed-IsIntact temp) before

  touches-IsConsistent : (id : ℕ) → IsConsistent (record s { dir = touch (path_for id) s.dir })
  touches-IsConsistent id =
      let after = touch (path_for id) s.dir in
      record {
        intact =
            if-IsIntact s.dir after (λ i h. inl (bytes_at-touch (path_for i) s.dir (path_for id)))
              before.intact;
        sound = λ u.
            IsSound-still u (s.phase u) s.dir after (pid-touch (path_for id) s.dir)
              (λ jd. bytes_at-touch (temp_name jd s.dir.pid u) s.dir (path_for id))
              (before.sound u);
      }

  removes-IsConsistent :
      (id : ℕ) → IsConsistent (record s { dir = remove_file (path_for id) s.dir })
  removes-IsConsistent id =
      let after = remove_file (path_for id) s.dir in
      record {
        intact = removed-IsIntact (path_for id);
        sound = λ u.
            IsSound-still u (s.phase u) s.dir after (pid-remove_file (path_for id) s.dir)
              (λ jd. elim (bytes_at-remove_file (temp_name jd s.dir.pid u) s.dir (path_for id)) [
                | inl k ↦ k
                | inr (same, k) ↦ absurd (temp_name-ne-any_path jd s.dir.pid u id same)
              ])
              (before.sound u);
      }

  looks-IsConsistent :
      (after : Directory)
      → after.files ≡ s.dir.files
      → after.pid ≡ s.dir.pid
      → IsConsistent (record s { dir = after })
  looks-IsConsistent after files pid = record {
    intact =
        if-IsIntact s.dir after (λ i h. inl (ap (λ fs. contents_of (find (path_for i) fs)) files))
          before.intact;
    sound = λ u.
        IsSound-still u (s.phase u) s.dir after pid
          (λ jd. ap (λ fs. contents_of (find (temp_name jd s.dir.pid u) fs)) files)
          (before.sound u);
  }

  begins-IsConsistent :
      (id : ℕ) (bytes : List ℕ)
      → dictionary_id bytes ≡ id
      → IsConsistent (record s {
        dir = record s.dir { next_unique = s.dir.next_unique + 1 };
        phase = set_phase s.dir.next_unique (writing id bytes) s.phase;
      })
  begins-IsConsistent id bytes own =
      goes_on s s.dir.next_unique (writing id bytes)
        (record s.dir { next_unique = s.dir.next_unique + 1 }) refl (λ u jd other. refl) own
        before.intact before

Step-IsConsistent : {s t : Shared} → Step s t → IsConsistent s → IsConsistent t
Step-IsConsistent (begins s id bytes own small) h = begins-IsConsistent s h id bytes own
Step-IsConsistent (writes s v id bytes n now e) h =
    writes-IsConsistent s h v id now bytes (take n bytes) e
Step-IsConsistent (finishes s v id bytes now e) h = finishes-IsConsistent s h v id now bytes e
Step-IsConsistent (publishes s v id bytes e) h = publishes-IsConsistent s h v id bytes e
Step-IsConsistent (gives_up s v id) h = gives_up-IsConsistent s h v id
Step-IsConsistent (touches s id) h = touches-IsConsistent s h id
Step-IsConsistent (removes s id) h = removes-IsConsistent s h id
Step-IsConsistent (looks s after files pid unique) h = looks-IsConsistent s h after files pid
Step-IsConsistent (crashes s pid) h = record { intact = h.intact; sound = λ u. tt }

Reach-IsConsistent : {s t : Shared} → Reach s t → IsConsistent s → IsConsistent t
Reach-IsConsistent here h = h
Reach-IsConsistent (next r st) h = Step-IsConsistent st (Reach-IsConsistent r h)

-- From a directory whose dictionaries hash to the ids they are held under, with no call at
-- work, no interleaving of the steps of any number of calls, with writes that break off
-- anywhere, calls that give up, removals and crashes among them, reaches a directory in which a
-- dictionary is held under an id that it does not hash to.
pub Reach-IsIntact :
    (s t : Shared)
    → ((unique : ℕ) → s.phase unique ≡ idle)
    → IsIntact s.dir
    → Reach s t
    → IsIntact t.dir
Reach-IsIntact s t none_yet intact r =
    let start : IsConsistent s = record {
      intact = intact;
      sound = λ u. subst (IsSound u s.dir) (sym (none_yet u)) tt;
    } in
    let done = Reach-IsConsistent r start in done.intact
