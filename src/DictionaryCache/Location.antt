-- ===== src/DictionaryCache/Location.antt =====
-- rust/src/dictcache.rs: `default_dir`, where the cache is kept unless the configuration says otherwise.
-- `std::env::var_os` and `PathBuf::join` are parameters.
use manka_shreds_sdk.Common.{
  ℕ, ◌+◌, List, [], ◌∷◌, Option, none, some, Bool, ◌&&◌, ◌||◌, leb, if◌then◌else◌, map,
}
use manka_shreds_sdk.Handshake.{codes, same_bytes}

-- `CACHE_ENV`
abbrev cache_env : List ℕ
cache_env = codes "MANKA_SHREDS_DICTIONARY_CACHE"

-- `eq_ignore_ascii_case`
unfoldable to_ascii_lowercase : ℕ → ℕ
to_ascii_lowercase c = if leb b'A' c && leb c b'Z' then c + 32 else c

unfoldable eq_ignore_ascii_case : List ℕ → List ℕ → Bool
unfolding to_ascii_lowercase
eq_ignore_ascii_case xs ys = same_bytes (map to_ascii_lowercase xs) (map to_ascii_lowercase ys)

-- `.filter(|value| !value.is_empty())`
unfoldable non_empty : Option (List ℕ) → Option (List ℕ)
non_empty none = none
non_empty (some []) = none
non_empty (some (c ∷ cs)) = some (c ∷ cs)

module _ (var_os : List ℕ → Option (List ℕ)) (join : List ℕ → List ℕ → List ℕ) where
  -- What an explicit setting says
  unfoldable explicit_dir : List ℕ → Option (List ℕ)
  unfolding eq_ignore_ascii_case
  explicit_dir explicit =
      if eq_ignore_ascii_case explicit (codes "off") || eq_ignore_ascii_case explicit (codes "none")
      then none
      else some explicit

  unfoldable home_dir : Option (List ℕ) → Option (List ℕ)
  home_dir none = none
  home_dir (some home) = some (join (join home (codes ".cache")) (codes "manka-shreds"))

  unfoldable xdg_dir : Option (List ℕ) → Option (List ℕ)
  unfolding home_dir non_empty
  xdg_dir none = home_dir (non_empty (var_os (codes "HOME")))
  xdg_dir (some xdg) = some (join xdg (codes "manka-shreds"))

  -- `default_dir`, which `DictionaryCache::default_location` puts a cache in
  unfoldable chosen_dir : Option (List ℕ) → Option (List ℕ)
  unfolding explicit_dir xdg_dir non_empty
  chosen_dir none = xdg_dir (non_empty (var_os (codes "XDG_CACHE_HOME")))
  chosen_dir (some explicit) = explicit_dir explicit

  unfoldable pub default_dir : Option (List ℕ)
  unfolding chosen_dir non_empty
  default_dir = chosen_dir (non_empty (var_os cache_env))
