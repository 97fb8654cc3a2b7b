-- ===== src/Client/Connect/Caching.antt =====
-- rust/src/client.rs: `Client::connect` and the cache of dictionaries it reads and writes.
-- The calls to the cache are the only ones that `connect` makes to the file system. So that they are made in
-- the order of the code, it is enough that the cache is read before the connection and written with what
-- the connection handed to it.
pub mod Offered
pub mod Intact
pub mod Reconnect
use manka_shreds_sdk.Common.{ℕ, List, [], ◌∷◌, Option, none, some, Bool, true, false}
use manka_shreds_sdk.Error.{Result}
use manka_shreds_sdk.Handshake.{ChannelBinding}
use manka_shreds_sdk.Protocol.Dictionary.{Dictionary}
use manka_shreds_sdk.DictionaryCache.Files.{Directory}
use manka_shreds_sdk.DictionaryCache
use manka_shreds_sdk.Client.Session.{Client}
use manka_shreds_sdk.Client.Config.{Config}
use manka_shreds_sdk.Client.Connect.{Link, connect}

-- `.map(|(_, bytes)| Arc::new(bytes))`
abbrev pub bytes_of : Option (ℕ × List ℕ) → Option (List ℕ)
bytes_of none = none
bytes_of (some (id, bytes)) = some bytes

module _ (sort_by_use : List (ℕ × ℕ) → List (ℕ × ℕ)) where
  -- `held`: the dictionary configured, or else the newest of the cache, where there is one
  unfoldable pub held_in :
      Option (List ℕ) → Option (List ℕ) → Directory → Option (List ℕ) × Directory
  held_in (some dictionary) cache dir = (some dictionary, dir)
  held_in none none dir = (none, dir)
  held_in none (some path) dir =
      let (found, after) = DictionaryCache.newest sort_by_use dir in (bytes_of found, after)

  -- The calls of `cache.store`
  unfoldable pub store_all : List Dictionary → Directory → Directory
  store_all [] dir = dir
  store_all (offered ∷ rest) dir =
      store_all rest (DictionaryCache.store sort_by_use offered.id offered.bytes dir).1

  module _ (sha256 : List ℕ → List ℕ) (hmac : List ℕ → List ℕ → List ℕ) where
    -- `Client::connect` in a directory of the cache
    unfoldable pub connect_in :
        Config → List ℕ → ChannelBinding → Link → Directory → (Result Client × Link) × Directory
    unfolding held_in store_all
    connect_in config client_nonce binding link dir =
        let (held, read) = held_in config.dictionary config.dictionary_cache dir in
        let (answer, after) = connect sha256 hmac config held client_nonce binding link in
        ((answer, after), store_all after.stored read)
