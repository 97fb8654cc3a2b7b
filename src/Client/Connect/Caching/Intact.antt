-- ===== src/Client/Connect/Caching/Intact.antt =====
-- A connection leaves in the cache no dictionary under another's id.
use manka_shreds_sdk.Common.{ℕ, List, [], ◌∷◌, Option, none, some}
use manka_shreds_sdk.Handshake.{ChannelBinding}
use manka_shreds_sdk.Protocol.Dictionary.{Dictionary}
use manka_shreds_sdk.DictionaryCache
use manka_shreds_sdk.DictionaryCache.Files.{Directory}
use manka_shreds_sdk.DictionaryCache.Kept.{IsIntact, store-IsIntact}
use manka_shreds_sdk.DictionaryCache.Loaded.{held_before, newest-Keeps}
use manka_shreds_sdk.Client.Config.{Config}
use manka_shreds_sdk.Client.Connect.{Link, connect}
use manka_shreds_sdk.Client.Connect.Caching.{held_in, store_all, connect_in}

module _ (sort_by_use : List (ℕ × ℕ) → List (ℕ × ℕ)) where
  held_in-IsIntact :
      (configured cache : Option (List ℕ)) (dir : Directory)
      → IsIntact dir
      → IsIntact (held_in sort_by_use configured cache dir).1
  unfolding held_in
  held_in-IsIntact (some dictionary) cache dir v = v
  held_in-IsIntact none none dir v = v
  held_in-IsIntact none (some path) dir v = λ i bytes h e.
      let after = (DictionaryCache.newest sort_by_use dir).1 in
      v i bytes h (held_before i dir after bytes (newest-Keeps sort_by_use i dir) e)

  store_all-IsIntact :
      (offered : List Dictionary) (dir : Directory)
      → IsIntact dir
      → IsIntact (store_all sort_by_use offered dir)
  unfolding store_all
  store_all-IsIntact [] dir v = v
  store_all-IsIntact (d ∷ rest) dir v =
      store_all-IsIntact rest (DictionaryCache.store sort_by_use d.id d.bytes dir).1
        (store-IsIntact sort_by_use d.id d.bytes dir v)

  module _ (sha256 : List ℕ → List ℕ) (hmac : List ℕ → List ℕ → List ℕ) where
    -- Whatever the server sends and the file system answers, a connection leaves a cache
    -- whose dictionaries hash to the ids they are held under with dictionaries of which
    -- this still holds.
    pub connect_in-IsIntact :
        (config : Config) (client_nonce : List ℕ) (binding : ChannelBinding) (link : Link)
        (dir : Directory)
        → IsIntact dir
        → IsIntact (connect_in sort_by_use sha256 hmac config client_nonce binding link dir).1
    unfolding connect_in
    connect_in-IsIntact config client_nonce binding link dir v =
        let read = held_in sort_by_use config.dictionary config.dictionary_cache dir in
        let met = connect sha256 hmac config read.0 client_nonce binding link in
        store_all-IsIntact met.1.stored read.1
          (held_in-IsIntact config.dictionary config.dictionary_cache dir v)
