-- ===== src/Client/Connect/Caching/Reconnect.antt =====
-- The dictionary that one connection was sent is the one that the next connection offers and keeps.
use mathlib.Core.Path.{subst}
use manka_shreds_sdk.Common.{
  ℕ, ◌<◌, ◌^◌, ◌≡◌, arith, inl, inr, refl, sym, ap, ◌∙◌, List, [], ◌∷◌, Option, none, some, true,
  All,
}
use manka_shreds_sdk.Error.{ok}
use manka_shreds_sdk.Handshake.{ChannelBinding}
use manka_shreds_sdk.Protocol.Dictionary.{Dictionary}
use manka_shreds_sdk.Protocol.Dictionary.Hash.{dictionary_id_range}
use manka_shreds_sdk.DictionaryCache.Files.{Directory}
use manka_shreds_sdk.DictionaryCache.Order.{IsSort}
use manka_shreds_sdk.DictionaryCache.Calm.{IsCalm}
use manka_shreds_sdk.DictionaryCache.RoundTrip.{IsOlder, newest-store}
use manka_shreds_sdk.Client.Session.{Client}
use manka_shreds_sdk.Client.Config.{Config}
use manka_shreds_sdk.Client.Connect.{Link, connect, is_some, keep_held}
use manka_shreds_sdk.Client.Connect.Agreed.{Agrees, connect-Agrees}
use manka_shreds_sdk.Client.Connect.Caching.{bytes_of, held_in, store_all, connect_in}
use manka_shreds_sdk.Client.Connect.Caching.Offered.{Handed, connect-Handed}

keep_held-Agrees :
    (id : ℕ) (dictionary : Option (List ℕ))
    → Agrees id dictionary
    → keep_held dictionary id ≡ dictionary
unfolding keep_held
keep_held-Agrees id dictionary (inl (zero_id, nothing)) = rw nothing refl
keep_held-Agrees id dictionary (inr (nonzero, (bytes, same, hash))) = rw same (ground arith)

module _ (sort_by_use : List (ℕ × ℕ) → List (ℕ × ℕ)) (sorts : IsSort sort_by_use) where
  offered_next :
      (cache : Option (List ℕ)) (before after : List Dictionary) (dictionary : Option (List ℕ))
      (read : Directory)
      → is_some cache ≡ true
      → before ≡ []
      → Handed before after dictionary true
      → IsCalm read
      → All (IsOlder read) read.files
      → (held_in sort_by_use none cache (store_all sort_by_use after read)).0 ≡ dictionary
  unfolding held_in store_all
  offered_next none before after dictionary read caches first handed calm older = cc
  offered_next (some path) before after dictionary read caches first (offered, handed, same, own)
        calm older =
      let alone : after ≡ offered ∷ [] = handed ∙ ap (λ l. offered ∷ l) first in
      let small : offered.id < 2 ^ 32 =
        subst (λ n. n < 2 ^ 32) own (dictionary_id_range offered.bytes).0 in
      let (stores, found) =
        newest-store sort_by_use offered.id offered.bytes read sorts small own calm older in
      rw alone (ap bytes_of found ∙ sym same)

  module _ (sha256 : List ℕ → List ℕ) (hmac : List ℕ → List ℕ → List ℕ) where
    -- If `connect`, with a cache and no dictionary configured, returns a client that was
    -- sent a dictionary, no call to the file system fails behind the reading of the cache,
    -- and its clock shows later times than those of all files there, then the next
    -- connection with this cache holds and offers exactly that dictionary, and keeps it
    -- when the server announces the same id.
    pub connect_in-held_in :
        (config : Config) (client_nonce : List ℕ) (binding : ChannelBinding) (link : Link)
        (dir : Directory) (client : Client)
        → config.dictionary ≡ none
        → is_some config.dictionary_cache ≡ true
        → link.stored ≡ []
        → IsCalm (held_in sort_by_use none config.dictionary_cache dir).1
        → All
            (IsOlder (held_in sort_by_use none config.dictionary_cache dir).1)
            (held_in sort_by_use none config.dictionary_cache dir).1.files
        → (connect_in sort_by_use sha256 hmac config client_nonce binding link dir).0.0 ≡ ok client
        → client.dictionary_was_sent ≡ true
        → ((held_in sort_by_use none config.dictionary_cache
              (connect_in sort_by_use sha256 hmac config client_nonce binding link dir).1).0
            ≡ client.dictionary)
          × (keep_held client.dictionary client.ack.dictionary_id ≡ client.dictionary)
    unfolding connect_in
    connect_in-held_in config client_nonce binding link dir client free caches first calm older h
          was =
        let read = held_in sort_by_use none config.dictionary_cache dir in
        let chosen : held_in sort_by_use config.dictionary config.dictionary_cache dir ≡ read =
          ap (λ d. held_in sort_by_use d config.dictionary_cache dir) free in
        let met : (connect sha256 hmac config read.0 client_nonce binding link).0 ≡ ok client =
          subst (λ r. (connect sha256 hmac config r.0 client_nonce binding link).0 ≡ ok client)
            chosen h in
        let after = (connect sha256 hmac config read.0 client_nonce binding link).1.stored in
        let handed : Handed link.stored after client.dictionary true =
          subst (Handed link.stored after client.dictionary) was (
            connect-Handed sha256 hmac config read.0 client_nonce binding link client caches met) in
        let (codec, version, agree) =
          connect-Agrees sha256 hmac config read.0 client_nonce binding link client met in
        (
          rw chosen (
              offered_next config.dictionary_cache link.stored after client.dictionary read.1 caches
                first handed calm older),
          keep_held-Agrees client.ack.dictionary_id client.dictionary agree,
        )
