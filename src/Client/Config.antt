-- ===== src/Client/Config.antt =====
-- rust/src/client.rs: `Config`, `default_server_name` and what `Client::connect` takes from them before the
-- stream is open.
pub mod ServerName
use manka_shreds_sdk.Common.{
  ℕ, ◌*◌, ◌^◌, List, [], ◌∷◌, ◌++◌, Option, none, some, Bool, true, false, ◌||◌, ◌==◌,
  if◌then◌else◌, map,
}
use mathlib.Core.Option.{get_or}
use manka_shreds_sdk.Handshake.{codes}
use manka_shreds_sdk.Protocol.StreamMask
use manka_shreds_sdk.Protocol.StreamMask.{StreamMask}
use manka_shreds_sdk.Transport.{Transport, quic, tcp, ServerVerification, unchecked, pinned}
use manka_shreds_sdk.Client.Json.{NamedFilter, filters_json}

-- `Config`: the cache is the path of its directory, the timeout is in seconds.
pub record Config : Type 0 where
  pub transport : Transport
  pub verification : ServerVerification
  pub server_name : Option (List ℕ)
  pub secret : List ℕ
  pub streams : StreamMask
  pub dictionary : Option (List ℕ)
  pub dictionary_cache : Option (List ℕ)
  pub connect_timeout : ℕ
  pub max_message_bytes : ℕ
  pub filter : Option (List ℕ)
  pub unpack_lookups : Bool

-- `Config::new`, with what `DictionaryCache::default_location` gave
unfoldable pub new : Option (List ℕ) → List ℕ → Config
new default_location secret = record {
  transport = quic;
  verification = unchecked;
  server_name = none;
  secret = secret;
  streams = StreamMask.all;
  dictionary = none;
  dictionary_cache = default_location;
  connect_timeout = 10;
  max_message_bytes = 16 * 2 ^ 20;
  filter = none;
  unpack_lookups = false;
}

-- `Config::dictionary_cache`, `without_dictionary_cache`
unfoldable pub with_dictionary_cache : List ℕ → Config → Config
with_dictionary_cache dir self = record self { dictionary_cache = some dir }

unfoldable pub without_dictionary_cache : Config → Config
without_dictionary_cache self = record self { dictionary_cache = none }

-- `Config::tcp`, `pinned`, `verification`, `server_name`
unfoldable pub over_tcp : Config → Config
over_tcp self = record self { transport = tcp }

unfoldable pub with_pinned : List ℕ → Config → Config
with_pinned fingerprint self = record self { verification = pinned fingerprint }

unfoldable pub with_verification : ServerVerification → Config → Config
with_verification verification self = record self { verification = verification }

unfoldable pub with_server_name : List ℕ → Config → Config
with_server_name name self = record self { server_name = some name }

-- `Config::streams`, `unpack_lookups`, `dictionary`
unfoldable pub with_streams : StreamMask → Config → Config
with_streams streams self = record self { streams = streams }

unfoldable pub with_unpack_lookups : Config → Config
with_unpack_lookups self = record self { unpack_lookups = true }

unfoldable pub with_dictionary : List ℕ → Config → Config
with_dictionary dictionary self = record self { dictionary = some dictionary }

-- `Config::filters`, `filter`
unfoldable pub with_filters : List NamedFilter → Config → Config
with_filters filters self = record self { filter = some (filters_json filters) }

unfoldable pub with_filter : List ℕ → Config → Config
unfolding with_filters
with_filter spec_json self = with_filters (record { name = []; spec_json = spec_json } ∷ []) self

-- `spec.rsplit_once(':').map_or(spec, |(host, _)| host)`: what stands before the last colon
unfoldable pub before_last : ℕ → List ℕ → Option (List ℕ)
before_last c [] = none
before_last c (b ∷ bs) = longer (before_last c bs)
  where
    longer : Option (List ℕ) → Option (List ℕ)
    longer (some front) = some (b ∷ front)
    longer none = if b == c then some [] else none

unfoldable pub host_of : List ℕ → List ℕ
unfolding before_last
host_of spec = get_or (before_last b':' spec) spec

-- `trim_start_matches(c)`, `trim_end_matches(c)` at an ASCII character
unfoldable pub trim_start : ℕ → List ℕ → List ℕ
trim_start c [] = []
trim_start c (b ∷ bs) = if b == c then trim_start c bs else b ∷ bs

unfoldable pub trim_end : ℕ → List ℕ → List ℕ
trim_end c [] = []
trim_end c (b ∷ bs) = shorter (trim_end c bs)
  where
    shorter : List ℕ → List ℕ
    shorter [] = if b == c then [] else b ∷ []
    shorter (d ∷ ds) = b ∷ d ∷ ds

abbrev pub is_empty : List ℕ → Bool
is_empty [] = true
is_empty (b ∷ bs) = false

-- Whether a text is an IP address, which `parse::<IpAddr>` tells, is a parameter.
module _ (is_ip : List ℕ → Bool) where
  -- `default_server_name`
  unfoldable pub default_server_name : List ℕ → List ℕ
  unfolding host_of trim_start trim_end
  default_server_name spec =
      let host = trim_end b']' (trim_start b'[' (host_of spec)) in
      if is_ip host || is_empty host then codes "localhost" else host

  -- `config.server_name.clone().unwrap_or_else(…)`
  unfoldable pub server_name_of : Config → List ℕ → List ℕ
  unfolding default_server_name
  server_name_of config spec = get_or config.server_name (default_server_name spec)
