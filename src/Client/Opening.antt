-- ===== src/Client/Opening.antt =====
-- rust/src/client.rs and rust/src/lib.rs: `Client::connect` from the name of the node on, and `connect`.
pub mod Pinned
use manka_shreds_sdk.Common.{ℕ, List, [], ◌∷◌, Option, none, some, Bool, if◌then◌else◌}
use manka_shreds_sdk.Error.{
  Error, Result, ok, err, panic, io, handshake, no_address, timed_out, fail_if, ◌>>=◌, ◌>>◌,
}
use manka_shreds_sdk.Transport.{Transport, quic, tcp, ServerVerification, Carrier, channel_binding}
use manka_shreds_sdk.Transport.Opening.{Address, Network, or_else, connect_tcp, connect_quic}
use manka_shreds_sdk.DictionaryCache.Files.{Directory}
use manka_shreds_sdk.Client.Wire.{Wire}
use manka_shreds_sdk.Client.Session.{Client}
use manka_shreds_sdk.Client.Config
use manka_shreds_sdk.Client.Config.{Config, server_name_of}
use manka_shreds_sdk.Client.Connect.{Link}
use manka_shreds_sdk.Client.Connect.Caching.{connect_in}

-- `.next().ok_or_else(…)?`
abbrev pub first_address : List ℕ → List Address → Result Address
first_address spec [] = err (handshake (no_address spec))
first_address spec (addr ∷ rest) = ok addr

-- The transport that is configured; `network` is what tokio and quinn answer.
unfoldable pub open_over :
    Network → Transport → Address → List ℕ → ServerVerification → Result Carrier
open_over network quic resolved server_name verification =
    connect_quic network resolved server_name verification
open_over network tcp resolved server_name verification = connect_tcp network resolved

-- The answers of tokio and quinn, and the test for an IP address
module _ (network : Network) (is_ip : List ℕ → Bool) where
  -- `Client::connect` up to the open stream
  unfoldable pub open_stream : List ℕ → Config → Result Carrier
  unfolding open_over
  open_stream spec config = do
    addresses ← or_else (network.lookup_host spec) io
    resolved ← first_address spec addresses
    fail_if (network.elapses config.connect_timeout resolved) (handshake timed_out)
    open_over network config.transport resolved (server_name_of is_ip config spec)
        config.verification

-- What the stream will carry, the sort by the last use, and the hashes
module _ (carries : Carrier → Wire) (sort_by_use : List (ℕ × ℕ) → List (ℕ × ℕ))
    (sha256 : List ℕ → List ℕ) (hmac : List ℕ → List ℕ → List ℕ) where
  abbrev pub fresh_link : Carrier → Link
  fresh_link carrier = record { stream = carries carrier; pending = []; stored = [] }

  -- `Client::connect` from the open stream on
  unfoldable pub connect_over :
      Result Carrier → Config → List ℕ → Directory → Result Client × Directory
  connect_over (ok carrier) config client_nonce dir =
      let (answer, after) =
        connect_in sort_by_use sha256 hmac config client_nonce (channel_binding sha256 carrier)
          (fresh_link carrier) dir in
      (answer.0, after)
  connect_over (err e) config client_nonce dir = (err e, dir)
  connect_over panic config client_nonce dir = (panic, dir)

module _ (network : Network) (is_ip : List ℕ → Bool) (carries : Carrier → Wire)
    (sort_by_use : List (ℕ × ℕ) → List (ℕ × ℕ)) (sha256 : List ℕ → List ℕ)
    (hmac : List ℕ → List ℕ → List ℕ) where
  -- `Client::connect`
  unfoldable pub connect_to : List ℕ → Config → List ℕ → Directory → Result Client × Directory
  unfolding connect_over open_stream
  connect_to spec config client_nonce dir =
      connect_over carries sort_by_use sha256 hmac (open_stream network is_ip spec config) config
        client_nonce dir

  -- `connect` of the crate; the cache is at its default location.
  unfoldable pub connect_with :
      Option (List ℕ) → List ℕ → List ℕ → List ℕ → Directory → Result Client × Directory
  unfolding connect_to
  connect_with default_location spec secret client_nonce dir =
      connect_to spec (Config.new default_location secret) client_nonce dir
