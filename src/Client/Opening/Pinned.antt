-- ===== src/Client/Opening/Pinned.antt =====
-- What a client of a pinned node guarantees.
use mathlib.Core.Path.{subst}
use manka_shreds_sdk.Common.{ℕ, ◌≡◌, refl, List, Option, Bool}
use manka_shreds_sdk.Error.{Result, ok, err, panic, io}
use manka_shreds_sdk.Transport
use manka_shreds_sdk.Transport.{
  ServerVerification, pinned, quic, tcp, PinnedServer, Verifier, platform_roots, fingerprint,
  verifier_for, verify_server_cert, accepted, compare_with, Carrier, quic_streams, channel_binding,
  clean, parse_pairs,
}
use manka_shreds_sdk.Transport.Opening.{Address, Network, or_else, connect_quic}
use manka_shreds_sdk.Protocol.Challenge.{Challenge}
use manka_shreds_sdk.DictionaryCache.Files.{Directory}
use manka_shreds_sdk.Client.Wire.{Wire}
use manka_shreds_sdk.Client.Session.{Client}
use manka_shreds_sdk.Client.Config.{Config, server_name_of}
use manka_shreds_sdk.Client.Connect.{connect}
use manka_shreds_sdk.Client.Connect.Authenticated.{IsProven, connect-IsProven}
use manka_shreds_sdk.Client.Connect.Caching.{connect_in}
use manka_shreds_sdk.Client.Opening.{
  fresh_link, first_address, open_over, open_stream, connect_over, connect_to,
}
use manka_shreds_sdk.Transport.Opening.Pinned.{
  checked, succeeded, IsReadAs, AsksVerifier, connect_quic-pinned,
}

module _ (sha256 : List ℕ → List ℕ) where
  module _ (network : Network) where
    open_over-pinned :
        (transport : Transport.Transport) (addr : Address) (name : List ℕ)
        (verification : ServerVerification) (text : List ℕ) (carrier : Carrier)
        → transport ≡ quic
        → verification ≡ pinned text
        → open_over network transport addr name verification ≡ ok carrier
        → connect_quic network addr name (pinned text) ≡ ok carrier
    unfolding open_over
    open_over-pinned quic addr name verification text carrier over pins h =
        subst (λ v. connect_quic network addr name v ≡ ok carrier) pins h
    open_over-pinned tcp addr name verification text carrier over pins h = cc

    connect_over-eq-ok :
        (opened : Result Carrier) (carries : Carrier → Wire)
        (sort_by_use : List (ℕ × ℕ) → List (ℕ × ℕ)) (hmac : List ℕ → List ℕ → List ℕ)
        (config : Config) (client_nonce : List ℕ) (dir : Directory) (client : Client)
        → (connect_over carries sort_by_use sha256 hmac opened config client_nonce dir).0
          ≡ ok client
        → (carrier : Carrier) × (held : Option (List ℕ)) × (opened ≡ ok carrier)
          × ((connect sha256 hmac config held client_nonce
                (channel_binding sha256 carrier)
                (fresh_link carries sort_by_use sha256 hmac carrier)).0
              ≡ ok client)
    unfolding connect_over connect_in
    connect_over-eq-ok (ok carrier) carries sort_by_use hmac config client_nonce dir client h =
        (carrier, _, refl, h)
    connect_over-eq-ok (err e) carries sort_by_use hmac config client_nonce dir client h = cc
    connect_over-eq-ok panic carries sort_by_use hmac config client_nonce dir client h = cc

    open_stream-pinned :
        (is_ip : List ℕ → Bool) (spec text : List ℕ) (config : Config) (carrier : Carrier)
        → AsksVerifier sha256 network
        → config.transport ≡ quic
        → config.verification ≡ pinned text
        → open_stream network is_ip spec config ≡ ok carrier
        → (digest : List ℕ) × IsReadAs text digest
          × (channel_binding sha256 carrier ≡ record { bytes = digest })
    unfolding open_stream open_over
    open_stream-pinned is_ip spec text config carrier asks over pins h =
        let (addresses, found, h1) = succeeded (or_else (network.lookup_host spec) io) _ h in
        let (resolved, first, h2) = succeeded (first_address spec addresses) _ h1 in
        let opened = checked (network.elapses config.connect_timeout resolved) _ h2 in
        connect_quic-pinned sha256 network resolved (server_name_of is_ip config spec) text carrier
          asks
          (open_over-pinned config.transport resolved (server_name_of is_ip config spec)
            config.verification text carrier over pins opened)

    -- If the handshakes of QUIC ask the verifier, and the client is configured for QUIC and
    -- pinned to a fingerprint, `connect` returns a client only if a stream was opened, the
    -- fingerprint is read as some digest, the stream carries a challenge, and the proof in
    -- this challenge is verified over the nonce of this side and the binding to this
    -- digest.
    pub connect_to-IsProven :
        (is_ip : List ℕ → Bool) (carries : Carrier → Wire)
        (sort_by_use : List (ℕ × ℕ) → List (ℕ × ℕ)) (hmac : List ℕ → List ℕ → List ℕ)
        (spec text : List ℕ) (config : Config) (client_nonce : List ℕ) (dir : Directory)
        (client : Client)
        → AsksVerifier sha256 network
        → config.transport ≡ quic
        → config.verification ≡ pinned text
        → (connect_to network is_ip carries sort_by_use sha256 hmac spec config client_nonce dir).0
          ≡ ok client
        → (carrier : Carrier) × (digest : List ℕ) × (challenge : Challenge) × (open_stream network
              is_ip spec config
            ≡ ok carrier)
          × IsReadAs text digest
          × IsProven sha256 hmac config client_nonce
              (record { bytes = digest })
              (fresh_link carries sort_by_use sha256 hmac carrier)
              challenge
    unfolding connect_to
    connect_to-IsProven is_ip carries sort_by_use hmac spec text config client_nonce dir client asks
          over pins h =
        let (carrier, held, opened, returns) =
          connect_over-eq-ok (open_stream network is_ip spec config) carries sort_by_use hmac config
            client_nonce dir client h in
        let (digest, reads, bound) =
          open_stream-pinned is_ip spec text config carrier asks over pins opened in
        let link = fresh_link carries sort_by_use sha256 hmac carrier in
        let (challenge, known) =
          connect-IsProven sha256 hmac config held client_nonce (channel_binding sha256 carrier)
            link client returns in
        (
          carrier,
          digest,
          challenge,
          opened,
          reads,
          subst (λ bound. IsProven sha256 hmac config client_nonce bound link challenge) bound
              known,
        )
