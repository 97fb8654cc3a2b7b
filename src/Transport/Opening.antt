-- ===== src/Transport/Opening.antt =====
-- rust/src/transport.rs: `connect_tcp`, `connect_quic` and `builder`. How tokio, quinn and rustls answer the
-- calls is a parameter, a `Network`.
pub mod Pinned
use manka_shreds_sdk.Common.{
  replicate, ℕ, List, [], ◌∷◌, Option, none, some, Bool, true, false, not, if◌then◌else◌,
}
use manka_shreds_sdk.Error.{
  Error, Result, ok, err, panic, io, handshake, transport_failed, fail_if, ◌>>=◌, ◌>>◌,
}
use manka_shreds_sdk.Handshake.{codes}
use manka_shreds_sdk.Transport.{
  ServerVerification, Verifier, verifier_for, Carrier, tcp_stream, quic_streams,
}

-- `SocketAddr`: the bytes of the address, and the port
pub data Address : Type 0 where
  v4 : List ℕ → ℕ → Address
  v6 : List ℕ → ℕ → Address

-- `rustls::ClientConfig`, as far as `connect_quic` sets it
pub record TlsConfig : Type 0 where
  pub verifier : Verifier
  pub alpn_protocols : List (List ℕ)

-- What the calls answer: the addresses of a name, whether so many seconds are up before a connection is
-- open, whether a call succeeds, and for the handshake of QUIC the certificates of the
-- peer, as `peer_identity` shows them.
pub record Network : Type 0 where
  pub lookup_host : List ℕ → Option (List Address)
  pub elapses : ℕ → Address → Bool
  pub tcp_connect : Address → Bool
  pub set_nodelay : Address → Bool
  pub with_protocol_versions : Bool
  pub quic_client_config : TlsConfig → Bool
  pub bind : Address → Bool
  pub quic_connect : Address → List ℕ → Bool
  pub quic_handshake : TlsConfig → Address → List ℕ → Option (Option (List (List ℕ)))
  pub open_bi : Address → Bool

-- `ALPN`
abbrev pub alpn : List ℕ
alpn = codes "manka-shreds/1"

-- `if addr.is_ipv4() { … } else { … }`
unfoldable pub local_address : Address → Address
local_address (v4 ip port) = v4 (replicate 4 0) 0
local_address (v6 ip port) = v6 (replicate 16 0) 0

-- `.ok_or(…)` on what a call answers
abbrev pub or_else {ℓ} : {A : Type ℓ} → Option A → Error → Result A
or_else none e = err e
or_else (some a) e = ok a

module _ (network : Network) where
  unfoldable pub connect_tcp : Address → Result Carrier
  connect_tcp addr = do
    fail_if (not (network.tcp_connect addr)) io
    fail_if (not (network.set_nodelay addr)) io
    ok tcp_stream

  -- `builder()?`, and the verifier that is put into it
  unfoldable pub tls_config : ServerVerification → Result TlsConfig
  tls_config verification = do
    fail_if (not network.with_protocol_versions) (handshake transport_failed)
    verifier ← verifier_for verification
    ok (record { verifier = verifier; alpn_protocols = alpn ∷ [] })

  unfoldable pub connect_quic : Address → List ℕ → ServerVerification → Result Carrier
  unfolding tls_config local_address
  connect_quic addr server_name verification = do
    tls ← tls_config verification
    fail_if (not (network.quic_client_config tls)) (handshake transport_failed)
    fail_if (not (network.bind (local_address addr))) io
    fail_if (not (network.quic_connect addr server_name)) (handshake transport_failed)
    identity ← or_else (network.quic_handshake tls addr server_name) (handshake transport_failed)
    fail_if (not (network.open_bi addr)) (handshake transport_failed)
    ok (quic_streams identity)
