-- ===== src/Transport/Opening/Pinned.antt =====
-- What an open QUIC connection to a pinned node guarantees.
use mathlib.Core.Path.{subst}
use manka_shreds_sdk.Common.{
  ℕ, ◌≡◌, refl, ap, ◌∙◌, List, ◌∷◌, Option, none, some, Bool, true, false, not, ◌==◌, arith, length,
}
use manka_shreds_sdk.Error.{
  Error, Result, ok, err, panic, handshake, transport_failed, fail_if, ◌>>=◌, ◌>>◌,
}
use manka_shreds_sdk.Handshake.{of_certificate}
use manka_shreds_sdk.Handshake.Proofs.{same_bytes-eq}
use manka_shreds_sdk.Transport
use manka_shreds_sdk.Transport.{
  ServerVerification, pinned, quic, tcp, PinnedServer, Verifier, platform_roots, fingerprint,
  verifier_for, verify_server_cert, accepted, compare_with, Carrier, quic_streams, channel_binding,
  clean, parse_pairs,
}
use manka_shreds_sdk.Transport.Opening.{
  Address, Network, TlsConfig, or_else, tls_config, local_address, connect_quic,
}

-- A chain that succeeds has the answer of its first step, and goes on with it.
pub succeeded {ℓ κ} :
    {A : Type ℓ} {B : Type κ} {last : B} (step : Result A) (next : A → Result B)
    → (step >>= next) ≡ ok last
    → (answer : A) × (step ≡ ok answer) × (next answer ≡ ok last)
succeeded (ok answer) next returned = (answer, refl, returned)
succeeded (err e) next returned = cc
succeeded panic next returned = cc

-- What follows a check that passed
pub checked {ℓ} :
    {A : Type ℓ} (b : Bool) (e : Error) {m : Result A} {a : A}
    → (fail_if b e >> m) ≡ ok a
    → m ≡ ok a
checked true e h = cc
checked false e h = h

or_else-eq-ok {ℓ} :
    {A : Type ℓ} (answer : Option A) (e : Error) {a : A} → or_else answer e ≡ ok a → answer ≡ some a
or_else-eq-ok none e h = cc
or_else-eq-ok (some a) e h = cc

-- The digest that a text is read as
abbrev pub IsReadAs : List ℕ → List ℕ → Type 0
IsReadAs text digest = Transport.new text ≡ ok (record { expected = some digest })

new-IsReadAs :
    (text : List ℕ) (server : PinnedServer)
    → Transport.new text ≡ ok server
    → (digest : List ℕ) × IsReadAs text digest × (server.expected ≡ some digest)
unfolding Transport.new
new-IsReadAs text server h =
    let read = checked (not (length (clean text) == 64)) _ h in
    let (digest, parsed, made) = succeeded (parse_pairs (clean text) 0 32) _ read in
    let same : server ≡ record { expected = some digest } = cc in
    (digest, h ∙ ap ok same, ap (λ (s : PinnedServer). s.expected) same)

module _ (sha256 : List ℕ → List ℕ) where
  -- Whether a verifier lets a certificate pass; the platform's roots are not asked here.
  abbrev pub LetsPass : Verifier → List ℕ → Type 0
  LetsPass platform_roots leaf = Unit
  LetsPass (fingerprint server) leaf = verify_server_cert sha256 server leaf ≡ accepted

  -- A handshake of QUIC completes only with a peer that has shown a certificate which the verifier has
  -- let pass, and that certificate is the first that `peer_identity` shows.
  abbrev pub AsksVerifier : Network → Type 0
  AsksVerifier network =
      (tls : TlsConfig) (addr : Address) (name : List ℕ) (identity : Option (List (List ℕ)))
      → network.quic_handshake tls addr name ≡ some identity
      → (leaf : List ℕ) × (rest : List (List ℕ)) × (identity ≡ some (leaf ∷ rest))
        × LetsPass tls.verifier leaf

  accepted-eq :
      (server : PinnedServer) (leaf digest : List ℕ)
      → server.expected ≡ some digest
      → verify_server_cert sha256 server leaf ≡ accepted
      → sha256 leaf ≡ digest
  unfolding verify_server_cert compare_with
  accepted-eq server leaf digest expects passes =
      same_bytes-eq (sha256 leaf) digest (ground (arith, expects))

  module _ (network : Network) where
    tls_config-pinned :
        (text : List ℕ) (tls : TlsConfig)
        → tls_config network (pinned text) ≡ ok tls
        → (server : PinnedServer) × (Transport.new text ≡ ok server)
          × (tls.verifier ≡ fingerprint server)
    unfolding tls_config verifier_for
    tls_config-pinned text tls h =
        let chosen = checked (not network.with_protocol_versions) _ h in
        let (verifier, found, made) = succeeded (verifier_for (pinned text)) _ chosen in
        let (server, read, named) = succeeded (Transport.new text) _ found in (server, read, cc)

    pub connect_quic-pinned :
        (addr : Address) (name text : List ℕ) (carrier : Carrier)
        → AsksVerifier network
        → connect_quic network addr name (pinned text) ≡ ok carrier
        → (digest : List ℕ) × IsReadAs text digest
          × (channel_binding sha256 carrier ≡ record { bytes = digest })
    unfolding connect_quic channel_binding of_certificate
    connect_quic-pinned addr name text carrier asks h =
        let (tls, made, h1) = succeeded (tls_config network (pinned text)) _ h in
        let (server, read, named) = tls_config-pinned text tls made in
        let h2 = checked (not (network.quic_client_config tls)) _ h1 in
        let h3 = checked (not (network.bind (local_address addr))) _ h2 in
        let h4 = checked (not (network.quic_connect addr name)) _ h3 in
        let (identity, done, h5) =
          succeeded (or_else (network.quic_handshake tls addr name) (handshake transport_failed)) _
            h4 in
        let (leaf, rest, shown, passes) = asks tls addr name identity (or_else-eq-ok _ _ done) in
        let carried = checked (not (network.open_bi addr)) _ h5 in
        let same : carrier ≡ quic_streams (some (leaf ∷ rest)) = cc in
        let (digest, reads, expects) = new-IsReadAs text server read in
        let equal : sha256 leaf ≡ digest =
          accepted-eq server leaf digest expects (subst (λ v. LetsPass v leaf) named passes) in
        (
          digest,
          reads,
          ap (channel_binding sha256) same ∙ ap (λ (d : List ℕ). record { bytes = d }) equal,
        )
