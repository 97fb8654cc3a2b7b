-- ===== src/Transport/Relay.antt =====
-- A session whose peer shows some certificate, where the client is pinned to that of the node: what the
-- client makes of the peer, and of a proof that the node made over its own session.
use manka_shreds_sdk.Common.{ℕ, ◌≡◌, ◌↔◌, refl, sym, ap, ◌∙◌, arith, List, ◌∷◌, some, true, length}
use manka_shreds_sdk.Handshake.{
  ChannelBinding, Proof, Transcript, message, server_domain, verify_server, server_proof,
  of_certificate,
}
use manka_shreds_sdk.Handshake.Proofs.{
  HasWidths, same_bytes-eq, same_bytes_refl, message-injective, verify_server_lem,
}
use manka_shreds_sdk.Transport.{
  accepted, compare_with, verify_server_cert, verify_tls13_signature, channel_binding, quic_streams,
}

-- The comparison accepts only the digest that is expected, and that one.
compare_with_lem :
    (actual expected : List ℕ)
    → (compare_with actual (some expected) ≡ accepted) ↔ (actual ≡ expected)
unfolding compare_with
compare_with_lem actual expected =
    (λ e. same_bytes-eq actual expected (ground arith), λ e. rw e (simp (same_bytes_refl expected)))

module _ (sha256 : List ℕ → List ℕ) where
  -- The transcript with the binding of a session whose peer shows this chain.
  abbrev pub shown_to : Transcript → List ℕ → List (List ℕ) → Transcript
  shown_to t shown chain = record t {
    binding = channel_binding sha256 (quic_streams (some (shown ∷ chain)));
  }

module _ (sha256 : List ℕ → List ℕ) (hmac : List ℕ → List ℕ → List ℕ) where
  -- The client is pinned to the digest of the certificate `der`, to which the transcript of
  -- the node is bound. If a SHA-256 digest and the parts of that transcript have their
  -- widths, and the code under the key tells the two messages apart, then for a peer that
  -- shows any certificate, and whatever it signs: the verifier accepts the certificate and
  -- the signature exactly if the two certificates have the same digest, and exactly then the
  -- proof which the node made over its own session is accepted over the session with the
  -- peer, where the rest of the two transcripts is the same.
  pub verify_server-shown :
      (der shown signed signature secret : List ℕ) (chain : List (List ℕ)) (t : Transcript)
      → t.binding ≡ of_certificate sha256 der
      → length (sha256 shown) ≡ 32
      → HasWidths t
      → (hmac secret (message (shown_to sha256 t shown chain) server_domain)
            ≡ hmac secret (message t server_domain)
          → message (shown_to sha256 t shown chain) server_domain ≡ message t server_domain)
      → (((verify_server_cert sha256 (record { expected = some (sha256 der) }) shown ≡ accepted)
            × (verify_tls13_signature signed shown signature ≡ true))
          ↔ (sha256 shown ≡ sha256 der))
        × ((verify_server hmac (shown_to sha256 t shown chain) secret (server_proof hmac t secret)
              ≡ true)
            ↔ (sha256 shown ≡ sha256 der))
  unfolding verify_server_cert verify_tls13_signature channel_binding server_proof of_certificate
  verify_server-shown der shown signed signature secret chain t bound width widths injective = (
    (
      λ (passed, signs). (compare_with_lem (sha256 shown) (sha256 der)).0 passed,
      λ e. ((compare_with_lem (sha256 shown) (sha256 der)).1 e, refl),
    ),
    (
      λ fine.
          ap (λ (u : Transcript). u.binding.bytes) (same_session fine)
          ∙ ap (λ (binding : ChannelBinding). binding.bytes) bound,
      λ e. (verify_server_lem hmac (shown_to sha256 t shown chain) secret _).1 (
          ap
            (λ (binding : ChannelBinding).
              server_proof hmac (record t { binding = binding }) secret)
            (bound ∙ ap (λ bytes. record { bytes = bytes }) (sym e))),
    ),
  )
    where
      same_session :
          verify_server hmac (shown_to sha256 t shown chain) secret (server_proof hmac t secret)
            ≡ true
          → shown_to sha256 t shown chain ≡ t
      same_session fine =
          message-injective (shown_to sha256 t shown chain) t server_domain
            (record {
              key_ref = widths.key_ref;
              client_nonce = widths.client_nonce;
              server_nonce = widths.server_nonce;
              binding = width;
            })
            widths
            (injective (
              sym (
                ap (λ (p : Proof). p.bytes)
                  ((verify_server_lem hmac (shown_to sha256 t shown chain) secret _).0 fine))))
