-- ===== src/Tests/Pins.antt =====
-- Fingerprints of certificates, and names presented for TLS.
use manka_shreds_sdk.Common.{
  ℕ, zero, suc, ◌<◌, ◌≡◌, ◌↔◌, ◌==◌, refl, arith, List, [], ◌∷◌, ◌++◌, some, true, length,
  replicate, if◌then◌else◌, All,
}
use manka_shreds_sdk.Error.{ok, err, panic, handshake, fingerprint_length, ◌>>=◌}
use manka_shreds_sdk.Handshake.{codes, hex, Transcript, verify_server, server_proof, of_certificate}
use manka_shreds_sdk.Transport
use manka_shreds_sdk.Transport.{
  PinnedServer, accepted, clean, is_kept, fingerprint_of, verify_server_cert,
  verify_tls13_signature, channel_binding, quic_streams,
}
use manka_shreds_sdk.Transport.Pinning.{
  or_refused, spelled, new_lem, new-fingerprint_of, new-eq-panic,
}
use manka_shreds_sdk.Transport.Relay.{shown_to, verify_server-shown}

abbrev digest : List ℕ → List ℕ
digest m = replicate 32 171

-- Fingerprints: one in capitals behind a colon, and one as it is printed, in groups
abbrev pair_text : List ℕ
pair_text = b':' ∷ replicate 64 b'A'

abbrev printed : List ℕ
printed = codes "abababab-abababab-abababab-abababab-abababab-abababab-abababab-abababab"

All-replicate : (P : ℕ → Type 0) (x n : ℕ) → P x → All P (replicate n x)
All-replicate P x zero h = tt
All-replicate P x (suc n) h = (h, All-replicate P x n h)

new_lem_example : Transport.new pair_text ≡ (
    if length (clean pair_text) == 64
    then or_refused (spelled (clean pair_text)) >>= (λ bytes. ok (record { expected = some bytes }))
    else err (handshake (fingerprint_length (length (clean pair_text)))))
unfolding clean is_kept
new_lem_example = new_lem pair_text (All-replicate (λ c. c < 128) b'A' 64 (omega arith))

is_printed : clean printed ≡ fingerprint_of digest (1 ∷ 2 ∷ [])
unfolding clean is_kept fingerprint_of hex
is_printed = refl

new-fingerprint_of_example :
    (server : PinnedServer) × (Transport.new printed ≡ ok server)
    × ((other : List ℕ)
        → (verify_server_cert digest server other ≡ accepted)
          ↔ (digest other ≡ digest (1 ∷ 2 ∷ [])))
new-fingerprint_of_example =
    new-fingerprint_of digest (1 ∷ 2 ∷ []) printed refl
      (All-replicate (λ c. c < 256) 171 32 (omega arith)) is_printed

-- One letter, then one of two bytes, which starts at an odd offset
abbrev accented : List ℕ
accented = 97 ∷ 0xc3 ∷ 0xa9 ∷ replicate 61 97

new-eq-panic_example : Transport.new accented ≡ panic
unfolding clean is_kept
new-eq-panic_example = new-eq-panic accented 0xa9 refl refl (ground arith) (ground arith)

-- The first byte of a certificate, at the width of a digest
abbrev first_byte : List ℕ → List ℕ
first_byte [] = replicate 32 0
first_byte (b ∷ bs) = replicate 32 b

-- Of a session with the node
abbrev transcript : Transcript
transcript = record {
  key_ref = record { bytes = replicate 32 1 };
  client_nonce = replicate 32 2;
  server_nonce = replicate 32 3;
  binding = of_certificate first_byte (1 ∷ 2 ∷ []);
}

-- A code that puts the key before the message, in the place of HMAC
abbrev prefixed : List ℕ → List ℕ → List ℕ
prefixed key m = key ++ m

tells_apart : (m n : List ℕ) → prefixed (9 ∷ []) m ≡ prefixed (9 ∷ []) n → m ≡ n
tells_apart m n e = cc

-- The certificate of the node begins with 1, that of the peer with 3.
verify_server-shown_example :
    (((verify_server_cert first_byte
            (record { expected = some (first_byte (1 ∷ 2 ∷ [])) })
            (3 ∷ 4 ∷ [])
          ≡ accepted)
        × (verify_tls13_signature (7 ∷ []) (3 ∷ 4 ∷ []) [] ≡ true))
      ↔ (first_byte (3 ∷ 4 ∷ []) ≡ first_byte (1 ∷ 2 ∷ [])))
    × ((verify_server prefixed
            (shown_to first_byte transcript (3 ∷ 4 ∷ []) [])
            (9 ∷ [])
            (server_proof prefixed transcript (9 ∷ []))
          ≡ true)
        ↔ (first_byte (3 ∷ 4 ∷ []) ≡ first_byte (1 ∷ 2 ∷ [])))
unfolding of_certificate
verify_server-shown_example =
    verify_server-shown first_byte prefixed (1 ∷ 2 ∷ []) (3 ∷ 4 ∷ []) (7 ∷ []) [] (9 ∷ []) []
      transcript refl refl
      (record { key_ref = refl; client_nonce = refl; server_nonce = refl; binding = refl })
      (tells_apart _ _)
