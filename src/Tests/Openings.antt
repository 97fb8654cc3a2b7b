-- ===== src/Tests/Openings.antt =====
-- What a connection needs to be opened, and that it is.
use manka_shreds_sdk.Common.{
  ℕ, ◌≡◌, inr, refl, arith, List, [], ◌∷◌, ◌++◌, Option, none, some, Bool, true, false, replicate,
}
use manka_shreds_sdk.Error.{ok}
use manka_shreds_sdk.Bytes.{
  byte, word, window, u32_at, u64_at, array_at, slice, slice?, to_array, byte_at,
}
use manka_shreds_sdk.Handshake.{verify_server, server_proof, proof, same_bytes, of_certificate}
use manka_shreds_sdk.Protocol.Codes.{codec_from_byte}
use manka_shreds_sdk.Protocol.Kinds
use manka_shreds_sdk.Protocol.Kinds.{frame_kind_from_byte, frame_kind_to_byte}
use manka_shreds_sdk.Protocol.Header.{write_frame}
use manka_shreds_sdk.Protocol.Challenge
use manka_shreds_sdk.Protocol.Challenge.{Challenge}
use manka_shreds_sdk.Protocol.HelloAck
use manka_shreds_sdk.Protocol.Dictionary
use manka_shreds_sdk.Protocol.Dictionary.{dictionary_id, hash_bytes, hash_byte, fold_hash}
use manka_shreds_sdk.Client.Session.{Client}
use manka_shreds_sdk.Client.Connect.{
  Link, connect, read_challenge, read_hello_ack, read_dictionary, check_ack, transcript_of,
  keep_held,
}
use manka_shreds_sdk.Client.Connect.Carried.{Carries, behind}
use manka_shreds_sdk.Client.Connect.Returns.{Answers, Sends, connect-returns}
use manka_shreds_sdk.Tests.Connections.{
  digest, keyed_digest, config, binding, nonce, challenge, pinned_text,
}
use manka_shreds_sdk.Tests.Caches.{new_bytes, new_id, insertion_sort, empty_dir}
use manka_shreds_sdk.Tests.Reconnections.{
  ack_bytes, dictionary_bytes, link, new_ack, client, opens_in,
}
use manka_shreds_sdk.Radix.{from_str_radix}
use manka_shreds_sdk.Transport
use manka_shreds_sdk.Transport.{
  Verdict, accepted, mismatch, Verifier, platform_roots, fingerprint, verifier_for,
  verify_server_cert, compare_with, Carrier, quic_streams, channel_binding, clean, is_kept,
  parse_pairs, str_pair, is_char_boundary, or_not_hex,
}
use manka_shreds_sdk.Transport.Opening.{Address, v4, Network, connect_quic, tls_config}
use manka_shreds_sdk.Transport.Opening.Pinned.{IsReadAs, LetsPass, AsksVerifier}
use manka_shreds_sdk.Client.Connect.Authenticated.{IsProven}
use manka_shreds_sdk.Client.Opening.{open_over, open_stream, connect_over, connect_to}
use manka_shreds_sdk.Client.Opening.Pinned.{connect_to-IsProven}

-- The three frames of the server, whole and as the stream carries them
abbrev challenge_bytes : List ℕ
challenge_bytes = write_frame [] Kinds.challenge 0 (replicate 32 9 ++ replicate 32 5)

abbrev stream : List ℕ
stream = [] ++ (challenge_bytes ++ (ack_bytes ++ (dictionary_bytes ++ [])))

carried : Carries link stream
unfolding write_frame Dictionary.write
carried = record {
  pieces = challenge_bytes ∷ ack_bytes ∷ dictionary_bytes ∷ [];
  full = ((λ e. cc), ((λ e. cc), ((λ e. cc), tt)));
  cut = refl;
  bytes = refl;
  writes = refl;
}

sent : Sends none new_id (behind (behind stream))
unfolding byte word window write_frame Dictionary.write frame_kind_to_byte frame_kind_from_byte
    read_dictionary Dictionary.read byte_at u64_at u32_at array_at slice slice? to_array
    dictionary_id hash_bytes hash_byte fold_hash keep_held
sent = record {
  used = λ e. omega arith;
  missing = refl;
  offered = record { id = new_id; bytes = new_bytes };
  third = record { allowed = omega arith; possible = omega arith; whole = omega arith };
  reads_dictionary = refl;
}

answered : Answers digest keyed_digest config none nonce binding stream
unfolding byte word window write_frame frame_kind_to_byte frame_kind_from_byte codec_from_byte
    read_challenge read_hello_ack check_ack byte_at u64_at u32_at array_at slice to_array
    Challenge.read HelloAck.read verify_server same_bytes server_proof proof transcript_of
    dictionary_id hash_bytes hash_byte fold_hash
answered = record {
  challenge = challenge;
  first = record { allowed = omega arith; possible = omega arith; whole = omega arith };
  reads_challenge = refl;
  proven = refl;
  ack = new_ack;
  second = record { allowed = omega arith; possible = omega arith; whole = omega arith };
  reads_ack = refl;
  settled = inr sent;
}

connect-returns_example :
    (client : Client) × (after : Link) × (connect digest keyed_digest config none nonce binding link
      ≡ (ok client, after))
    × Carries after (behind (behind (behind stream)))
    × (client.pending ≡ after.pending)
    × (client.stream ≡ after.stream)
    × ◌≡◌ {A = Option (List ℕ) × Bool}
        (client.dictionary, client.dictionary_was_sent)
        (some new_bytes, true)
unfolding answered sent
connect-returns_example =
    connect-returns digest keyed_digest config none nonce binding link stream carried answered

-- A peer with one certificate, and a handshake that completes when the verifier lets it pass
abbrev leaf : List ℕ
leaf = 1 ∷ []

abbrev shown_if : Verdict → Option (Option (List (List ℕ)))
shown_if accepted = some (some (leaf ∷ []))
shown_if (mismatch actual expected) = none

abbrev shown : Verifier → Option (Option (List (List ℕ)))
shown platform_roots = none
shown (fingerprint server) = shown_if (verify_server_cert digest server leaf)

abbrev home : Address
home = v4 (127 ∷ 0 ∷ 0 ∷ 1 ∷ []) 9100

abbrev network : Network
network = record {
  lookup_host = λ spec. some (home ∷ []);
  elapses = λ seconds addr. false;
  tcp_connect = λ addr. true;
  set_nodelay = λ addr. true;
  with_protocol_versions = true;
  quic_client_config = λ tls. true;
  bind = λ addr. true;
  quic_connect = λ addr name. true;
  quic_handshake = λ tls addr name. shown tls.verifier;
  open_bi = λ addr. true;
}

shown_if-eq-some :
    (verdict : Verdict) (identity : Option (List (List ℕ)))
    → shown_if verdict ≡ some identity
    → (identity ≡ some (leaf ∷ [])) × (verdict ≡ accepted)
shown_if-eq-some accepted identity h = (cc, refl)
shown_if-eq-some (mismatch actual expected) identity h = cc

shown-LetsPass :
    (verifier : Verifier) (identity : Option (List (List ℕ)))
    → shown verifier ≡ some identity
    → (identity ≡ some (leaf ∷ [])) × LetsPass digest verifier leaf
shown-LetsPass platform_roots identity h = cc
shown-LetsPass (fingerprint server) identity h =
    shown_if-eq-some (verify_server_cert digest server leaf) identity h

network-AsksVerifier : AsksVerifier digest network
network-AsksVerifier tls addr name identity h =
    let (same, passes) = shown-LetsPass tls.verifier identity h in (leaf, [], same, passes)

abbrev is_ip : List ℕ → Bool
is_ip text = false

abbrev spec : List ℕ
spec = b'a' ∷ b':' ∷ b'1' ∷ []

opens_stream : open_stream network is_ip spec config ≡ ok (quic_streams (some (leaf ∷ [])))
unfolding open_stream open_over connect_quic tls_config verifier_for Transport.new clean is_kept
    parse_pairs str_pair is_char_boundary or_not_hex from_str_radix verify_server_cert compare_with
    window same_bytes
opens_stream = refl

opens_to :
    (connect_to network is_ip
      (λ carrier. link.stream)
      insertion_sort
      digest
      keyed_digest
      spec
      config
      nonce
      empty_dir).0
    ≡ ok client
unfolding connect_to connect_over channel_binding of_certificate
opens_to = rw opens_stream opens_in

connect_to-IsProven_example :
    (carrier : Carrier) × (d : List ℕ) × (challenge : Challenge) × (open_stream network is_ip spec
        config
      ≡ ok carrier)
    × IsReadAs pinned_text d
    × IsProven digest keyed_digest config nonce (record { bytes = d }) link challenge
connect_to-IsProven_example =
    connect_to-IsProven digest network is_ip (λ carrier. link.stream) insertion_sort keyed_digest
      spec pinned_text config nonce empty_dir client network-AsksVerifier refl refl opens_to
