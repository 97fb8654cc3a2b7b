-- ===== src/Transport.antt =====
-- rust/src/transport.rs: which certificate the client accepts, and what a proof is bound to.
-- The streams are opened in Opening, and read and written in Reading.
pub mod Pinning
pub mod Opening
pub mod Reading
pub mod Relay
use manka_shreds_sdk.Common.{
  ℕ, zero, suc, ◌+◌, ◌*◌, List, [], ◌∷◌, Option, none, some, Bool, true, false, not, ◌&&◌, ◌||◌,
  leb, ltb, ◌==◌, if◌then◌else◌, length, take, drop, get_elem?,
}
use manka_shreds_sdk.Error.{
  Error, Result, ok, err, panic, handshake, fingerprint_length, fingerprint_not_hex, fail_if, ◌>>=◌,
  ◌>>◌,
}
use manka_shreds_sdk.Bytes.{window}
use manka_shreds_sdk.Handshake.{ChannelBinding, unbound, of_certificate, hex, same_bytes}
use manka_shreds_sdk.Radix.{from_str_radix}

-- `Transport`
pub data Transport : Type 0 where
  quic : Transport
  tcp : Transport

-- `ServerVerification`
pub data ServerVerification : Type 0 where
  unchecked : ServerVerification
  web_pki : ServerVerification
  pinned : List ℕ → ServerVerification

-- `PinnedServer`
pub record PinnedServer : Type 0 where
  pub expected : Option (List ℕ)

-- `!matches!(c, ':' | ' ' | '-')`. All three are ASCII, so the bytes of a text are filtered as its
-- characters are.
unfoldable pub is_kept : ℕ → Bool
is_kept c = not ((c == b':') || (c == b' ') || (c == b'-'))

unfoldable pub clean : List ℕ → List ℕ
unfolding is_kept
clean [] = []
clean (c ∷ cs) = if is_kept c then c ∷ clean cs else clean cs

-- `str::is_char_boundary`: the start, the end, and the first byte of a character.
unfoldable pub starts_char : Option ℕ → Bool
starts_char none = false
starts_char (some b) = ltb b 0x80 || leb 0xc0 b

unfoldable pub is_char_boundary : List ℕ → ℕ → Bool
unfolding starts_char
is_char_boundary text i = (i == 0) || (i == length text) || starts_char (get_elem? text i)

-- `&text[at..at + 2]`
unfoldable pub str_pair : List ℕ → ℕ → Result (List ℕ)
unfolding is_char_boundary
str_pair text at =
    if is_char_boundary text at && is_char_boundary text (at + 2)
    then ok (window text at 2)
    else panic

-- `u8::from_str_radix(…, 16).map_err(…)?`
unfoldable pub or_not_hex : Option ℕ → Result ℕ
or_not_hex none = err (handshake fingerprint_not_hex)
or_not_hex (some byte) = ok byte

-- The loop over the bytes of the fingerprint, from `index` on
unfoldable pub parse_pairs : List ℕ → ℕ → ℕ → Result (List ℕ)
unfolding str_pair or_not_hex
parse_pairs cleaned index zero = ok []
parse_pairs cleaned index (suc rounds) = do
  pair ← str_pair cleaned (index * 2)
  byte ← or_not_hex (from_str_radix 256 pair)
  rest ← parse_pairs cleaned (index + 1) rounds
  ok (byte ∷ rest)

-- `PinnedServer::new`
unfoldable pub new : List ℕ → Result PinnedServer
unfolding clean parse_pairs
new fingerprint = do
  let cleaned = clean fingerprint
  fail_if (not (length cleaned == 64)) (handshake (fingerprint_length (length cleaned)))
  expected ← parse_pairs cleaned 0 32
  ok (record { expected = some expected })

-- `PinnedServer::any`
unfoldable pub any : PinnedServer
any = record { expected = none }

-- What a verifier answers; a mismatch names both fingerprints.
pub data Verdict : Type 0 where
  accepted : Verdict
  mismatch : List ℕ → List ℕ → Verdict

unfoldable pub compare_with : List ℕ → Option (List ℕ) → Verdict
compare_with actual none = accepted
compare_with actual (some expected) =
    if same_bytes actual expected then accepted else mismatch (hex actual) (hex expected)

-- `verify_tls12_signature` and `verify_tls13_signature`: whether a signature under a certificate over the
-- messages of a TLS handshake is accepted
unfoldable pub verify_tls12_signature : List ℕ → List ℕ → List ℕ → Bool
verify_tls12_signature message cert dss = false

unfoldable pub verify_tls13_signature : List ℕ → List ℕ → List ℕ → Bool
verify_tls13_signature message cert dss = true

-- Which verifier `connect_quic` installs: that of the platform's roots, or one of these.
pub data Verifier : Type 0 where
  platform_roots : Verifier
  fingerprint : PinnedServer → Verifier

unfoldable pub verifier_for : ServerVerification → Result Verifier
unfolding new any
verifier_for unchecked = ok (fingerprint any)
verifier_for web_pki = ok platform_roots
verifier_for (pinned text) = do server ← new text; ok (fingerprint server)

-- `Wire`, as far as its certificates go: QUIC may know the chain of the peer's certificates.
pub data Carrier : Type 0 where
  tcp_stream : Carrier
  quic_streams : Option (List (List ℕ)) → Carrier

module _ (sha256 : List ℕ → List ℕ) where
  -- `PinnedServer::verify_server_cert`
  unfoldable pub verify_server_cert : PinnedServer → List ℕ → Verdict
  unfolding compare_with
  verify_server_cert self end_entity = compare_with (sha256 end_entity) self.expected

  -- `fingerprint_of`
  unfoldable pub fingerprint_of : List ℕ → List ℕ
  fingerprint_of der = hex (sha256 der)

  -- `Wire::channel_binding`
  unfoldable pub channel_binding : Carrier → ChannelBinding
  channel_binding tcp_stream = unbound
  channel_binding (quic_streams none) = unbound
  channel_binding (quic_streams (some [])) = unbound
  channel_binding (quic_streams (some (leaf ∷ chain))) = of_certificate sha256 leaf
