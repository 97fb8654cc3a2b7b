-- ===== src/Client/Connect.antt =====
-- rust/src/client.rs: `Client::connect`, from the open stream on.
-- What is resolved, opened and read before is given: the stream, the binding to its certificate, the
-- dictionary held, the nonce. A read that times out is one of the stream's failures.
pub mod Proven
pub mod Agreed
pub mod Caching
pub mod Authenticated
pub mod Carried
pub mod Returns
use manka_shreds_sdk.Common.{
  ℕ, ◌+◌, ◌*◌, List, [], ◌∷◌, Option, none, some, Bool, true, false, not, ◌&&◌, ◌==◌, if◌then◌else◌,
  drop,
}
use manka_shreds_sdk.Error.{
  Error, Result, ok, err, panic, server, version, handshake, compression_required,
  expected_challenge, expected_hello_ack, expected_dictionary, dictionary_mismatch, server_unproven,
  fail_if, ◌>>=◌, ◌>>◌,
}
use manka_shreds_sdk.Bytes.{slice}
use manka_shreds_sdk.Handshake.{ChannelBinding, Transcript, key_ref_of, client_proof, verify_server}
use manka_shreds_sdk.Protocol.Codes.{Codec, uncompressed, lz4, zstd}
use manka_shreds_sdk.Protocol.Kinds
use manka_shreds_sdk.Protocol.Kinds.{FrameKind}
use manka_shreds_sdk.Protocol.StreamMask.{StreamMask}
use manka_shreds_sdk.Protocol.Header.{FrameHeader, frame_header_len, write_frame}
use manka_shreds_sdk.Protocol.Hello
use manka_shreds_sdk.Protocol.Hello.{protocol_version}
use manka_shreds_sdk.Protocol.Prove
use manka_shreds_sdk.Protocol.Challenge
use manka_shreds_sdk.Protocol.Challenge.{Challenge}
use manka_shreds_sdk.Protocol.HelloAck
use manka_shreds_sdk.Protocol.HelloAck.{HelloAck}
use manka_shreds_sdk.Protocol.ErrorMessage
use manka_shreds_sdk.Protocol.Dictionary
use manka_shreds_sdk.Protocol.Dictionary.{Dictionary, dictionary_id, max_dictionary_bytes}
use manka_shreds_sdk.Client.Wire.{Wire, write_all, read_frame}
use manka_shreds_sdk.Client.Session.{Client}
use manka_shreds_sdk.Client.Config.{Config}

-- The locals `stream` and `pending`, and the dictionaries that were handed to the cache.
pub record Link : Type 0 where
  pub stream : Wire
  pub pending : List ℕ
  pub stored : List Dictionary

-- `MAX_HANDSHAKE_BYTES`
abbrev pub max_handshake_bytes : ℕ
max_handshake_bytes = 64 * 1024

-- The `?` behind a step
abbrev pub and_then {ℓ κ} :
    {A : Type ℓ} {B : Type κ} → Result A × Link → (A → Link → Result B × Link) → Result B × Link
and_then (ok a, link) f = f a link
and_then (err e, link) f = (err e, link)
and_then (panic, link) f = (panic, link)

-- `stream.write_all(&frame).await?`
unfoldable pub send : List ℕ → Link → Result (Unit {0}) × Link
send frame link =
    let (answer, stream) = write_all link.stream frame in (answer, record link { stream = stream })

-- The payload of a frame at hand, decoded and drained. Where it is refused the stream is given up, so
-- that it is drained there too makes no difference.
unfoldable pub take_payload {ℓ} :
    {A : Type ℓ} → (FrameKind → List ℕ → Result A) → Result FrameHeader → Link → Result A × Link
take_payload decode (ok header) link = (
  (do
    payload ← slice link.pending frame_header_len (frame_header_len + header.len)
    decode header.kind payload),
  record link { pending = drop (frame_header_len + header.len) link.pending },
)
take_payload decode (err e) link = (err e, link)
take_payload decode panic link = (panic, link)

-- `read_frame`, and what is done with the payload
unfoldable pub receive {ℓ} :
    {A : Type ℓ} → (FrameKind → List ℕ → Result A) → ℕ → Link → Result A × Link
unfolding take_payload
receive decode limit link =
    let framed = read_frame limit link.pending link.stream.incoming in
    take_payload decode framed.answer (record link {
      stream = record link.stream { incoming = framed.incoming };
      pending = framed.pending;
    })

-- `FrameKind::Error => { … }`
unfoldable pub server_error {ℓ} : {A : Type ℓ} → List ℕ → Result A
server_error payload = do e ← ErrorMessage.read payload; err (server e.code e.detail)

unfoldable pub read_challenge : FrameKind → List ℕ → Result Challenge
unfolding server_error
read_challenge Kinds.challenge payload = Challenge.read payload
read_challenge Kinds.error payload = server_error payload
read_challenge other payload = err (handshake (expected_challenge other))

-- The version and the codec of an acknowledgement
unfoldable pub check_ack : HelloAck → Codec → Result HelloAck
check_ack ack zstd =
    if ack.protocol_version == protocol_version
    then ok ack
    else err (version ack.protocol_version protocol_version)
check_ack ack codec =
    if ack.protocol_version == protocol_version
    then err (compression_required codec)
    else err (version ack.protocol_version protocol_version)

unfoldable pub read_hello_ack : FrameKind → List ℕ → Result HelloAck
unfolding server_error check_ack
read_hello_ack Kinds.hello_ack payload = do ack ← HelloAck.read payload; check_ack ack ack.codec
read_hello_ack Kinds.error payload = server_error payload
read_hello_ack other payload = err (handshake (expected_hello_ack other))

-- The dictionary that was announced as `id`
unfoldable pub read_dictionary : ℕ → FrameKind → List ℕ → Result Dictionary
unfolding server_error
read_dictionary id Kinds.dictionary payload = do
  offered ← Dictionary.read payload
  let actual = dictionary_id offered.bytes
  fail_if (not ((offered.id == id) && (actual == id)))
      (handshake (dictionary_mismatch id offered.id actual))
  ok offered
read_dictionary id Kinds.error payload = server_error payload
read_dictionary id other payload = err (handshake (expected_dictionary id other))

-- `held.as_ref().map_or(0, …)`
unfoldable pub offered_id : Option (List ℕ) → ℕ
offered_id none = 0
offered_id (some dictionary) = dictionary_id dictionary

-- `Option::is_some`
abbrev pub is_some {ℓ} : {A : Type ℓ} → Option A → Bool
is_some none = false
is_some (some a) = true

-- `held.filter(…)`: the dictionary held, if the server uses it.
unfoldable pub keep_held : Option (List ℕ) → ℕ → Option (List ℕ)
keep_held none id = none
keep_held (some dictionary) id =
    if not (id == 0) && (id == dictionary_id dictionary) then some dictionary else none

-- `cache.store(…)`, where there is a cache
unfoldable pub store : Config → Dictionary → Link → Link
store config offered link =
    if is_some config.dictionary_cache then record link { stored = offered ∷ link.stored } else link

-- The dictionary of the connection, and whether the server sent it
unfoldable pub settle_dictionary :
    Config → Option (List ℕ) → ℕ → Link → Result (Option (List ℕ) × Bool) × Link
unfolding store receive read_dictionary
settle_dictionary config (some dictionary) id link = (ok (some dictionary, false), link)
settle_dictionary config none id link =
    if id == 0
    then (ok (none, false), link)
    else and_then (receive (read_dictionary id) (8 + max_dictionary_bytes) link)
        (λ offered link. (ok (some offered.bytes, true), store config offered link))

-- The client that `connect` returns
unfoldable pub connected : Config → HelloAck → Option (List ℕ) × Bool → Link → Client
connected config ack (dictionary, was_sent) link = record {
  stream = link.stream;
  ack = ack;
  dictionary = dictionary;
  dictionary_active = is_some dictionary;
  dictionary_was_sent = was_sent;
  max_message_bytes = config.max_message_bytes;
  pending = link.pending;
  frame = [];
  expected_seq = 0;
  gaps = 0;
  wire_bytes = 0;
  decoded_bytes = 0;
}

-- What follows this side's proof: the acknowledgement and the dictionary
unfoldable pub acknowledge : Config → Option (List ℕ) → Link → Result Client × Link
unfolding receive settle_dictionary keep_held connected
acknowledge config held link =
    and_then (receive read_hello_ack max_handshake_bytes link) (λ ack link.
      and_then (settle_dictionary config (keep_held held ack.dictionary_id) ack.dictionary_id link)
        (λ settled link. (ok (connected config ack settled link), link)))

module _ (sha256 : List ℕ → List ℕ) (hmac : List ℕ → List ℕ → List ℕ) where
  -- The first frame: what this client offers.
  unfoldable pub hello_frame : Config → Option (List ℕ) → List ℕ → List ℕ
  unfolding offered_id
  hello_frame config held client_nonce = write_frame [] Kinds.hello 0 (
      Hello.write
        (record {
          streams = config.streams;
          codecs = 4;
          key_ref = key_ref_of sha256 config.secret;
          client_nonce = client_nonce;
          capabilities = record { bits = if config.unpack_lookups then 3 else 1 };
          dictionary_id = offered_id held;
          filter = config.filter;
        })
        [])

  unfoldable pub transcript_of : Config → List ℕ → ChannelBinding → Challenge → Transcript
  transcript_of config client_nonce binding challenge = record {
    key_ref = key_ref_of sha256 config.secret;
    client_nonce = client_nonce;
    server_nonce = challenge.server_nonce;
    binding = binding;
  }

  unfoldable pub prove_frame : Config → Transcript → List ℕ
  prove_frame config transcript =
      write_frame [] Kinds.prove 0
        (Prove.write (record { proof = client_proof hmac transcript config.secret }) [])

  -- The server's proof is checked, and only then is one of this side's sent.
  unfoldable pub prove : Config → Transcript → Challenge → Link → Result (Unit {0}) × Link
  unfolding prove_frame send
  prove config transcript challenge link =
      if verify_server hmac transcript config.secret challenge.proof
      then send (prove_frame config transcript) link
      else (err (handshake server_unproven), link)

  -- The challenge, and what is made of it
  unfoldable pub authenticate : Config → List ℕ → ChannelBinding → Link → Result (Unit {0}) × Link
  unfolding transcript_of prove receive
  authenticate config client_nonce binding link =
      and_then (receive read_challenge max_handshake_bytes link) (λ challenge link.
        prove config (transcript_of config client_nonce binding challenge) challenge link)

  -- `Client::connect`
  unfoldable pub connect :
      Config → Option (List ℕ) → List ℕ → ChannelBinding → Link → Result Client × Link
  unfolding hello_frame send authenticate acknowledge
  connect config held client_nonce binding link =
      and_then (send (hello_frame config held client_nonce) link) (λ _ link.
        and_then (authenticate config client_nonce binding link)
          (λ _ link. acknowledge config held link))
