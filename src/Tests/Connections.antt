-- ===== src/Tests/Connections.antt =====
-- A connection to a server that proves itself and sends its dictionary.
use manka_shreds_sdk.Common.{ℕ, ◌≡◌, refl, List, [], ◌∷◌, ◌++◌, none, some, true, false, replicate}
use manka_shreds_sdk.Error.{ok}
use manka_shreds_sdk.Bytes.{to_le, u32_at, u64_at, array_at, slice, to_array, byte_at}
use manka_shreds_sdk.Handshake.{
  ChannelBinding, Transcript, verify_server, server_proof, proof, same_bytes,
}
use manka_shreds_sdk.Protocol.Codes.{zstd, codec_from_byte}
use manka_shreds_sdk.Protocol.Kinds
use manka_shreds_sdk.Protocol.Kinds.{frame_kind_from_byte, frame_kind_to_byte}
use manka_shreds_sdk.Protocol.Header.{write_frame, read_frame_header}
use manka_shreds_sdk.Protocol.Challenge
use manka_shreds_sdk.Protocol.HelloAck
use manka_shreds_sdk.Client.Wire.{received, read_frame, frame_ready, write_all}
use manka_shreds_sdk.Client.Session.{Client}
use manka_shreds_sdk.Transport.{quic, pinned}
use manka_shreds_sdk.Handshake.{codes}
use manka_shreds_sdk.Client.Config.{Config}
use manka_shreds_sdk.Client.Connect.{
  Link, connect, hello_frame, send, authenticate, receive, take_payload, read_challenge,
  read_hello_ack, check_ack, transcript_of, prove, prove_frame, max_handshake_bytes, acknowledge,
  settle_dictionary, keep_held, connected,
}
use manka_shreds_sdk.Client.Connect.Proven.{SentSafely, connect-SentSafely}
use manka_shreds_sdk.Client.Connect.Agreed.{Agrees, connect-Agrees}

abbrev pub digest : List ℕ → List ℕ
digest m = replicate 32 6

abbrev pub keyed_digest : List ℕ → List ℕ → List ℕ
keyed_digest key m = replicate 32 5

-- The digest of every certificate, as it is printed
abbrev pub pinned_text : List ℕ
pinned_text = codes "0606060606060606060606060606060606060606060606060606060606060606"

abbrev pub config : Config
config = record {
  transport = quic;
  verification = pinned pinned_text;
  server_name = none;
  dictionary = none;
  dictionary_cache = some (47 ∷ 99 ∷ []);
  connect_timeout = 10;
  secret = 1 ∷ 2 ∷ 3 ∷ [];
  streams = record { bits = 1 };
  unpack_lookups = true;
  filter = none;
  max_message_bytes = 1000;
}

abbrev pub binding : ChannelBinding
binding = record { bytes = replicate 32 6 }

abbrev ack_bytes : List ℕ
ack_bytes =
    write_frame [] Kinds.hello_ack 0
      (to_le 2 1 ++ to_le 4 1 ++ to_le 8 77 ++ (2 ∷ 0 ∷ []) ++ to_le 2 5000 ++ to_le 4 0)

-- The challenge, and the acknowledgement of version 1, zstd and no dictionary
abbrev link : Link
link = record {
  stream = record {
    incoming =
        received (write_frame [] Kinds.challenge 0 (replicate 32 9 ++ replicate 32 5))
        ∷ received (
            write_frame [] Kinds.hello_ack 0
              (to_le 2 1 ++ to_le 4 1 ++ to_le 8 77 ++ (2 ∷ 0 ∷ []) ++ to_le 2 5000 ++ to_le 4 0))
        ∷ [];
    sent = [];
    write_failures = [];
  };
  pending = [];
  stored = [];
}

abbrev pub nonce : List ℕ
nonce = replicate 32 200

abbrev pub hello_sent : List ℕ
hello_sent = [] ++ hello_frame digest keyed_digest config none nonce

abbrev pub challenge : Challenge.Challenge
challenge = record { server_nonce = replicate 32 9; proof = record { bytes = replicate 32 5 } }

abbrev pub transcript : Transcript
transcript = transcript_of digest keyed_digest config nonce binding challenge

abbrev pub proof_sent : List ℕ
proof_sent = hello_sent ++ prove_frame digest keyed_digest config transcript

abbrev pub ack : HelloAck.HelloAck
ack = record {
  protocol_version = 1;
  granted = record { bits = 1 };
  session_id = 77;
  codec = zstd;
  keepalive_ms = 5000;
  dictionary_id = 0;
}

-- The connection with the second frame still to come, and with none
abbrev waiting : List ℕ → Link
waiting sent = record {
  stream = record { incoming = received ack_bytes ∷ []; sent = sent; write_failures = [] };
  pending = [];
  stored = [];
}

abbrev settled : Link
settled = record {
  stream = record { incoming = []; sent = proof_sent; write_failures = [] };
  pending = [];
  stored = [];
}

abbrev opened_client : Client
opened_client = connected config ack (none, false) settled

sends :
    send (hello_frame digest keyed_digest config none nonce) link
    ≡ (ok tt, record link { stream = record link.stream { sent = hello_sent } })
unfolding send write_all
sends = refl

is_challenged :
    receive read_challenge max_handshake_bytes
      (record link { stream = record link.stream { sent = hello_sent } })
    ≡ (ok challenge, waiting hello_sent)
unfolding receive take_payload read_frame frame_ready read_challenge read_frame_header write_frame
    byte_at u64_at array_at slice to_array frame_kind_from_byte frame_kind_to_byte codec_from_byte
    Challenge.read
is_challenged = refl

proves :
    prove digest keyed_digest config transcript challenge (waiting hello_sent)
    ≡ (ok tt, waiting proof_sent)
unfolding prove verify_server same_bytes server_proof proof send write_all
proves = refl

is_acknowledged :
    receive read_hello_ack max_handshake_bytes (waiting proof_sent) ≡ (ok ack, settled)
unfolding receive take_payload read_frame frame_ready read_hello_ack check_ack read_frame_header
    write_frame byte_at u64_at u32_at array_at slice to_array frame_kind_from_byte
    frame_kind_to_byte codec_from_byte HelloAck.read
is_acknowledged = refl

opens : (connect digest keyed_digest config none nonce binding link).0 ≡ ok opened_client
unfolding connect authenticate acknowledge keep_held settle_dictionary
opens = rw (sends, is_challenged, proves, is_acknowledged) refl

connect-SentSafely_example :
    SentSafely digest keyed_digest config none nonce binding link
      (connect digest keyed_digest config none nonce binding link).1.stream.sent
connect-SentSafely_example = connect-SentSafely digest keyed_digest config none nonce binding link

connect-Agrees_example :
    (opened_client.ack.codec ≡ zstd)
    × (opened_client.ack.protocol_version ≡ 1)
    × Agrees opened_client.ack.dictionary_id opened_client.dictionary
connect-Agrees_example =
    connect-Agrees digest keyed_digest config none nonce binding link opened_client opens
