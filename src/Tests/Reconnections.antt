-- ===== src/Tests/Reconnections.antt =====
-- A connection with an empty cache to a server that sends its dictionary.
use manka_shreds_sdk.Common.{ℕ, ◌+◌, ◌≡◌, refl, List, [], ◌∷◌, ◌++◌, none, some, true, replicate}
use manka_shreds_sdk.Error.{ok}
use manka_shreds_sdk.Bytes.{to_le, u32_at, u64_at, array_at, slice, to_array, byte_at, slice?}
use manka_shreds_sdk.Handshake.{verify_server, server_proof, proof, same_bytes}
use manka_shreds_sdk.Protocol.Codes.{codec_from_byte}
use manka_shreds_sdk.Protocol.Kinds
use manka_shreds_sdk.Protocol.Kinds.{frame_kind_from_byte, frame_kind_to_byte}
use manka_shreds_sdk.Protocol.Header.{write_frame, read_frame_header}
use manka_shreds_sdk.Protocol.Challenge
use manka_shreds_sdk.Protocol.HelloAck
use manka_shreds_sdk.Protocol.Dictionary
use manka_shreds_sdk.Protocol.Dictionary.{
  dictionary_id, hash_bytes, hash_byte, fold_hash, max_dictionary_bytes,
}
use manka_shreds_sdk.DictionaryCache.{newest, entries, entries_of, load_first}
use manka_shreds_sdk.DictionaryCache.Files.{
  read_dir, answer_list, call, first_answer, other_answers,
}
use manka_shreds_sdk.DictionaryCache.Kept.{IsIntact}
use manka_shreds_sdk.Client.Wire.{received, read_frame, frame_ready, write_all}
use manka_shreds_sdk.Client.Session.{Client}
use manka_shreds_sdk.Client.Connect.{
  Link, connect, hello_frame, send, authenticate, receive, take_payload, read_challenge,
  read_hello_ack, read_dictionary, check_ack, prove, max_handshake_bytes, acknowledge,
  settle_dictionary, keep_held, connected, store,
}
use manka_shreds_sdk.Client.Connect.Caching.{held_in, connect_in}
use manka_shreds_sdk.Client.Connect.Caching.Intact.{connect_in-IsIntact}
use manka_shreds_sdk.Client.Connect.Caching.Reconnect.{connect_in-held_in}
use manka_shreds_sdk.Tests.Connections.{
  digest, keyed_digest, config, binding, nonce, hello_sent, proof_sent, challenge, transcript, ack,
}
use manka_shreds_sdk.Tests.Caches.{
  insertion_sort, sorts, new_bytes, new_id, empty_dir, IsIntact-start,
}

abbrev pub ack_bytes : List ℕ
ack_bytes =
    write_frame [] Kinds.hello_ack 0
      (to_le 2 1 ++ to_le 4 1 ++ to_le 8 77 ++ (2 ∷ 0 ∷ []) ++ to_le 2 5000 ++ to_le 4 new_id)

abbrev pub dictionary_bytes : List ℕ
dictionary_bytes =
    write_frame [] Kinds.dictionary 0
      (Dictionary.write (record { id = new_id; bytes = new_bytes }) [])

-- The link with the frames from the challenge, from the acknowledgement and from the dictionary on
abbrev pub link : Link
link = record {
  stream = record {
    incoming =
        received (write_frame [] Kinds.challenge 0 (replicate 32 9 ++ replicate 32 5))
        ∷ received ack_bytes
        ∷ received dictionary_bytes
        ∷ [];
    sent = [];
    write_failures = [];
  };
  pending = [];
  stored = [];
}

abbrev waiting : List ℕ → Link
waiting sent = record {
  stream = record {
    incoming = received ack_bytes ∷ received dictionary_bytes ∷ [];
    sent = sent;
    write_failures = [];
  };
  pending = [];
  stored = [];
}

abbrev acknowledged : Link
acknowledged = record {
  stream = record {
    incoming = received dictionary_bytes ∷ [];
    sent = proof_sent;
    write_failures = [];
  };
  pending = [];
  stored = [];
}

abbrev settled : Link
settled = record acknowledged { stream = record acknowledged.stream { incoming = [] } }

abbrev pub new_ack : HelloAck.HelloAck
new_ack = record ack { dictionary_id = new_id }

abbrev pub client : Client
client = connected config new_ack (some new_bytes, true) settled

sends :
    send (hello_frame digest keyed_digest config none nonce) link
    ≡ (ok tt, record link { stream = record link.stream { sent = hello_sent } })
unfolding send write_all
sends = refl

is_challenged :
    receive read_challenge max_handshake_bytes
      (record link { stream = record link.stream { sent = hello_sent } })
    ≡ (ok challenge, waiting hello_sent)
unfolding receive take_payload read_frame frame_ready read_challenge read_frame_header write_frame
    byte_at u64_at array_at slice to_array frame_kind_from_byte frame_kind_to_byte codec_from_byte
    Challenge.read
is_challenged = refl

proves :
    prove digest keyed_digest config transcript challenge (waiting hello_sent)
    ≡ (ok tt, waiting proof_sent)
unfolding prove verify_server same_bytes server_proof proof send write_all
proves = refl

is_acknowledged :
    receive read_hello_ack max_handshake_bytes (waiting proof_sent) ≡ (ok new_ack, acknowledged)
unfolding receive take_payload read_frame frame_ready read_hello_ack check_ack read_frame_header
    write_frame byte_at u64_at u32_at array_at slice to_array frame_kind_from_byte
    frame_kind_to_byte codec_from_byte HelloAck.read dictionary_id hash_bytes hash_byte fold_hash
is_acknowledged = refl

is_sent :
    receive (read_dictionary new_id) (8 + max_dictionary_bytes) acknowledged
    ≡ (ok (record { id = new_id; bytes = new_bytes }), settled)
unfolding receive take_payload read_frame frame_ready read_dictionary read_frame_header write_frame
    byte_at u64_at u32_at array_at slice to_array frame_kind_from_byte frame_kind_to_byte
    codec_from_byte Dictionary.read Dictionary.write dictionary_id hash_bytes hash_byte fold_hash
    slice?
is_sent = refl

opens : (connect digest keyed_digest config none nonce binding link).0 ≡ ok client
unfolding connect authenticate acknowledge keep_held settle_dictionary store dictionary_id
    hash_bytes hash_byte fold_hash
opens = rw (sends, is_challenged, proves, is_acknowledged, is_sent) refl

pub opens_in :
    (connect_in insertion_sort digest keyed_digest config nonce binding link empty_dir).0.0
    ≡ ok client
unfolding connect_in held_in newest entries entries_of read_dir answer_list call first_answer
    other_answers insertion_sort load_first
opens_in = opens

connect_in-IsIntact_example :
    IsIntact (connect_in insertion_sort digest keyed_digest config nonce binding link empty_dir).1
connect_in-IsIntact_example =
    connect_in-IsIntact insertion_sort digest keyed_digest config nonce binding link empty_dir
      IsIntact-start

connect_in-held_in_example :
    ((held_in insertion_sort none config.dictionary_cache
        (connect_in insertion_sort digest keyed_digest config nonce binding link empty_dir).1).0
      ≡ client.dictionary)
    × (keep_held client.dictionary client.ack.dictionary_id ≡ client.dictionary)
unfolding held_in newest entries entries_of read_dir answer_list call first_answer other_answers
    insertion_sort load_first connected
connect_in-held_in_example =
    connect_in-held_in insertion_sort sorts digest keyed_digest config nonce binding link empty_dir
      client refl refl refl refl tt opens_in refl
