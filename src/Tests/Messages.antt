-- ===== src/Tests/Messages.antt =====
-- The control messages and the events, on concrete input.
use manka_shreds_sdk.Common.{
  ℕ, ◌^◌, ◌<◌, ◌≡◌, ◌≢◌, refl, arith, List, [], ◌∷◌, ◌++◌, some, true, false, replicate, ◌↔◌, ltb,
  if◌then◌else◌,
}
use manka_shreds_sdk.Error.{ok, err, handshake, dictionary_too_large, truncated, frame_too_large}
use manka_shreds_sdk.Bytes.{word}
use manka_shreds_sdk.Handshake.{Transcript, verify_server, server_proof}
use manka_shreds_sdk.Handshake.Proofs.{verify_server-relayed}
use manka_shreds_sdk.Protocol.Codes
use manka_shreds_sdk.Protocol.Kinds
use manka_shreds_sdk.Protocol.Kinds.{frame_kind_from_byte, frame_kind_to_byte}
use manka_shreds_sdk.Protocol.FilterMask.{FilterMask, iter}
use manka_shreds_sdk.Protocol.Header.{read_frame_header, write_frame, max_frame_payload}
use manka_shreds_sdk.Protocol.Header.Decode.{header_at, read_frame_header_lem}
use manka_shreds_sdk.Protocol.Header.RoundTrip.{read-write_frame}
use manka_shreds_sdk.Protocol.Dictionary
use manka_shreds_sdk.Protocol.Dictionary.{Dictionary, dictionary_id, max_dictionary_bytes}
use manka_shreds_sdk.Protocol.Dictionary.Decode.{read-write}
use manka_shreds_sdk.Protocol.Dictionary.Hash.{dictionary_id_range}
use manka_shreds_sdk.Protocol.Hello
use manka_shreds_sdk.Protocol.Hello.{Hello}
use manka_shreds_sdk.Protocol.Hello.Layout.{parse, parse-write}
use manka_shreds_sdk.Protocol.Challenge
use manka_shreds_sdk.Protocol.HelloAck.{HelloAck}
use manka_shreds_sdk.Events.SlotEnd.{SlotEnd}
use manka_shreds_sdk.Events.RawShred.{RawShred}
use manka_shreds_sdk.Client.Json.{escape_json}
use manka_shreds_sdk.Client.Json.Reading.{plain, read_literal, read_literal-escape_json}

lag_byte : frame_kind_from_byte 8 ≢ Kinds.unknown
unfolding frame_kind_from_byte
lag_byte e = cc

-- The filters 0, 3 and 15
abbrev three_filters : FilterMask
three_filters = record { bits = 32777 }

iter-three_filters : iter three_filters ≡ 0 ∷ 3 ∷ 15 ∷ []
unfolding iter
iter-three_filters = refl

read-write_frame_example :
    read_frame_header (write_frame [] Kinds.set_filter 7 (1 ∷ 2 ∷ 3 ∷ []) ++ (9 ∷ []))
    ≡ ok (record {
      len = 3;
      kind = Kinds.set_filter;
      raw_kind = frame_kind_to_byte Kinds.set_filter;
      compressed = false;
      codec = Codes.uncompressed;
      matched = record { bits = 0 };
      seq = 7;
    })
read-write_frame_example =
    read-write_frame Kinds.set_filter 7 (1 ∷ 2 ∷ 3 ∷ []) (9 ∷ []) (omega arith) (omega arith)

read_frame_header_lem_example : read_frame_header (replicate 15 0) ≡ (
    if ltb 15 16
    then err (truncated "frame header" 16 15)
    else if ltb max_frame_payload (word (replicate 15 0) 0 4)
    then err (frame_too_large (word (replicate 15 0) 0 4))
    else ok (header_at (replicate 15 0)))
read_frame_header_lem_example = read_frame_header_lem (replicate 15 0)

abbrev dictionary : Dictionary
dictionary = record { id = 77; bytes = 5 ∷ 6 ∷ 7 ∷ [] }

read-write_example : Dictionary.read (Dictionary.write dictionary [] ++ (1 ∷ [])) ≡ (
    if ltb max_dictionary_bytes 3 then err (handshake (dictionary_too_large 3)) else ok dictionary)
read-write_example = read-write dictionary (1 ∷ []) (omega arith) (omega arith)

broken_off :
    Dictionary.write dictionary [] ≡ (77 ∷ 0 ∷ 0 ∷ 0 ∷ 3 ∷ 0 ∷ 0 ∷ 0 ∷ 5 ∷ []) ++ (6 ∷ 7 ∷ [])
unfolding Dictionary.write
broken_off = refl

abbrev two_bytes : List ℕ
two_bytes = 1 ∷ 2 ∷ []

dictionary_id_range_example :
    (dictionary_id two_bytes < 2 ^ 32) × ((dictionary_id two_bytes ≡ 0) ↔ (two_bytes ≡ []))
dictionary_id_range_example = dictionary_id_range two_bytes

abbrev greeting : Hello
greeting = record {
  streams = record { bits = 3 };
  codecs = 4;
  capabilities = record { bits = 1 };
  key_ref = record { bytes = replicate 32 17 };
  client_nonce = replicate 32 200;
  dictionary_id = 77;
  filter = some (b'{' ∷ b'}' ∷ []);
}

parse-write_example : parse (Hello.write greeting []) ≡ greeting
parse-write_example = parse-write greeting (record {
  streams = omega arith;
  codecs = omega arith;
  capabilities = omega arith;
  key_ref = refl;
  client_nonce = refl;
  dictionary_id = omega arith;
  filter = omega arith;
})

abbrev challenge : Challenge.Challenge
challenge = record { server_nonce = replicate 32 9; proof = record { bytes = replicate 32 4 } }

abbrev acknowledged : HelloAck
acknowledged = record {
  protocol_version = 1;
  granted = record { bits = 3 };
  session_id = 70000;
  codec = Codes.zstd;
  keepalive_ms = 5000;
  dictionary_id = 77;
}

abbrev ended : SlotEnd
ended = record {
  slot = 1000;
  parent_slot = 999;
  data_shreds = 640;
  fec_sets = 20;
  recovered_sets = 1;
  missing_shreds = 0;
  end_ts_ns = 123456789;
  complete = true;
}

abbrev shred : RawShred
shred = record {
  slot = 1000;
  index = 3;
  fec_set_index = 32;
  rx_ts_ns = 123456789;
  source = 2;
  is_data = true;
  bytes = 1 ∷ 2 ∷ 3 ∷ [];
}

read_literal-escape_json_example :
    (literal : List ℕ) × (escape_json (b'a' ∷ 10 ∷ b'"' ∷ 7 ∷ []) (b':' ∷ []) ++ (b',' ∷ [])
      ≡ (b':' ∷ []) ++ (b'"' ∷ literal))
    × (read_literal plain literal ≡ some (b'a' ∷ 10 ∷ b'"' ∷ 7 ∷ [], b',' ∷ []))
read_literal-escape_json_example =
    read_literal-escape_json (b'a' ∷ 10 ∷ b'"' ∷ 7 ∷ []) (b':' ∷ []) (b',' ∷ [])

-- A code that puts the key before the message, in the place of HMAC
abbrev prefix_code : List ℕ → List ℕ → List ℕ
prefix_code key m = key ++ m

abbrev transcript : Transcript
transcript = record {
  key_ref = record { bytes = replicate 32 17 };
  client_nonce = replicate 32 200;
  server_nonce = replicate 32 9;
  binding = record { bytes = replicate 32 1 };
}

-- The same greeting through a relay: another certificate
abbrev relayed : Transcript
relayed = record transcript { binding = record { bytes = replicate 32 2 } }

relayed_differs : transcript ≢ relayed
relayed_differs e = cc

tells_apart : (m n : List ℕ) → prefix_code (4 ∷ 2 ∷ []) m ≡ prefix_code (4 ∷ 2 ∷ []) n → m ≡ n
tells_apart m n e = cc

verify_server-relayed_example :
    verify_server prefix_code transcript
      (4 ∷ 2 ∷ [])
      (server_proof prefix_code relayed (4 ∷ 2 ∷ []))
    ≡ false
verify_server-relayed_example =
    verify_server-relayed prefix_code transcript relayed (4 ∷ 2 ∷ []) (tells_apart _ _)
      (record { key_ref = refl; client_nonce = refl; server_nonce = refl; binding = refl })
      (record { key_ref = refl; client_nonce = refl; server_nonce = refl; binding = refl })
      relayed_differs
