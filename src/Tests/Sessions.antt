-- ===== src/Tests/Sessions.antt =====
-- Calls of `next_event` on streams that arrive in pieces.
use manka_shreds_sdk.Common.{
  ℕ, ◌+◌, ◌≡◌, ◌≢◌, refl, arith, List, [], ◌∷◌, ◌++◌, Option, none, some, map, drop, false, All,
}
use manka_shreds_sdk.Error.{ok, err, panic, decompress}
use manka_shreds_sdk.Bytes.{word, window, byte}
use manka_shreds_sdk.Protocol.Codes.{zstd, codec_from_byte}
use manka_shreds_sdk.Protocol.Kinds
use manka_shreds_sdk.Protocol.Kinds.{frame_kind_from_byte}
use manka_shreds_sdk.Protocol.Header.Decode.{header_at}
use manka_shreds_sdk.Client.Wire.{received, frame_ready}
use manka_shreds_sdk.Client.Wire.Framing.{
  frame_ready_lem, all_bytes, StartsFrame, Finds, read_frame-Finds,
}
use manka_shreds_sdk.Client.Session.{Client, ping, add_u64, dispatch, next_event}
use manka_shreds_sdk.Client.Session.Decoding.{next_event-ne-panic}
use manka_shreds_sdk.Client.Session.Delivery.{
  taken, next_event-uncompressed, next_event-ping, next_event-refused,
}
use manka_shreds_sdk.Client.Session.Progress.{Counts, bytes_left, next_event-Counts}
use manka_shreds_sdk.Client.Session.Sequence.{Increasing, count_gaps, count_gaps_lem}

-- A ping frame of number 4, cut within its header, with three bytes behind it.
abbrev pieces : List (List ℕ)
pieces = (13 ∷ 0 ∷ 0 ∷ 0 ∷ 0 ∷ []) ∷ (4 ∷ 0 ∷ 0 ∷ 0 ∷ 0 ∷ 0 ∷ 0 ∷ 0 ∷ 1 ∷ 2 ∷ 3 ∷ []) ∷ []

pieces_full : All (λ (piece : List ℕ). piece ≢ []) pieces
pieces_full = (λ e. cc, (λ e. cc, tt))

-- A client that has read the first bytes of it
abbrev pub client : Client
client = record {
  stream = record { incoming = map received pieces; sent = []; write_failures = [] };
  ack = record {
    protocol_version = 1;
    granted = record { bits = 3 };
    session_id = 5;
    codec = zstd;
    keepalive_ms = 5000;
    dictionary_id = 0;
  };
  dictionary = none;
  dictionary_active = false;
  dictionary_was_sent = false;
  max_message_bytes = 1000;
  pending = 0 ∷ 0 ∷ 0 ∷ 0 ∷ [];
  frame = [];
  expected_seq = 2;
  gaps = 0;
  wire_bytes = 0;
  decoded_bytes = 0;
}

-- A decompressor that refuses everything
abbrev pub refuse : Option (List ℕ) → List ℕ → ℕ → Option (List ℕ)
refuse dictionary input limit = none

abbrev stream : List ℕ
stream = client.pending ++ all_bytes pieces

stream_StartsFrame : StartsFrame 1000 stream
unfolding word window
stream_StartsFrame = record { allowed = omega arith; possible = omega arith; whole = omega arith }

stream_plain : (header_at stream).compressed ≡ false
unfolding byte
stream_plain = refl

stream_ping : (header_at stream).kind ≡ Kinds.ping
unfolding byte frame_kind_from_byte
stream_ping = refl

read_frame-Finds_example : Finds 1000 (0 ∷ 0 ∷ 0 ∷ 0 ∷ []) pieces stream
read_frame-Finds_example =
    read_frame-Finds 1000 pieces (0 ∷ 0 ∷ 0 ∷ 0 ∷ []) pieces_full stream_StartsFrame

next_event-uncompressed_example :
    (pending : List ℕ) × (left : List (List ℕ)) × (pending ++ all_bytes left
      ≡ drop (16 + word stream 0 4) stream)
    × (next_event refuse client
        ≡ dispatch (header_at stream).kind (header_at stream) (taken client stream pending left))
    × All (λ (piece : List ℕ). piece ≢ []) left
next_event-uncompressed_example =
    next_event-uncompressed refuse client pieces refl pieces_full stream_StartsFrame stream_plain

next_event-ne-panic_example : (next_event refuse client).0 ≢ panic
next_event-ne-panic_example = next_event-ne-panic refuse client

is_ping : (next_event refuse client).0 ≡ ok ping
is_ping =
    (next_event-ping refuse client pieces refl pieces_full stream_StartsFrame stream_plain
      stream_ping refl).0

next_event-Counts_example : Counts client (bytes_left client) (next_event refuse client).1
next_event-Counts_example = next_event-Counts refuse client ping is_ping

-- A compressed entry of three bytes, and the client that holds it
abbrev packed : List ℕ
packed = 3 ∷ 0 ∷ 0 ∷ 0 ∷ 2 ∷ 6 ∷ 0 ∷ 0 ∷ 9 ∷ 0 ∷ 0 ∷ 0 ∷ 0 ∷ 0 ∷ 0 ∷ 0 ∷ 7 ∷ 7 ∷ 7 ∷ []

abbrev holding : Client
holding = record client { pending = packed }

packed_ready : frame_ready 1000 packed ≡ ok (some (header_at packed))
packed_ready = rw frame_ready_lem (unfold word window byte in refl)

next_event-refused_example :
    next_event refuse holding
    ≡ (err decompress, record holding { frame = []; wire_bytes = add_u64 0 (16 + word packed 0 4) })
next_event-refused_example =
    next_event-refused refuse holding (header_at packed) packed_ready (unfold byte in refl)
      (unfold byte codec_from_byte in refl) (unfold word window in omega arith) refl

-- Frames 2, 5 and 6: frames 3 and 4 are missed.
abbrev numbers : List ℕ
numbers = 2 ∷ 5 ∷ 6 ∷ []

numbers-Increasing : Increasing 2 numbers
numbers-Increasing =
    (omega arith, omega arith, (omega arith, omega arith, (omega arith, omega arith, tt)))

count_gaps_lem_example :
    (count_gaps numbers client).gaps + 3 + 2 ≡ 0 + (count_gaps numbers client).expected_seq
count_gaps_lem_example =
    count_gaps_lem numbers client (omega arith) numbers-Increasing (omega arith)
