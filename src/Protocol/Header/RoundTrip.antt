-- ===== src/Protocol/Header/RoundTrip.antt =====
-- `read_frame_header` reads back what `write_frame` wrote.
use manka_shreds_sdk.Common.{ℕ, ◌^◌, ◌≤◌, ◌<◌, ◌≡◌, arith, List, [], ◌++◌, false, length}
use manka_shreds_sdk.Error.{ok}
use manka_shreds_sdk.Bytes.{window, word, byte}
use manka_shreds_sdk.Protocol.Codes.{uncompressed, codec_from_byte}
use manka_shreds_sdk.Protocol.Kinds.{FrameKind, frame_kind_to_byte}
use manka_shreds_sdk.Protocol.Kinds.RoundTrip.{frame_kind_from_byte-to_byte}
use manka_shreds_sdk.Protocol.Header.{max_frame_payload, read_frame_header, write_frame}
use manka_shreds_sdk.Protocol.Header.Decode.{read_frame_header_lem}

-- A frame that `write_frame` wrote, with a payload within the protocol's limit and a number of
-- 64 bits, reads back as an uncompressed frame of that kind, length and number, whatever
-- follows it.
pub read-write_frame :
    (kind : FrameKind) (seq : ℕ) (payload rest : List ℕ)
    → length payload ≤ max_frame_payload
    → seq < 2 ^ 64
    → read_frame_header (write_frame [] kind seq payload ++ rest)
      ≡ ok (record {
        len = length payload;
        kind = kind;
        raw_kind = frame_kind_to_byte kind;
        compressed = false;
        codec = uncompressed;
        matched = record { bits = 0 };
        seq = seq;
      })
unfolding write_frame word window byte codec_from_byte
read-write_frame kind seq payload rest h k =
    rw read_frame_header_lem (ground (arith, frame_kind_from_byte-to_byte kind))
