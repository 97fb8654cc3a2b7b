-- ===== src/Protocol/Header/Decode.antt =====
-- `read_frame_header` on every input, well formed or not.
use manka_shreds_sdk.Common.{ℕ, ◌/◌, ◌%◌, ◌≡◌, arith, List, ltb, ◌==◌, if◌then◌else◌, length}
use manka_shreds_sdk.Common.Bits.{bit_and_three, bit_and-pow}
use manka_shreds_sdk.Error.{ok, err, truncated, frame_too_large}
use manka_shreds_sdk.Bytes.{word, byte}
use manka_shreds_sdk.Bytes.Reads.{byte_at_lem, u64_at_lem, word_two, word_four}
use manka_shreds_sdk.Protocol.Codes.{codec_from_byte}
use manka_shreds_sdk.Protocol.Kinds.{frame_kind_from_byte}
use manka_shreds_sdk.Protocol.Header.{FrameHeader, max_frame_payload, read_frame_header}

-- The header that sixteen bytes hold, each field a little-endian word at its offset.
abbrev pub header_at : List ℕ → FrameHeader
header_at bytes = record {
  len = word bytes 0 4;
  kind = frame_kind_from_byte (byte bytes 4);
  raw_kind = byte bytes 4;
  compressed = byte bytes 5 / 4 % 2 == 1;
  codec = codec_from_byte (byte bytes 5 % 4);
  matched = record { bits = word bytes 6 2 };
  seq = word bytes 8 8;
}

-- `read_frame_header` on any bytes: an error below 16 bytes, an error for a declared length
-- over the limit, and else the fields as little-endian words at their offsets, the compression
-- flag and the codec as digits of the flags.
pub read_frame_header_lem :
    (bytes : List ℕ)
    → read_frame_header bytes ≡ (
        if ltb (length bytes) 16
        then err (truncated "frame header" 16 (length bytes))
        else if ltb max_frame_payload (word bytes 0 4)
        then err (frame_too_large (word bytes 0 4))
        else ok (header_at bytes))
unfolding read_frame_header
read_frame_header_lem bytes = ground (
  arith,
  byte_at_lem bytes 0,
  byte_at_lem bytes 1,
  byte_at_lem bytes 2,
  byte_at_lem bytes 3,
  word_four bytes 0,
  byte_at_lem bytes 4,
  byte_at_lem bytes 5,
  byte_at_lem bytes 6,
  byte_at_lem bytes 7,
  word_two bytes 6,
  u64_at_lem bytes 8,
  bit_and_three (byte bytes 5),
  bit_and-pow 2 (byte bytes 5),
)
