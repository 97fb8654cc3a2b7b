-- ===== src/Protocol/Header.antt =====
-- rust/src/protocol.rs: the 16-byte frame header, `read_frame_header` and `write_frame`.
pub mod Decode
pub mod RoundTrip
use manka_shreds_sdk.Common.{
  ℕ, ◌+◌, ◌*◌, ◌^◌, ◌%◌, List, [], ◌∷◌, ◌++◌, Bool, not, bit_and, ltb, ◌==◌, if◌then◌else◌, length,
}
use manka_shreds_sdk.Error.{Result, ok, err, truncated, frame_too_large, fail_if, ◌>>=◌, ◌>>◌}
use manka_shreds_sdk.Bytes.{from_le, to_le, byte_at, u64_at}
use manka_shreds_sdk.Protocol.Codes.{Codec, codec_from_byte}
use manka_shreds_sdk.Protocol.Kinds.{FrameKind, frame_kind_from_byte, frame_kind_to_byte}
use manka_shreds_sdk.Protocol.FilterMask.{FilterMask}

-- `FRAME_HEADER_LEN`
abbrev pub frame_header_len : ℕ
frame_header_len = 16

-- `MAX_FRAME_PAYLOAD`, `16 << 20`
abbrev pub max_frame_payload : ℕ
max_frame_payload = 16 * 2 ^ 20

-- `FrameHeader`
pub record FrameHeader : Type 0 where
  pub len : ℕ
  pub kind : FrameKind
  pub raw_kind : ℕ
  pub compressed : Bool
  pub codec : Codec
  pub matched : FilterMask
  pub seq : ℕ

-- `read_frame_header`
unfoldable pub read_frame_header : List ℕ → Result FrameHeader
read_frame_header bytes = do
  fail_if (ltb (length bytes) frame_header_len)
      (truncated "frame header" frame_header_len (length bytes))
  b0 ← byte_at bytes 0
  b1 ← byte_at bytes 1
  b2 ← byte_at bytes 2
  b3 ← byte_at bytes 3
  let len = from_le (b0 ∷ b1 ∷ b2 ∷ b3 ∷ [])
  fail_if (ltb max_frame_payload len) (frame_too_large len)
  flags ← byte_at bytes 5
  raw_kind ← byte_at bytes 4
  m0 ← byte_at bytes 6
  m1 ← byte_at bytes 7
  seq ← u64_at bytes 8
  ok (record {
    len = len;
    kind = frame_kind_from_byte raw_kind;
    raw_kind = raw_kind;
    compressed = not (bit_and flags 4 == 0);
    codec = codec_from_byte (bit_and flags 3);
    matched = record { bits = from_le (m0 ∷ m1 ∷ []) };
    seq = seq;
  })

-- `write_frame`; `out` is what it appends to. `payload.len() as u32` keeps the low 32 bits.
unfoldable pub write_frame : List ℕ → FrameKind → ℕ → List ℕ → List ℕ
write_frame out kind seq payload =
    out
    ++ (to_le 4 (length payload)
        ++ ((frame_kind_to_byte kind ∷ 0 ∷ []) ++ (to_le 2 0 ++ (to_le 8 seq ++ payload))))
