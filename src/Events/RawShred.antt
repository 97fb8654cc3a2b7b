-- ===== src/Events/RawShred.antt =====
-- rust/src/events.rs: `RawShred`, a shred republished exactly as it arrived.
use manka_shreds_sdk.Common.{ℕ, List, Bool, not, ◌==◌, ltb, length}
use manka_shreds_sdk.Error.{Result, ok, truncated, fail_if, ◌>>=◌, ◌>>◌}
use manka_shreds_sdk.Bytes.{from_le, byte_at, slice, array_at, u32_at, u64_at}

-- `RawShred`
pub record RawShred : Type 0 where
  pub slot : ℕ
  pub index : ℕ
  pub fec_set_index : ℕ
  pub rx_ts_ns : ℕ
  pub source : ℕ
  pub is_data : Bool
  pub bytes : List ℕ

-- `RawShred::HEADER_LEN`
abbrev pub header_len : ℕ
header_len = 32

-- `RawShred::read`
unfoldable pub read : List ℕ → Result RawShred
read bytes = do
  fail_if (ltb (length bytes) header_len) (truncated "raw shred" header_len (length bytes))
  slot ← u64_at bytes 0
  index ← u32_at bytes 8
  fec_set_index ← u32_at bytes 12
  rx_ts_ns ← u64_at bytes 16
  source ← array_at 2 bytes 24
  is_data ← byte_at bytes 26
  body ← slice bytes header_len (length bytes)
  ok (record {
    slot = slot;
    index = index;
    fec_set_index = fec_set_index;
    rx_ts_ns = rx_ts_ns;
    source = from_le source;
    is_data = not (is_data == 1);
    bytes = body;
  })
