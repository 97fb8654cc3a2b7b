-- ===== src/Events/Duplicate.antt =====
-- rust/src/events.rs: `Duplicate`, two different shreds for one slot and index.
use manka_shreds_sdk.Common.{ℕ, List, Bool, not, ◌==◌}
use manka_shreds_sdk.Error.{Result, ok, ◌>>=◌, ◌>>◌}
use manka_shreds_sdk.Bytes.{byte_at, array_at, u16_at, u32_at, u64_at, require}

-- `Duplicate`
pub record Duplicate : Type 0 where
  pub slot : ℕ
  pub index : ℕ
  pub first_source : ℕ
  pub second_source : ℕ
  pub detected_ns : ℕ
  pub is_data : Bool
  pub first_signature : List ℕ
  pub second_signature : List ℕ

-- `Duplicate::LEN`
abbrev pub len : ℕ
len = 160

-- `Duplicate::read`
unfoldable pub read : List ℕ → Result Duplicate
unfolding require
read bytes = do
  require bytes len "duplicate"
  slot ← u64_at bytes 0
  index ← u32_at bytes 8
  first_source ← u16_at bytes 12
  second_source ← u16_at bytes 14
  detected_ns ← u64_at bytes 16
  is_data ← byte_at bytes 24
  first_signature ← array_at 64 bytes 32
  second_signature ← array_at 64 bytes 96
  ok (record {
    slot = slot;
    index = index;
    first_source = first_source;
    second_source = second_source;
    detected_ns = detected_ns;
    is_data = not (is_data == 0);
    first_signature = first_signature;
    second_signature = second_signature;
  })
