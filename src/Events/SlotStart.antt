-- ===== src/Events/SlotStart.antt =====
-- rust/src/events.rs: `SlotStart`, the first shred of a slot arrived.
use manka_shreds_sdk.Common.{ℕ, List, Option, not, bit_and, ◌==◌}
use manka_shreds_sdk.Error.{Result, ok, then_read, ◌>>=◌, ◌>>◌}
use manka_shreds_sdk.Bytes.{byte_at, array_at, u16_at, u64_at, require}

-- `SlotStart`
pub record SlotStart : Type 0 where
  pub slot : ℕ
  pub parent_slot : Option ℕ
  pub leader : Option (List ℕ)
  pub rx_ts_ns : ℕ
  pub source : ℕ
  pub shred_version : ℕ

-- `SlotStart::LEN`
abbrev pub len : ℕ
len = 64

-- `SlotStart::read`
unfoldable pub read : List ℕ → Result SlotStart
unfolding require
read bytes = do
  require bytes len "slot start"
  flags ← byte_at bytes 60
  slot ← u64_at bytes 0
  parent_slot ← then_read (not (bit_and flags 1 == 0)) (u64_at bytes 8)
  leader ← then_read (not (bit_and flags 2 == 0)) (array_at 32 bytes 16)
  rx_ts_ns ← u64_at bytes 48
  source ← u16_at bytes 56
  shred_version ← u16_at bytes 58
  ok (record {
    slot = slot;
    parent_slot = parent_slot;
    leader = leader;
    rx_ts_ns = rx_ts_ns;
    source = source;
    shred_version = shred_version;
  })
