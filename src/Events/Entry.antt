-- ===== src/Events/Entry.antt =====
-- rust/src/events.rs: `Entry`, one proof-of-history entry.
use manka_shreds_sdk.Common.{ℕ, List}
use manka_shreds_sdk.Error.{Result, ok, ◌>>=◌, ◌>>◌}
use manka_shreds_sdk.Bytes.{byte_at, array_at, u32_at, u64_at, require}
use manka_shreds_sdk.Protocol.Codes.{Verification, verification_from_byte}

-- `Entry`
pub record Entry : Type 0 where
  pub slot : ℕ
  pub parent_slot : ℕ
  pub rx_ts_ns : ℕ
  pub num_hashes : ℕ
  pub tx_count : ℕ
  pub hash : List ℕ
  pub fec_set_index : ℕ
  pub entry_index : ℕ
  pub verification : Verification

-- `Entry::LEN`
abbrev pub len : ℕ
len = 88

-- `Entry::read`
unfoldable pub read : List ℕ → Result Entry
unfolding require
read bytes = do
  require bytes len "entry"
  slot ← u64_at bytes 0
  parent_slot ← u64_at bytes 8
  rx_ts_ns ← u64_at bytes 16
  num_hashes ← u64_at bytes 24
  tx_count ← u64_at bytes 32
  hash ← array_at 32 bytes 40
  fec_set_index ← u32_at bytes 72
  entry_index ← u32_at bytes 76
  verification ← byte_at bytes 80
  ok (record {
    slot = slot;
    parent_slot = parent_slot;
    rx_ts_ns = rx_ts_ns;
    num_hashes = num_hashes;
    tx_count = tx_count;
    hash = hash;
    fec_set_index = fec_set_index;
    entry_index = entry_index;
    verification = verification_from_byte verification;
  })
