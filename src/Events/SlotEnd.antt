-- ===== src/Events/SlotEnd.antt =====
-- rust/src/events.rs: `SlotEnd`, a slot finished.
use manka_shreds_sdk.Common.{ℕ, List, Bool, not, bit_and, ◌==◌}
use manka_shreds_sdk.Error.{Result, ok, ◌>>=◌, ◌>>◌}
use manka_shreds_sdk.Bytes.{byte_at, u32_at, u64_at, require}

-- `SlotEnd`
pub record SlotEnd : Type 0 where
  pub slot : ℕ
  pub parent_slot : ℕ
  pub data_shreds : ℕ
  pub fec_sets : ℕ
  pub recovered_sets : ℕ
  pub missing_shreds : ℕ
  pub end_ts_ns : ℕ
  pub complete : Bool

-- `SlotEnd::LEN`
abbrev pub len : ℕ
len = 48

-- `SlotEnd::read`
unfoldable pub read : List ℕ → Result SlotEnd
unfolding require
read bytes = do
  require bytes len "slot end"
  slot ← u64_at bytes 0
  parent_slot ← u64_at bytes 8
  data_shreds ← u32_at bytes 16
  fec_sets ← u32_at bytes 20
  recovered_sets ← u32_at bytes 24
  missing_shreds ← u32_at bytes 28
  end_ts_ns ← u64_at bytes 32
  complete ← byte_at bytes 40
  ok (record {
    slot = slot;
    parent_slot = parent_slot;
    data_shreds = data_shreds;
    fec_sets = fec_sets;
    recovered_sets = recovered_sets;
    missing_shreds = missing_shreds;
    end_ts_ns = end_ts_ns;
    complete = not (bit_and complete 1 == 0);
  })
