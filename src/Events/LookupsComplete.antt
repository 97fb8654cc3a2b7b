-- ===== src/Events/LookupsComplete.antt =====
-- rust/src/events.rs: `LookupsComplete`, loaded accounts that were resolved since.
pub mod Completed
use manka_shreds_sdk.Common.{
  ℕ, zero, suc, ◌+◌, ◌*◌, ◌/◌, List, [], ◌∷◌, Bool, not, bit_and, ◌==◌, length,
}
use manka_shreds_sdk.Error.{Result, ok, ◌>>=◌, ◌>>◌}
use manka_shreds_sdk.Bytes.{byte_at, slice, array_at, u16_at, u32_at, u64_at, require}
use manka_shreds_sdk.Protocol.Codes.{Verification, verification_from_byte}

-- `LookupsComplete`
pub record LookupsComplete : Type 0 where
  pub slot : ℕ
  pub rx_ts_ns : ℕ
  pub entry_index : ℕ
  pub tx_index : ℕ
  pub signature : List ℕ
  pub verification : Verification
  pub still_partial : Bool
  pub tentative : Bool
  pub positions : List ℕ
  pub keys : List ℕ

-- `LookupsComplete::HEADER_LEN`
abbrev pub header_len : ℕ
header_len = 96

-- `len.next_multiple_of(8)`, which on these lengths cannot overflow
unfoldable pub next_multiple_of_8 : ℕ → ℕ
next_multiple_of_8 len = (len + 7) / 8 * 8

-- `LookupsComplete::read`
unfoldable pub read : List ℕ → Result LookupsComplete
unfolding require
read bytes = do
  require bytes header_len "lookups complete"
  count ← u16_at bytes 90
  let keys_at = header_len + next_multiple_of_8 count
  require bytes (keys_at + count * 32) "lookups complete"
  slot ← u64_at bytes 0
  rx_ts_ns ← u64_at bytes 8
  entry_index ← u32_at bytes 16
  tx_index ← u32_at bytes 20
  signature ← array_at 64 bytes 24
  verification ← byte_at bytes 88
  flags ← byte_at bytes 89
  positions ← slice bytes header_len (header_len + count)
  keys ← slice bytes keys_at (keys_at + count * 32)
  ok (record {
    slot = slot;
    rx_ts_ns = rx_ts_ns;
    entry_index = entry_index;
    tx_index = tx_index;
    signature = signature;
    verification = verification_from_byte verification;
    still_partial = not (bit_and flags 1 == 0);
    tentative = not (bit_and flags 2 == 0);
    positions = positions;
    keys = keys;
  })

-- The items of `positions.iter().enumerate().map(…)` from the `n`-th on
unfoldable pub completed_from : List ℕ → ℕ → List ℕ → Result (List (ℕ × List ℕ))
completed_from keys n [] = ok []
completed_from keys n (position ∷ positions) = do
  key ← array_at 32 keys (n * 32)
  rest ← completed_from keys (n + 1) positions
  ok ((position, key) ∷ rest)

-- `LookupsComplete::completed`, as the list of its items
unfoldable pub completed : LookupsComplete → Result (List (ℕ × List ℕ))
unfolding completed_from
completed self = completed_from self.keys 0 self.positions
