-- ===== src/Transaction/Fields.antt =====
-- rust/src/transaction.rs: the accessors of `Transaction` that read the fixed header.
pub mod Decode
use manka_shreds_sdk.Common.{
  ℕ, ◌+◌, ◌-◌, ◌*◌, ◌/◌, ◌%◌, ◌^◌, List, Option, Bool, bit_and, ◌==◌, if◌then◌else◌,
}
use manka_shreds_sdk.Error.{Result, ok, then_read, ◌>>=◌}
use manka_shreds_sdk.Bytes.{byte_at, array_at, u16_at, u32_at, u64_at}
use manka_shreds_sdk.Protocol.Codes.{Verification}
use manka_shreds_sdk.Protocol.Codes
use manka_shreds_sdk.Transaction.{Transaction}

-- The bits of the header flags
abbrev pub is_vote_bit : ℕ
is_vote_bit = 1

abbrev pub verified_bit : ℕ
verified_bit = 2

abbrev pub has_raw_tx_bit : ℕ
has_raw_tx_bit = 4

abbrev pub recovered_bit : ℕ
recovered_bit = 8

abbrev pub has_leader_bit : ℕ
has_leader_bit = 16

abbrev pub lookups_partial_bit : ℕ
lookups_partial_bit = 128

abbrev pub lookups_tentative_bit : ℕ
lookups_tentative_bit = 256

abbrev pub late_bit : ℕ
late_bit = 512

module _ (self : Transaction) where
  unfoldable pub slot : Result ℕ
  slot = u64_at self.bytes 0

  unfoldable pub parent_slot : Result ℕ
  parent_slot = u64_at self.bytes 8

  unfoldable pub rx_ts_ns : Result ℕ
  rx_ts_ns = u64_at self.bytes 16

  unfoldable pub emit_ts_ns : Result ℕ
  emit_ts_ns = u64_at self.bytes 24

  -- `saturating_sub` stops at 0, as `-` does.
  unfoldable pub pipeline_ns : Result ℕ
  unfolding emit_ts_ns rx_ts_ns
  pipeline_ns = do emit ← emit_ts_ns; rx ← rx_ts_ns; ok (emit - rx)

  unfoldable pub flags : Result ℕ
  flags = u16_at self.bytes 90

  unfoldable pub has : ℕ → Result Bool
  unfolding flags
  has bits = do f ← flags; ok (bit_and f bits == bits)

  unfoldable pub leader : Result (Option (List ℕ))
  unfolding has
  leader = do present ← has has_leader_bit; then_read present (array_at 32 self.bytes 32)

  unfoldable pub fec_set_index : Result ℕ
  fec_set_index = u32_at self.bytes 64

  unfoldable pub entry_index : Result ℕ
  entry_index = u32_at self.bytes 68

  unfoldable pub tx_index : Result ℕ
  tx_index = u32_at self.bytes 72

  unfoldable pub source_id : Result ℕ
  source_id = u16_at self.bytes 88

  unfoldable pub is_vote : Result Bool
  unfolding has
  is_vote = has is_vote_bit

  unfoldable pub recovered : Result Bool
  unfolding has
  recovered = has recovered_bit

  -- `(self.flags() >> REASON_SHIFT) & REASON_MASK`
  unfoldable pub verification : Result Verification
  unfolding has
  verification = do
    verified ← has verified_bit
    f ← flags
    let reason = bit_and (f / 2 ^ 5) 3
    ok (
        if verified
        then Codes.verified
        else if reason == 1
        then Codes.unknown_leader
        else if reason == 2
        then Codes.stale_schedule
        else Codes.disabled)

  unfoldable pub account_count : Result ℕ
  account_count = u16_at self.bytes 92

  unfoldable pub loaded_counts : Result (ℕ × ℕ)
  loaded_counts = do
    writable ← byte_at self.bytes 102
    readonly ← byte_at self.bytes 103
    ok (writable, readonly)

  unfoldable pub static_account_count : Result ℕ
  unfolding account_count loaded_counts
  static_account_count = do
    (writable, readonly) ← loaded_counts
    count ← account_count
    ok (count - (writable + readonly))

  unfoldable pub lookups_partial : Result Bool
  unfolding has
  lookups_partial = has lookups_partial_bit

  unfoldable pub lookups_tentative : Result Bool
  unfolding has
  lookups_tentative = has lookups_tentative_bit

  unfoldable pub is_late : Result Bool
  unfolding has
  is_late = has late_bit

  unfoldable pub instruction_count : Result ℕ
  instruction_count = u16_at self.bytes 94

  unfoldable pub signature_count : Result ℕ
  signature_count = byte_at self.bytes 96

  unfoldable pub message_version : Result ℕ
  message_version = byte_at self.bytes 97

  unfoldable pub lookup_count : Result ℕ
  lookup_count = byte_at self.bytes 98

  unfoldable pub required_signatures : Result ℕ
  required_signatures = byte_at self.bytes 99

  unfoldable pub readonly_signed : Result ℕ
  readonly_signed = byte_at self.bytes 100

  unfoldable pub readonly_unsigned : Result ℕ
  readonly_unsigned = byte_at self.bytes 101
