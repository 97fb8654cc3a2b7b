-- ===== src/Transaction.antt =====
-- rust/src/transaction.rs: a decoded transaction, laid out for reading in place.
-- `usize` is taken to have 64 bits.
pub mod Read
pub mod Entries
pub mod Sections
pub mod Fields
pub mod Access
use manka_shreds_sdk.Common.{ℕ, zero, suc, ◌+◌, ◌-◌, ◌*◌, ◌/◌, ◌^◌, List, ◌||◌, ltb, leb, length}
use manka_shreds_sdk.Error.{Result, ok, truncated, bad_offset, fail_if, ◌>>=◌, ◌>>◌}
use manka_shreds_sdk.Bytes.{byte_at, u16_at, u32_at}

-- `TX_HEADER_LEN`
abbrev pub tx_header_len : ℕ
tx_header_len = 104

-- `INSTRUCTION_ENTRY_LEN`
abbrev pub instruction_entry_len : ℕ
instruction_entry_len = 16

-- `LOOKUP_ENTRY_LEN`
abbrev pub lookup_entry_len : ℕ
lookup_entry_len = 40

-- `align8`, `len.next_multiple_of(8)`
unfoldable pub align8 : ℕ → ℕ
align8 len = (len + 7) / 8 * 8

-- `Transaction`
pub record Transaction : Type 0 where
  pub bytes : List ℕ
  pub signatures_at : ℕ
  pub account_keys_at : ℕ
  pub blockhash_at : ℕ
  pub instruction_table_at : ℕ
  pub instruction_bytes_at : ℕ
  pub lookup_table_at : ℕ
  pub lookup_bytes_at : ℕ
  pub raw_tx_at : ℕ

-- The closure `take` of `Transaction::read`: the start of the next section, and the new `at`.
unfoldable pub take_section : List ℕ → ℕ → ℕ → Result (ℕ × ℕ)
take_section bytes at len = do
  fail_if (leb (2 ^ 64) (at + len)) (truncated "transaction" (2 ^ 64 - 1) (length bytes))
  fail_if (ltb (length bytes) (at + len)) (truncated "transaction" (at + len) (length bytes))
  ok (at, at + len)

-- The loop over the instruction table, from `index` on
unfoldable pub check_instructions : List ℕ → ℕ → ℕ → ℕ → ℕ → Result (Unit {0})
check_instructions bytes table_at region index zero = ok tt
check_instructions bytes table_at region index (suc rounds) = do
  let entry = table_at + index * instruction_entry_len
  accounts_offset ← u16_at bytes (entry + 2)
  accounts_len ← u16_at bytes (entry + 4)
  data_offset ← u32_at bytes (entry + 8)
  data_len ← u32_at bytes (entry + 12)
  fail_if (ltb region (accounts_offset + accounts_len) || ltb region (data_offset + data_len))
      (bad_offset "instruction" index)
  check_instructions bytes table_at region (index + 1) rounds

-- The loop over the lookup table, from `index` on
unfoldable pub check_lookups : List ℕ → ℕ → ℕ → ℕ → ℕ → Result (Unit {0})
check_lookups bytes table_at region index zero = ok tt
check_lookups bytes table_at region index (suc rounds) = do
  let entry = table_at + index * lookup_entry_len
  writable_offset ← u16_at bytes (entry + 32)
  writable_len ← u16_at bytes (entry + 34)
  readonly_offset ← u16_at bytes (entry + 36)
  readonly_len ← u16_at bytes (entry + 38)
  fail_if
      (ltb region (writable_offset + writable_len) || ltb region (readonly_offset + readonly_len))
      (bad_offset "lookup" index)
  check_lookups bytes table_at region (index + 1) rounds

-- `Transaction::read`
unfoldable pub read : List ℕ → Result Transaction
read bytes = do
  fail_if (ltb (length bytes) tx_header_len)
      (truncated "transaction header" tx_header_len (length bytes))
  instruction_bytes_len ← u32_at bytes 76
  lookup_bytes_len ← u32_at bytes 80
  account_count ← u16_at bytes 92
  instruction_count ← u16_at bytes 94
  signature_count ← byte_at bytes 96
  lookup_count ← byte_at bytes 98
  (signatures_at, at1) ← take_section bytes tx_header_len (signature_count * 64)
  (account_keys_at, at2) ← take_section bytes at1 (account_count * 32)
  (blockhash_at, at3) ← take_section bytes at2 32
  (instruction_table_at, at4) ← take_section bytes at3 (instruction_count * instruction_entry_len)
  (instruction_bytes_at, at5) ← take_section bytes at4 (align8 instruction_bytes_len)
  (lookup_table_at, at6) ← take_section bytes at5 (lookup_count * lookup_entry_len)
  (lookup_bytes_at, at7) ← take_section bytes at6 (align8 lookup_bytes_len)
  raw_tx_len ← u32_at bytes 84
  (raw_tx_at, at8) ← take_section bytes at7 raw_tx_len
  check_instructions bytes instruction_table_at instruction_bytes_len 0 instruction_count
  check_lookups bytes lookup_table_at lookup_bytes_len 0 lookup_count
  ok (record {
    bytes = bytes;
    signatures_at = signatures_at;
    account_keys_at = account_keys_at;
    blockhash_at = blockhash_at;
    instruction_table_at = instruction_table_at;
    instruction_bytes_at = instruction_bytes_at;
    lookup_table_at = lookup_table_at;
    lookup_bytes_at = lookup_bytes_at;
    raw_tx_at = raw_tx_at;
  })
