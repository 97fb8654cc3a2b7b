-- ===== src/Transaction/Sections.antt =====
-- Where the sections of a transaction lie, and when its bytes are well formed.
use manka_shreds_sdk.Common.{ℕ, ◌+◌, ◌*◌, ◌≤◌, arith, List, length}
use manka_shreds_sdk.Bytes.{word, byte}
use manka_shreds_sdk.Transaction.{Transaction, align8}
use manka_shreds_sdk.Transaction.Entries.{InstructionFits, LookupFits, Every}

-- The counts and lengths of the header, at their offsets.
module _ (bytes : List ℕ) where
  abbrev pub instruction_bytes_len : ℕ
  instruction_bytes_len = word bytes 76 4

  abbrev pub lookup_bytes_len : ℕ
  lookup_bytes_len = word bytes 80 4

  abbrev pub raw_tx_len : ℕ
  raw_tx_len = word bytes 84 4

  abbrev pub account_count : ℕ
  account_count = word bytes 92 2

  abbrev pub instruction_count : ℕ
  instruction_count = word bytes 94 2

  abbrev pub signature_count : ℕ
  signature_count = byte bytes 96

  abbrev pub lookup_count : ℕ
  lookup_count = byte bytes 98

  -- The sections in their fixed order, each where the one before it ends.
  unfoldable pub account_keys_at : ℕ
  account_keys_at = 104 + signature_count * 64

  unfoldable pub blockhash_at : ℕ
  blockhash_at = account_keys_at + account_count * 32

  unfoldable pub instruction_table_at : ℕ
  instruction_table_at = blockhash_at + 32

  unfoldable pub instruction_bytes_at : ℕ
  instruction_bytes_at = instruction_table_at + instruction_count * 16

  unfoldable pub lookup_table_at : ℕ
  lookup_table_at = instruction_bytes_at + align8 instruction_bytes_len

  unfoldable pub lookup_bytes_at : ℕ
  lookup_bytes_at = lookup_table_at + lookup_count * 40

  unfoldable pub raw_tx_at : ℕ
  raw_tx_at = lookup_bytes_at + align8 lookup_bytes_len

  unfoldable pub end_at : ℕ
  end_at = raw_tx_at + raw_tx_len

  abbrev pub transaction_at : Transaction
  transaction_at = record {
    bytes = bytes;
    signatures_at = 104;
    account_keys_at = account_keys_at;
    blockhash_at = blockhash_at;
    instruction_table_at = instruction_table_at;
    instruction_bytes_at = instruction_bytes_at;
    lookup_table_at = lookup_table_at;
    lookup_bytes_at = lookup_bytes_at;
    raw_tx_at = raw_tx_at;
  }

  -- The sections follow one another, so each ends before the last one does.
  pub sections_in_order :
      (104 + signature_count * 64 ≤ account_keys_at)
      × (account_keys_at + account_count * 32 ≤ blockhash_at)
      × (blockhash_at + 32 ≤ instruction_table_at)
      × (instruction_table_at + instruction_count * 16 ≤ instruction_bytes_at)
      × (instruction_bytes_at + instruction_bytes_len ≤ lookup_table_at)
      × (lookup_table_at + lookup_count * 40 ≤ lookup_bytes_at)
      × (lookup_bytes_at + lookup_bytes_len ≤ raw_tx_at)
      × (raw_tx_at + raw_tx_len ≤ end_at)
  unfolding account_keys_at blockhash_at instruction_table_at instruction_bytes_at lookup_table_at
      lookup_bytes_at raw_tx_at end_at align8
  sections_in_order = omega arith

  -- What a transaction's bytes are to satisfy.
  pub record IsWellFormed : Type 0 where
    pub header : 104 ≤ length bytes
    pub body : end_at ≤ length bytes
    pub instructions :
        Every (InstructionFits bytes instruction_table_at instruction_bytes_len) 0 instruction_count
    pub lookups : Every (LookupFits bytes lookup_table_at lookup_bytes_len) 0 lookup_count
