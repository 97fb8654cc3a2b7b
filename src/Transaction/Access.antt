-- ===== src/Transaction/Access.antt =====
-- rust/src/transaction.rs: the accessors of `Transaction` that read its sections.
pub mod Arrays
pub mod Sound
pub mod Listing
pub mod Total
use manka_shreds_sdk.Common.{
  ℕ, zero, suc, ◌+◌, ◌*◌, List, [], ◌∷◌, Option, none, some, Bool, ltb, leb, ◌==◌, if◌then◌else◌,
  length,
}
use manka_shreds_sdk.Error.{Result, ok, panic, then_read, ◌>>=◌}
use manka_shreds_sdk.Bytes.{byte_at, slice, array_at, u16_at, u32_at}
use manka_shreds_sdk.Transaction.{Transaction}
use manka_shreds_sdk.Transaction.Fields.{
  has, has_raw_tx_bit, account_count, instruction_count, signature_count, lookup_count,
}

-- `Instruction`
pub record Instruction : Type 0 where
  pub program_id_index : ℕ
  pub accounts : List ℕ
  pub payload : List ℕ

-- `AddressLookup`
pub record AddressLookup : Type 0 where
  pub account_key : List ℕ
  pub writable_indexes : List ℕ
  pub readonly_indexes : List ℕ

-- `s.try_into().ok()` for an array of `n` bytes
unfoldable pub to_array? : ℕ → List ℕ → Option (List ℕ)
to_array? n s = if length s == n then some s else none

-- The arrays of `(index..index + rounds).map(|i| bytes[at + i * n..at + i * n + n] …)`
unfoldable pub arrays : ℕ → List ℕ → ℕ → ℕ → ℕ → Result (List (List ℕ))
arrays n bytes at index zero = ok []
arrays n bytes at index (suc rounds) = do
  first ← array_at n bytes (at + index * n)
  rest ← arrays n bytes at (index + 1) rounds
  ok (first ∷ rest)

-- `expect` on an `Option`
unfoldable pub expect {ℓ} : {A : Type ℓ} → Option A → Result A
expect none = panic
expect (some a) = ok a

module _ (self : Transaction) where
  unfoldable pub signature : Result (Option (List ℕ))
  unfolding to_array?
  signature = do
    count ← signature_count self
    if ltb 0 count
        then (do
          s ← slice self.bytes self.signatures_at (self.signatures_at + 64)
          ok (to_array? 64 s))
        else ok none

  unfoldable pub signatures : Result (List (List ℕ))
  signatures = do count ← signature_count self; arrays 64 self.bytes self.signatures_at 0 count

  unfoldable pub account_key : ℕ → Result (Option (List ℕ))
  unfolding to_array?
  account_key index = do
    count ← account_count self
    if leb count index then ok none else (do
      let at = self.account_keys_at + index * 32
      s ← slice self.bytes at (at + 32)
      ok (to_array? 32 s))

  unfoldable pub account_keys : Result (List (List ℕ))
  account_keys = do count ← account_count self; arrays 32 self.bytes self.account_keys_at 0 count

  unfoldable pub recent_blockhash : Result (List ℕ)
  recent_blockhash = array_at 32 self.bytes self.blockhash_at

  -- The entry at `index`, once it is known to be in the table
  unfoldable pub instruction_entry : ℕ → Result Instruction
  instruction_entry index = do
    let entry = self.instruction_table_at + index * 16
    let base = self.instruction_bytes_at
    accounts_offset ← u16_at self.bytes (entry + 2)
    let accounts_at = base + accounts_offset
    accounts_len ← u16_at self.bytes (entry + 4)
    data_offset ← u32_at self.bytes (entry + 8)
    let data_at = base + data_offset
    data_len ← u32_at self.bytes (entry + 12)
    program_id_index ← byte_at self.bytes entry
    accounts ← slice self.bytes accounts_at (accounts_at + accounts_len)
    payload ← slice self.bytes data_at (data_at + data_len)
    ok (record { program_id_index = program_id_index; accounts = accounts; payload = payload })

  unfoldable pub instruction : ℕ → Result (Option Instruction)
  instruction index = do
    count ← instruction_count self
    if leb count index then ok none else (do entry ← instruction_entry index; ok (some entry))

  unfoldable pub instructions_from : ℕ → ℕ → Result (List Instruction)
  instructions_from index zero = ok []
  instructions_from index (suc rounds) = do
    item ← instruction index
    first ← expect item
    rest ← instructions_from (index + 1) rounds
    ok (first ∷ rest)

  unfoldable pub instructions : Result (List Instruction)
  instructions = do count ← instruction_count self; instructions_from 0 count

  -- The body of the closure in `lookups`
  unfoldable pub lookup_entry : ℕ → Result AddressLookup
  lookup_entry index = do
    let entry = self.lookup_table_at + index * 40
    let base = self.lookup_bytes_at
    writable_offset ← u16_at self.bytes (entry + 32)
    let writable_at = base + writable_offset
    writable_len ← u16_at self.bytes (entry + 34)
    readonly_offset ← u16_at self.bytes (entry + 36)
    let readonly_at = base + readonly_offset
    readonly_len ← u16_at self.bytes (entry + 38)
    account_key ← array_at 32 self.bytes entry
    writable ← slice self.bytes writable_at (writable_at + writable_len)
    readonly ← slice self.bytes readonly_at (readonly_at + readonly_len)
    ok (record {
      account_key = account_key;
      writable_indexes = writable;
      readonly_indexes = readonly;
    })

  unfoldable pub lookups_from : ℕ → ℕ → Result (List AddressLookup)
  lookups_from index zero = ok []
  lookups_from index (suc rounds) = do
    first ← lookup_entry index
    rest ← lookups_from (index + 1) rounds
    ok (first ∷ rest)

  unfoldable pub lookups : Result (List AddressLookup)
  lookups = do count ← lookup_count self; lookups_from 0 count

  unfoldable pub as_bytes : List ℕ
  as_bytes = self.bytes

  unfoldable pub raw_tx : Result (Option (List ℕ))
  raw_tx = do
    present ← has self has_raw_tx_bit
    then_read present
        (do len ← u32_at self.bytes 84; slice self.bytes self.raw_tx_at (self.raw_tx_at + len))
