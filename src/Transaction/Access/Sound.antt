-- ===== src/Transaction/Access/Sound.antt =====
-- What the accessors return on a well-formed transaction: the parts of its sections, never a panic.
use manka_shreds_sdk.Common.{
  ℕ, ◌+◌, ◌-◌, ◌*◌, ◌/◌, ◌%◌, ◌≡◌, arith, List, none, some, ltb, ◌==◌, if◌then◌else◌,
}
use manka_shreds_sdk.Common.Bits.{bit_and-pow}
use manka_shreds_sdk.Error.{ok}
use manka_shreds_sdk.Bytes.{word, window}
use manka_shreds_sdk.Bytes.Reads.{
  byte_at_lem, slice_lem, slice_here, array_at_lem, u16_at_lem, u32_at_lem, length-window,
}
use manka_shreds_sdk.Transaction.Sections
use manka_shreds_sdk.Transaction.Sections.{
  transaction_at, sections_in_order, IsWellFormed, instruction_table_at, instruction_bytes_at,
  instruction_bytes_len, lookup_table_at, lookup_bytes_at, lookup_bytes_len,
}
use manka_shreds_sdk.Transaction.Fields
use manka_shreds_sdk.Transaction.Access.{
  signature, signatures, account_key, account_keys, recent_blockhash, raw_tx,
}
use manka_shreds_sdk.Transaction.Access.Arrays.{chunks, arrays_lem}

module _ (bytes : List ℕ) (w : IsWellFormed bytes) where
  pub signatures_lem :
      signatures (transaction_at bytes)
      ≡ ok (chunks 64 bytes 104 0 (Sections.signature_count bytes))
  unfolding signatures Fields.signature_count
  signatures_lem = rw (byte_at_lem bytes 96 (omega (arith, w.header))) (
      arrays_lem 64 bytes 104 0 (Sections.signature_count bytes)
        (omega (arith, sections_in_order bytes, w.body)))

  pub account_keys_lem :
      account_keys (transaction_at bytes)
      ≡ ok (chunks 32 bytes (Sections.account_keys_at bytes) 0 (Sections.account_count bytes))
  unfolding account_keys Fields.account_count
  account_keys_lem = rw (u16_at_lem bytes 92 (omega (arith, w.header))) (
      arrays_lem 32 bytes _ 0 (Sections.account_count bytes)
        (omega (arith, sections_in_order bytes, w.body)))

  -- Every index below the count has its key, the same that the list of all keys has there.
  pub account_key_lem :
      (index : ℕ)
      → account_key (transaction_at bytes) index ≡ (
          if ltb index (Sections.account_count bytes)
          then ok (some (window bytes (Sections.account_keys_at bytes + index * 32) 32))
          else ok none)
  unfolding account_key Fields.account_count
  account_key_lem index = rw (u16_at_lem bytes 92 (omega (arith, w.header))) (
      ground (
        arith,
        sections_in_order bytes,
        w.body,
        slice_lem bytes (Sections.account_keys_at bytes + index * 32)
            (Sections.account_keys_at bytes + index * 32 + 32),
        span,
        length-window bytes (Sections.account_keys_at bytes + index * 32) 32,
      ))
    where
      span :
          Sections.account_keys_at bytes
            + index * 32
            + 32
            - (Sections.account_keys_at bytes + index * 32)
          ≡ 32
      span = omega arith

  pub signature_lem : signature (transaction_at bytes) ≡ (
      if ltb 0 (Sections.signature_count bytes) then ok (some (window bytes 104 64)) else ok none)
  unfolding signature Fields.signature_count
  signature_lem = rw (byte_at_lem bytes 96 (omega (arith, w.header))) (
      ground (
        arith,
        sections_in_order bytes,
        w.body,
        slice_lem bytes 104 168,
        length-window bytes 104 64,
      ))

  pub recent_blockhash_lem :
      recent_blockhash (transaction_at bytes) ≡ ok (window bytes (Sections.blockhash_at bytes) 32)
  unfolding recent_blockhash
  recent_blockhash_lem = array_at_lem 32 bytes _ (omega (arith, sections_in_order bytes, w.body))

  pub raw_tx_lem :
      raw_tx (transaction_at bytes)
      ≡ ok (
          if word bytes 90 2 / 4 % 2 == 1
          then some (window bytes (Sections.raw_tx_at bytes) (Sections.raw_tx_len bytes))
          else none)
  unfolding raw_tx Fields.has Fields.flags
  raw_tx_lem = ground (
    arith,
    w.header,
    w.body,
    sections_in_order bytes,
    u16_at_lem bytes 90,
    u32_at_lem bytes 84,
    bit_and-pow 2 (word bytes 90 2),
    slice_here bytes (Sections.raw_tx_at bytes) (Sections.raw_tx_len bytes),
  )
