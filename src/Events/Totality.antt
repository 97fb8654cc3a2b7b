-- ===== src/Events/Totality.antt =====
-- Every event frame is decoded without a panic: it is refused as too short, or each field is the word
-- at its offset.
use manka_shreds_sdk.Common.{
  ℕ, ◌-◌, ◌/◌, ◌%◌, ◌≡◌, arith, List, none, some, Bool, not, ltb, ◌==◌, if◌then◌else◌, length,
}
use manka_shreds_sdk.Common.Bits.{bit_and-one, bit_and-pow}
use manka_shreds_sdk.Error.{ok, err, truncated}
use manka_shreds_sdk.Bytes.{word, window, byte}
use manka_shreds_sdk.Bytes.Reads.{
  byte_at_lem, array_at_lem, slice_lem, u16_at_lem, u32_at_lem, u64_at_lem,
}
use manka_shreds_sdk.Protocol.Codes.{verification_from_byte}
use manka_shreds_sdk.Events.SlotStart
use manka_shreds_sdk.Events.SlotEnd
use manka_shreds_sdk.Events.Entry
use manka_shreds_sdk.Events.Duplicate
use manka_shreds_sdk.Events.RawShred
use manka_shreds_sdk.Events.SlotStart.{SlotStart}
use manka_shreds_sdk.Events.SlotEnd.{SlotEnd}
use manka_shreds_sdk.Events.Entry.{Entry}
use manka_shreds_sdk.Events.Duplicate.{Duplicate}
use manka_shreds_sdk.Events.RawShred.{RawShred}

-- Digit `i` of the byte at `at` is set.
abbrev pub bit_at : List ℕ → ℕ → ℕ → Bool
bit_at bytes at place = byte bytes at / place % 2 == 1

abbrev pub slot_start_at : List ℕ → SlotStart
slot_start_at bytes = record {
  slot = word bytes 0 8;
  parent_slot = if bit_at bytes 60 1 then some (word bytes 8 8) else none;
  leader = if bit_at bytes 60 2 then some (window bytes 16 32) else none;
  rx_ts_ns = word bytes 48 8;
  source = word bytes 56 2;
  shred_version = word bytes 58 2;
}

abbrev pub slot_end_at : List ℕ → SlotEnd
slot_end_at bytes = record {
  slot = word bytes 0 8;
  parent_slot = word bytes 8 8;
  data_shreds = word bytes 16 4;
  fec_sets = word bytes 20 4;
  recovered_sets = word bytes 24 4;
  missing_shreds = word bytes 28 4;
  end_ts_ns = word bytes 32 8;
  complete = bit_at bytes 40 1;
}

abbrev pub entry_at : List ℕ → Entry
entry_at bytes = record {
  slot = word bytes 0 8;
  parent_slot = word bytes 8 8;
  rx_ts_ns = word bytes 16 8;
  num_hashes = word bytes 24 8;
  tx_count = word bytes 32 8;
  hash = window bytes 40 32;
  fec_set_index = word bytes 72 4;
  entry_index = word bytes 76 4;
  verification = verification_from_byte (byte bytes 80);
}

abbrev pub duplicate_at : List ℕ → Duplicate
duplicate_at bytes = record {
  slot = word bytes 0 8;
  index = word bytes 8 4;
  first_source = word bytes 12 2;
  second_source = word bytes 14 2;
  detected_ns = word bytes 16 8;
  is_data = not (byte bytes 24 == 0);
  first_signature = window bytes 32 64;
  second_signature = window bytes 96 64;
}

abbrev pub raw_shred_at : List ℕ → RawShred
raw_shred_at bytes = record {
  slot = word bytes 0 8;
  index = word bytes 8 4;
  fec_set_index = word bytes 12 4;
  rx_ts_ns = word bytes 16 8;
  source = word bytes 24 2;
  is_data = not (byte bytes 26 == 1);
  bytes = window bytes 32 (length bytes - 32);
}

module _ (bytes : List ℕ) where
  pub slot_start_lem : SlotStart.read bytes ≡ (
      if ltb (length bytes) 64
      then err (truncated "slot start" 64 (length bytes))
      else ok (slot_start_at bytes))
  unfolding SlotStart.read
  slot_start_lem = ground (
    arith,
    byte_at_lem bytes 60,
    u64_at_lem bytes 0,
    u64_at_lem bytes 8,
    array_at_lem 32 bytes 16,
    u64_at_lem bytes 48,
    u16_at_lem bytes 56,
    u16_at_lem bytes 58,
    bit_and-one (byte bytes 60),
    bit_and-pow 1 (byte bytes 60),
  )

  pub slot_end_lem : SlotEnd.read bytes ≡ (
      if ltb (length bytes) 48
      then err (truncated "slot end" 48 (length bytes))
      else ok (slot_end_at bytes))
  unfolding SlotEnd.read
  slot_end_lem = ground (
    arith,
    u64_at_lem bytes 0,
    u64_at_lem bytes 8,
    u32_at_lem bytes 16,
    u32_at_lem bytes 20,
    u32_at_lem bytes 24,
    u32_at_lem bytes 28,
    u64_at_lem bytes 32,
    byte_at_lem bytes 40,
    bit_and-one (byte bytes 40),
  )

  pub entry_lem : Entry.read bytes ≡ (
      if ltb (length bytes) 88
      then err (truncated "entry" 88 (length bytes))
      else ok (entry_at bytes))
  unfolding Entry.read
  entry_lem = ground (
    arith,
    u64_at_lem bytes 0,
    u64_at_lem bytes 8,
    u64_at_lem bytes 16,
    u64_at_lem bytes 24,
    u64_at_lem bytes 32,
    array_at_lem 32 bytes 40,
    u32_at_lem bytes 72,
    u32_at_lem bytes 76,
    byte_at_lem bytes 80,
  )

  pub duplicate_lem : Duplicate.read bytes ≡ (
      if ltb (length bytes) 160
      then err (truncated "duplicate" 160 (length bytes))
      else ok (duplicate_at bytes))
  unfolding Duplicate.read
  duplicate_lem = ground (
    arith,
    u64_at_lem bytes 0,
    u32_at_lem bytes 8,
    u16_at_lem bytes 12,
    u16_at_lem bytes 14,
    u64_at_lem bytes 16,
    byte_at_lem bytes 24,
    array_at_lem 64 bytes 32,
    array_at_lem 64 bytes 96,
  )

  pub raw_shred_lem : RawShred.read bytes ≡ (
      if ltb (length bytes) 32
      then err (truncated "raw shred" 32 (length bytes))
      else ok (raw_shred_at bytes))
  unfolding RawShred.read word
  raw_shred_lem = ground (
    arith,
    u64_at_lem bytes 0,
    u32_at_lem bytes 8,
    u32_at_lem bytes 12,
    u64_at_lem bytes 16,
    array_at_lem 2 bytes 24,
    byte_at_lem bytes 26,
    slice_lem bytes 32 (length bytes),
  )
