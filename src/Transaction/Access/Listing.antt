-- ===== src/Transaction/Access/Listing.antt =====
-- What the accessors of instructions and lookups return on a well-formed transaction: the parts of its
-- sections, never a panic.
use manka_shreds_sdk.Common.{
  ℕ, zero, suc, ◌+◌, ◌*◌, ◌≤◌, ◌<◌, ◌≡◌, refl, arith, List, [], ◌∷◌, none, some, ltb, if◌then◌else◌,
}
use manka_shreds_sdk.Error.{ok}
use manka_shreds_sdk.Bytes.{word, byte, window}
use manka_shreds_sdk.Bytes.Reads.{byte_at_lem, slice_here, array_at_lem, u16_at_lem, u32_at_lem}
use manka_shreds_sdk.Transaction.Entries.{InstructionFits, LookupFits, Every-at}
use manka_shreds_sdk.Transaction.Sections
use manka_shreds_sdk.Transaction.Sections.{
  transaction_at, sections_in_order, IsWellFormed, instruction_table_at, instruction_bytes_at,
  instruction_bytes_len, lookup_table_at, lookup_bytes_at, lookup_bytes_len,
}
use manka_shreds_sdk.Transaction.Fields
use manka_shreds_sdk.Transaction.Access.{
  Instruction, AddressLookup, expect, instruction_entry, instruction, instructions_from,
  instructions, lookup_entry, lookups_from, lookups,
}

-- `f index`, `f (index + 1)` and so on, `rounds` values.
abbrev pub tabulate {ℓ} : {A : Type ℓ} → (ℕ → A) → ℕ → ℕ → List A
tabulate f index zero = []
tabulate f index (suc rounds) = f index ∷ tabulate f (index + 1) rounds

module _ (bytes : List ℕ) (w : IsWellFormed bytes) where
  -- The instruction that entry `index` of the table describes.
  abbrev pub instruction_at : ℕ → Instruction
  instruction_at index =
      let entry = instruction_table_at bytes + index * 16 in
      let base = instruction_bytes_at bytes in
      record {
        program_id_index = byte bytes entry;
        accounts = window bytes (base + word bytes (entry + 2) 2) (word bytes (entry + 4) 2);
        payload = window bytes (base + word bytes (entry + 8) 4) (word bytes (entry + 12) 4);
      }

  instruction_entry_lem :
      (index : ℕ)
      → index < Sections.instruction_count bytes
      → instruction_entry (transaction_at bytes) index ≡ ok (instruction_at index)
  unfolding instruction_entry
  instruction_entry_lem index h =
      let entry = instruction_table_at bytes + index * 16 in
      let base = instruction_bytes_at bytes in
      let fits : InstructionFits bytes (instruction_table_at bytes) (instruction_bytes_len bytes)
          index =
        Every-at _ 0 (Sections.instruction_count bytes) index w.instructions (omega arith)
          (omega arith) in
      let order = sections_in_order bytes in
      let body = w.body in
      rw (
        u16_at_lem bytes (entry + 2) (omega arith),
        u16_at_lem bytes (entry + 4) (omega arith),
        u32_at_lem bytes (entry + 8) (omega arith),
        u32_at_lem bytes (entry + 12) (omega arith),
        byte_at_lem bytes entry (omega arith),
        slice_here bytes (base + word bytes (entry + 2) 2) (word bytes (entry + 4) 2) (omega arith),
        slice_here bytes (base + word bytes (entry + 8) 4) (word bytes (entry + 12) 4)
            (omega arith),
      )

  -- The lookup that entry `index` of the table describes.
  abbrev pub lookup_at : ℕ → AddressLookup
  lookup_at index =
      let entry = lookup_table_at bytes + index * 40 in
      let base = lookup_bytes_at bytes in
      record {
        account_key = window bytes entry 32;
        writable_indexes =
            window bytes (base + word bytes (entry + 32) 2) (word bytes (entry + 34) 2);
        readonly_indexes =
            window bytes (base + word bytes (entry + 36) 2) (word bytes (entry + 38) 2);
      }

  lookup_entry_lem :
      (index : ℕ)
      → index < Sections.lookup_count bytes
      → lookup_entry (transaction_at bytes) index ≡ ok (lookup_at index)
  unfolding lookup_entry
  lookup_entry_lem index h =
      let entry = lookup_table_at bytes + index * 40 in
      let base = lookup_bytes_at bytes in
      let fits : LookupFits bytes (lookup_table_at bytes) (lookup_bytes_len bytes) index =
        Every-at _ 0 (Sections.lookup_count bytes) index w.lookups (omega arith) (omega arith) in
      let order = sections_in_order bytes in
      let body = w.body in
      rw (
        u16_at_lem bytes (entry + 32) (omega arith),
        u16_at_lem bytes (entry + 34) (omega arith),
        u16_at_lem bytes (entry + 36) (omega arith),
        u16_at_lem bytes (entry + 38) (omega arith),
        array_at_lem 32 bytes entry (omega arith),
        slice_here bytes (base + word bytes (entry + 32) 2) (word bytes (entry + 34) 2)
            (omega arith),
        slice_here bytes (base + word bytes (entry + 36) 2) (word bytes (entry + 38) 2)
            (omega arith),
      )

  pub instruction_lem :
      (index : ℕ)
      → instruction (transaction_at bytes) index ≡ (
          if ltb index (Sections.instruction_count bytes)
          then ok (some (instruction_at index))
          else ok none)
  unfolding instruction Fields.instruction_count
  instruction_lem index =
      rw (u16_at_lem bytes 94 (omega (arith, w.header)))
        (ground (arith, instruction_entry_lem index))

  instructions_from_lem :
      (index rounds : ℕ)
      → index + rounds ≤ Sections.instruction_count bytes
      → instructions_from (transaction_at bytes) index rounds
        ≡ ok (tabulate instruction_at index rounds)
  unfolding instructions_from expect
  instructions_from_lem index zero h = refl
  instructions_from_lem index (suc rounds) h =
      ground (arith, instruction_lem index, instructions_from_lem (index + 1) rounds)

  pub instructions_lem :
      instructions (transaction_at bytes)
      ≡ ok (tabulate instruction_at 0 (Sections.instruction_count bytes))
  unfolding instructions Fields.instruction_count
  instructions_lem =
      rw (u16_at_lem bytes 94 (omega (arith, w.header))) (instructions_from_lem 0 _ (omega arith))

  lookups_from_lem :
      (index rounds : ℕ)
      → index + rounds ≤ Sections.lookup_count bytes
      → lookups_from (transaction_at bytes) index rounds ≡ ok (tabulate lookup_at index rounds)
  unfolding lookups_from
  lookups_from_lem index zero h = refl
  lookups_from_lem index (suc rounds) h =
      rw (lookup_entry_lem index (omega arith), lookups_from_lem (index + 1) rounds (omega arith))

  pub lookups_lem :
      lookups (transaction_at bytes) ≡ ok (tabulate lookup_at 0 (Sections.lookup_count bytes))
  unfolding lookups Fields.lookup_count
  lookups_lem =
      rw (byte_at_lem bytes 98 (omega (arith, w.header))) (lookups_from_lem 0 _ (omega arith))
