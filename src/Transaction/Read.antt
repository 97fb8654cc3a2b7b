-- ===== src/Transaction/Read.antt =====
-- `Transaction::read`: what it accepts, and that it never panics.
use manka_shreds_sdk.Common.{
  ℕ, ◌-◌, ◌^◌, ◌≤◌, ◌<◌, ◌≡◌, ◌≢◌, inl, inr, arith, List, leb, ltb, if◌then◌else◌, length,
}
use native.Mathlib.Decide.{dec_le}
use manka_shreds_sdk.Error.{Result, ok, err, panic, truncated, ◌>>◌}
use manka_shreds_sdk.Bytes.Reads.{byte_at_lem, u16_at_lem, u32_at_lem}
use manka_shreds_sdk.Transaction.{
  Transaction, read, take_section, check_instructions, check_lookups,
}
use manka_shreds_sdk.Transaction.Sections.{
  instruction_bytes_len, lookup_bytes_len, instruction_count, lookup_count, account_keys_at,
  blockhash_at, instruction_table_at, instruction_bytes_at, lookup_table_at, lookup_bytes_at,
  raw_tx_at, end_at, transaction_at, sections_in_order, IsWellFormed,
}
use manka_shreds_sdk.Transaction.Entries.{
  InstructionFits, LookupFits, Outcome, Outcome-Every, Every-Outcome, Outcome-cases,
  check_instructions_lem, check_lookups_lem,
}

module _ (bytes : List ℕ) where
  -- The outcome of the section at `at` of `len` bytes, before `rest`.
  abbrev within : ℕ → Result Transaction → Result Transaction
  within end rest =
      if leb (2 ^ 64) end
      then err (truncated "transaction" (2 ^ 64 - 1) (length bytes))
      else if ltb (length bytes) end
      then err (truncated "transaction" end (length bytes))
      else rest

  abbrev checked : Result Transaction
  checked = do
    check_instructions bytes (instruction_table_at bytes) (instruction_bytes_len bytes) 0
        (instruction_count bytes)
    check_lookups bytes (lookup_table_at bytes) (lookup_bytes_len bytes) 0 (lookup_count bytes)
    ok (transaction_at bytes)

  read_lem :
      104 ≤ length bytes
      → read bytes
        ≡ within (account_keys_at bytes) (
            within (blockhash_at bytes) (
              within (instruction_table_at bytes) (
                within (instruction_bytes_at bytes) (
                  within (lookup_table_at bytes) (
                    within
                      (lookup_bytes_at bytes)
                      (within (raw_tx_at bytes) (within (end_at bytes) checked)))))))
  unfolding read take_section account_keys_at blockhash_at instruction_table_at instruction_bytes_at
      lookup_table_at lookup_bytes_at raw_tx_at end_at
  read_lem h = ground (
    arith,
    u32_at_lem bytes 76,
    u32_at_lem bytes 80,
    u16_at_lem bytes 92,
    u16_at_lem bytes 94,
    byte_at_lem bytes 96,
    byte_at_lem bytes 98,
    u32_at_lem bytes 84,
  )

  read_short :
      length bytes < 104 → read bytes ≡ err (truncated "transaction header" 104 (length bytes))
  unfolding read
  read_short h = ground arith

  module _ (inside : (end_at bytes) ≤ length bytes) where
    instructions-Outcome :
        Outcome
          (InstructionFits bytes (instruction_table_at bytes) (instruction_bytes_len bytes))
          "instruction"
          0
          (instruction_count bytes)
          (check_instructions bytes
            (instruction_table_at bytes)
            (instruction_bytes_len bytes)
            0
            (instruction_count bytes))
    instructions-Outcome =
        check_instructions_lem bytes (instruction_table_at bytes) (instruction_bytes_len bytes)
          (instruction_count bytes) 0 (omega (arith, (sections_in_order bytes)))

    lookups-Outcome :
        Outcome
          (LookupFits bytes (lookup_table_at bytes) (lookup_bytes_len bytes))
          "lookup"
          0
          (lookup_count bytes)
          (check_lookups bytes
            (lookup_table_at bytes)
            (lookup_bytes_len bytes)
            0
            (lookup_count bytes))
    lookups-Outcome =
        check_lookups_lem bytes (lookup_table_at bytes) (lookup_bytes_len bytes)
          (lookup_count bytes) 0 (omega (arith, (sections_in_order bytes)))

    checked-ne-panic : checked ≢ panic
    checked-ne-panic =
        elim (Outcome-cases
          (InstructionFits bytes (instruction_table_at bytes) (instruction_bytes_len bytes))
          "instruction" 0 (instruction_count bytes) instructions-Outcome) [
            | inl fine ↦
                elim (Outcome-cases
                  (LookupFits bytes (lookup_table_at bytes) (lookup_bytes_len bytes)) "lookup" 0
                  (lookup_count bytes) lookups-Outcome) [
                    | inl good ↦ rw (fine, good) (λ e. cc)
                    | inr (bad, e, lt, n) ↦ rw (fine, e) (λ p. cc)
                  ]
            | inr (bad, e, lt, n) ↦ rw e (λ p. cc)
          ]

    checked_ok :
        (tx : Transaction) → checked ≡ ok tx → IsWellFormed bytes × (tx ≡ (transaction_at bytes))
    checked_ok tx h =
        let (fine, good, same) = parts in
        (
          record {
            header = omega (arith, (sections_in_order bytes));
            body = inside;
            instructions =
                Outcome-Every _ "instruction" 0 (instruction_count bytes) instructions-Outcome fine;
            lookups = Outcome-Every _ "lookup" 0 (lookup_count bytes) lookups-Outcome good;
          },
          same,
        )
      where
        parts :
            (check_instructions bytes
                (instruction_table_at bytes)
                (instruction_bytes_len bytes)
                0
                (instruction_count bytes)
              ≡ ok tt)
            × (check_lookups bytes
                  (lookup_table_at bytes)
                  (lookup_bytes_len bytes)
                  0
                  (lookup_count bytes)
                ≡ ok tt)
            × (tx ≡ (transaction_at bytes))
        parts = ground arith

  -- `read` never panics: whatever the bytes are, it returns a transaction or an error.
  pub read-ne-panic : read bytes ≢ panic
  read-ne-panic e = elim (dec_le 104 (length bytes)) [
    | yes header ↦ elim (dec_le (end_at bytes) (length bytes)) [
      | yes inside ↦ ground (arith, read_lem header, checked-ne-panic inside)
      | no outside ↦ ground (arith, read_lem header)
    ]
    | no short ↦ cc (read_short (omega arith))
  ]

  -- If `read` accepts some bytes, they are well formed (every section lies inside them, one
  -- behind the other, and every entry of both tables points inside its own byte region), and
  -- the result is the record of these sections' starts.
  pub read-IsWellFormed :
      (tx : Transaction) → read bytes ≡ ok tx → IsWellFormed bytes × (tx ≡ (transaction_at bytes))
  read-IsWellFormed tx e = elim (dec_le 104 (length bytes)) [
    | yes header ↦ elim (dec_le (end_at bytes) (length bytes)) [
      | yes inside ↦ checked_ok inside tx (ground (arith, read_lem header))
      | no outside ↦ ground (arith, read_lem header)
    ]
    | no short ↦ absurd (cc (read_short (omega arith)))
  ]

  -- Well-formed bytes, fewer than 2^64, are accepted by `read`, which returns the record of
  -- their sections' starts.
  pub IsWellFormed-read :
      length bytes < 2 ^ 64 → IsWellFormed bytes → read bytes ≡ ok (transaction_at bytes)
  IsWellFormed-read fits w = ground (
    arith,
    read_lem w.header,
    (sections_in_order bytes),
    Every-Outcome _ "instruction" 0 (instruction_count bytes) (instructions-Outcome w.body)
        w.instructions,
    Every-Outcome _ "lookup" 0 (lookup_count bytes) (lookups-Outcome w.body) w.lookups,
  )
