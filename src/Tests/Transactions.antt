-- ===== src/Tests/Transactions.antt =====
-- A transaction of one account, one instruction and one lookup, and a frame of completed lookups.
use manka_shreds_sdk.Common.{
  ℕ, ◌*◌, ◌≡◌, ◌≢◌, refl, arith, List, [], ◌∷◌, ◌++◌, length, get_elem?, replicate, All,
}
use manka_shreds_sdk.Error.{ok, panic}
use manka_shreds_sdk.Bytes.{to_le, word, window, u32_at, array_at, slice, to_array, u16_at, byte_at}
use manka_shreds_sdk.Transaction.{
  Transaction, read, take_section, align8, check_instructions, check_lookups,
}
use manka_shreds_sdk.Transaction.Sections
use manka_shreds_sdk.Transaction.Sections.{IsWellFormed, transaction_at}
use manka_shreds_sdk.Transaction.Read.{read-ne-panic, read-IsWellFormed, IsWellFormed-read}
use manka_shreds_sdk.Transaction.Fields
use manka_shreds_sdk.Transaction.Access.{
  Instruction, signature, signatures, account_key, account_keys, recent_blockhash, instruction,
  instructions, lookups, raw_tx,
}
use manka_shreds_sdk.Transaction.Access.Arrays.{join}
use manka_shreds_sdk.Transaction.Access.Total.{
  account_key-account_keys, instruction-instructions, accessors-ne-panic,
}

-- The header: three bytes of instruction data, two of lookups, the flags of a vote with a leader, and
-- the counts.
abbrev header_bytes : List ℕ
header_bytes =
    to_le 8 1000
    ++ to_le 8 999
    ++ to_le 8 50
    ++ to_le 8 80
    ++ replicate 32 7
    ++ replicate 12 0
    ++ to_le 4 3
    ++ to_le 4 2
    ++ to_le 4 0
    ++ to_le 2 2
    ++ to_le 2 17
    ++ to_le 2 1
    ++ to_le 2 1
    ++ (1 ∷ 0 ∷ 1 ∷ 1 ∷ 0 ∷ 0 ∷ 0 ∷ 0 ∷ [])

-- One signature, one key, the blockhash, the table and the bytes of the instructions, those of the
-- lookups.
abbrev sample : List ℕ
sample =
    header_bytes
    ++ replicate 64 1
    ++ replicate 32 2
    ++ replicate 32 3
    ++ (0 ∷ 0 ∷ to_le 2 0 ++ to_le 2 1 ++ to_le 2 0 ++ to_le 4 1 ++ to_le 4 2)
    ++ (0 ∷ 8 ∷ 9 ∷ replicate 5 0)
    ++ (replicate 32 4 ++ to_le 2 0 ++ to_le 2 1 ++ to_le 2 1 ++ to_le 2 1)
    ++ (5 ∷ 6 ∷ replicate 6 0)

abbrev parsed : Transaction
parsed = record {
  bytes = sample;
  signatures_at = 104;
  account_keys_at = 168;
  blockhash_at = 200;
  instruction_table_at = 232;
  instruction_bytes_at = 248;
  lookup_table_at = 256;
  lookup_bytes_at = 296;
  raw_tx_at = 304;
}

read-sample : read sample ≡ ok parsed
unfolding read u32_at array_at slice to_array u16_at byte_at take_section align8 check_instructions
    check_lookups
read-sample = refl

sample_IsWellFormed : IsWellFormed sample
sample_IsWellFormed = (read-IsWellFormed sample parsed read-sample).0

read-ne-panic_example : read sample ≢ panic
read-ne-panic_example = read-ne-panic sample

read-IsWellFormed_example : IsWellFormed sample × (parsed ≡ transaction_at sample)
read-IsWellFormed_example = read-IsWellFormed sample parsed read-sample

IsWellFormed-read_example : read sample ≡ ok (transaction_at sample)
IsWellFormed-read_example = IsWellFormed-read sample (omega arith) sample_IsWellFormed

account_key-account_keys_example :
    (keys : List (List ℕ)) × (account_keys parsed ≡ ok keys)
    × (length keys ≡ word sample 92 2)
    × (join keys ≡ window sample (Sections.account_keys_at sample) (word sample 92 2 * 32))
    × All (λ (key : List ℕ). length key ≡ 32) keys
    × ((index : ℕ) → account_key parsed index ≡ ok (get_elem? keys index))
account_key-account_keys_example = account_key-account_keys sample parsed read-sample

instruction-instructions_example :
    (items : List Instruction) × (instructions parsed ≡ ok items)
    × (length items ≡ word sample 94 2)
    × ((index : ℕ) → instruction parsed index ≡ ok (get_elem? items index))
instruction-instructions_example = instruction-instructions sample parsed read-sample

accessors-ne-panic_example :
    (Fields.slot parsed ≢ panic)
    × (Fields.parent_slot parsed ≢ panic)
    × (Fields.pipeline_ns parsed ≢ panic)
    × (Fields.leader parsed ≢ panic)
    × (Fields.is_vote parsed ≢ panic)
    × (Fields.recovered parsed ≢ panic)
    × (Fields.verification parsed ≢ panic)
    × (Fields.message_version parsed ≢ panic)
    × (Fields.static_account_count parsed ≢ panic)
    × (signature parsed ≢ panic)
    × (signatures parsed ≢ panic)
    × (account_keys parsed ≢ panic)
    × ((index : ℕ) → account_key parsed index ≢ panic)
    × (recent_blockhash parsed ≢ panic)
    × (instructions parsed ≢ panic)
    × ((index : ℕ) → instruction parsed index ≢ panic)
    × (lookups parsed ≢ panic)
    × (raw_tx parsed ≢ panic)
accessors-ne-panic_example = accessors-ne-panic sample parsed read-sample
