-- ===== src/Transaction/Access/Total.antt =====
-- Everything that a transaction offers once `read` has accepted its bytes.
use manka_shreds_sdk.Common.{
  ℕ, zero, suc, ◌+◌, ◌*◌, ◌≡◌, ◌≢◌, refl, ap, ◌∙◌, arith, List, none, some, ltb, if◌then◌else◌,
  length, get_elem?, All,
}
use native.Mathlib.Nat.{add-zero}
use manka_shreds_sdk.Error.{ok, panic}
use manka_shreds_sdk.Bytes.{word, window}
use manka_shreds_sdk.Transaction.{Transaction, read}
use manka_shreds_sdk.Transaction.Sections
use manka_shreds_sdk.Transaction.Sections.{transaction_at, sections_in_order, IsWellFormed}
use manka_shreds_sdk.Transaction.Read.{read-IsWellFormed}
use manka_shreds_sdk.Transaction.Fields
use manka_shreds_sdk.Transaction.Fields.Decode.{words_lem, flags_lem}
use manka_shreds_sdk.Transaction.Access.{
  Instruction, signature, signatures, account_key, account_keys, recent_blockhash, instruction,
  instructions, lookups, raw_tx,
}
use manka_shreds_sdk.Transaction.Access.Arrays.{
  chunks, length-chunks, get_elem?-chunks, join, join-chunks, chunks-All,
}
use manka_shreds_sdk.Transaction.Access.Sound.{
  signatures_lem, account_keys_lem, account_key_lem, signature_lem, recent_blockhash_lem,
  raw_tx_lem,
}
use manka_shreds_sdk.Transaction.Access.Listing.{
  tabulate, instruction_at, instruction_lem, instructions_lem, lookups_lem,
}

length-tabulate {ℓ} :
    {A : Type ℓ} (f : ℕ → A) (index rounds : ℕ) → length (tabulate f index rounds) ≡ rounds
length-tabulate f index zero = refl
length-tabulate f index (suc rounds) = ap suc (length-tabulate f (index + 1) rounds)

get_elem?-tabulate {ℓ} :
    {A : Type ℓ} (f : ℕ → A) (index rounds i : ℕ)
    → get_elem? (tabulate f index rounds) i ≡ (if ltb i rounds then some (f (index + i)) else none)
get_elem?-tabulate f index zero i = ground arith
get_elem?-tabulate f index (suc rounds) zero = rw add-zero (ground arith)
get_elem?-tabulate f index (suc rounds) (suc i) =
    get_elem?-tabulate f (index + 1) rounds i ∙ rw next (ground arith)
  where
    next : index + 1 + i ≡ index + suc i
    next = omega arith

module _ (bytes : List ℕ) (tx : Transaction) (accepted : read bytes ≡ ok tx) where
  -- On a transaction that `read` accepted, the list of account keys has as many keys as the
  -- header counts, each of 32 bytes, together they are the section of keys, and `account_key`
  -- at any index is the lookup of that index in the list.
  pub account_key-account_keys :
      (keys : List (List ℕ)) × (account_keys tx ≡ ok keys)
      × (length keys ≡ word bytes 92 2)
      × (join keys ≡ window bytes (Sections.account_keys_at bytes) (word bytes 92 2 * 32))
      × All (λ (key : List ℕ). length key ≡ 32) keys
      × ((index : ℕ) → account_key tx index ≡ ok (get_elem? keys index))
  account_key-account_keys =
      let (w, same) = read-IsWellFormed bytes tx accepted in
      let keys = chunks 32 bytes (Sections.account_keys_at bytes) 0 (word bytes 92 2) in
      rw same (
        keys,
        account_keys_lem bytes w,
        length-chunks 32 bytes _ 0 _,
        join-chunks 32 bytes _ 0 _ ∙ ap (λ m. window bytes m (word bytes 92 2 * 32)) (omega arith),
        chunks-All 32 bytes _ 0 _ (omega (arith, w.body, sections_in_order bytes)),
        λ index.
            account_key_lem bytes w index
            ∙ ground (
              arith,
              get_elem?-chunks 32 bytes (Sections.account_keys_at bytes) 0 (word bytes 92 2) index,
            ),
      )

  -- On a transaction that `read` accepted, the list of instructions has as many items as the
  -- header counts, and `instruction` at any index is the lookup of that index in the list.
  pub instruction-instructions :
      (items : List Instruction) × (instructions tx ≡ ok items)
      × (length items ≡ word bytes 94 2)
      × ((index : ℕ) → instruction tx index ≡ ok (get_elem? items index))
  instruction-instructions =
      let (w, same) = read-IsWellFormed bytes tx accepted in
      let item = instruction_at bytes w in
      rw same (
        tabulate item 0 (word bytes 94 2),
        instructions_lem bytes w,
        length-tabulate item 0 (word bytes 94 2),
        λ index.
            instruction_lem bytes w index
            ∙ ground (arith, get_elem?-tabulate item 0 (word bytes 94 2) index),
      )

  -- On a transaction that `read` accepted, none of the eighteen accessors listed panics,
  -- those by index at any index.
  pub accessors-ne-panic :
      (Fields.slot tx ≢ panic)
      × (Fields.parent_slot tx ≢ panic)
      × (Fields.pipeline_ns tx ≢ panic)
      × (Fields.leader tx ≢ panic)
      × (Fields.is_vote tx ≢ panic)
      × (Fields.recovered tx ≢ panic)
      × (Fields.verification tx ≢ panic)
      × (Fields.message_version tx ≢ panic)
      × (Fields.static_account_count tx ≢ panic)
      × (signature tx ≢ panic)
      × (signatures tx ≢ panic)
      × (account_keys tx ≢ panic)
      × ((index : ℕ) → account_key tx index ≢ panic)
      × (recent_blockhash tx ≢ panic)
      × (instructions tx ≢ panic)
      × ((index : ℕ) → instruction tx index ≢ panic)
      × (lookups tx ≢ panic)
      × (raw_tx tx ≢ panic)
  accessors-ne-panic =
      let (w, same) = read-IsWellFormed bytes tx accepted in
      let words = words_lem (transaction_at bytes) w.header in
      let flags = flags_lem (transaction_at bytes) w.header in
      rw same (
        λ e. cc words.0,
        λ e. cc words.1,
        λ e. cc words.4,
        λ e. cc flags.2,
        λ e. cc flags.0,
        λ e. cc flags.1,
        λ e. cc flags.6,
        λ e. cc words.13,
        λ e. cc words.19,
        λ e. ground (arith, signature_lem bytes w),
        λ e. cc (signatures_lem bytes w),
        λ e. cc (account_keys_lem bytes w),
        (λ index e. ground (arith, account_key_lem bytes w index)),
        λ e. cc (recent_blockhash_lem bytes w),
        λ e. cc (instructions_lem bytes w),
        (λ index e. ground (arith, instruction_lem bytes w index)),
        λ e. cc (lookups_lem bytes w),
        λ e. cc (raw_tx_lem bytes w),
      )
