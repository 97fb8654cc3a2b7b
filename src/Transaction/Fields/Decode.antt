-- ===== src/Transaction/Fields/Decode.antt =====
-- The header accessors on a transaction whose header is there: each is a word at its offset.
use manka_shreds_sdk.Common.{
  ℕ, zero, suc, ◌+◌, ◌-◌, ◌*◌, ◌/◌, ◌%◌, ◌^◌, ◌≤◌, ◌<◌, ◌≡◌, ap, arith, none, some, Bool, ◌==◌,
  if◌then◌else◌, length,
}
use manka_shreds_sdk.Common.Bits.{bit_and-pow, bit_and_three}
use manka_shreds_sdk.Error.{ok}
use manka_shreds_sdk.Bytes.{word, byte, window}
use manka_shreds_sdk.Bytes.Reads.{byte_at_lem, array_at_lem, u16_at_lem, u32_at_lem, u64_at_lem}
use manka_shreds_sdk.Protocol.Codes.{verified, disabled, unknown_leader, stale_schedule}
use manka_shreds_sdk.Transaction.{Transaction}
use manka_shreds_sdk.Transaction.Fields

digit_eq_one : (d p : ℕ) → d < 2 → 0 < p → (d * p == p) ≡ (d == 1)
digit_eq_one zero p h k = ground arith
digit_eq_one (suc zero) p h k = ground arith
digit_eq_one (suc (suc d)) p h k = absurd (omega arith)

module _ (tx : Transaction) (header : 104 ≤ length tx.bytes) where
  -- Digit `i` of the flags, and their number.
  abbrev pub flag : ℕ → Bool
  flag i = word tx.bytes 90 2 / 2 ^ i % 2 == 1

  has_lem : (i : ℕ) → 0 < 2 ^ i → Fields.has tx (2 ^ i) ≡ ok (flag i)
  unfolding Fields.has Fields.flags
  has_lem i p =
      rw (u16_at_lem tx.bytes 90 (omega (arith, header)), bit_and-pow)
        (ap ok (digit_eq_one (word tx.bytes 90 2 / 2 ^ i % 2) (2 ^ i) (omega arith) p))

  verification_lem :
      Fields.verification tx
      ≡ ok (
          if flag 1
          then verified
          else if word tx.bytes 90 2 / 32 % 4 == 1
          then unknown_leader
          else if word tx.bytes 90 2 / 32 % 4 == 2
          then stale_schedule
          else disabled)
  unfolding Fields.verification
  verification_lem = ground (
    arith,
    header,
    u16_at_lem tx.bytes 90,
    bit_and-pow 1 (word tx.bytes 90 2),
    bit_and_three (word tx.bytes 90 2 / 32),
  )

  -- On a transaction with a whole header, each flag accessor reads its own binary digit of
  -- the flags, the leader is there exactly if its digit is set, and the verification follows
  -- its digit and then the two digits of the reason.
  pub flags_lem :
      (Fields.is_vote tx ≡ ok (flag 0))
      × (Fields.recovered tx ≡ ok (flag 3))
      × (Fields.leader tx ≡ ok (if flag 4 then some (window tx.bytes 32 32) else none))
      × (Fields.lookups_partial tx ≡ ok (flag 7))
      × (Fields.lookups_tentative tx ≡ ok (flag 8))
      × (Fields.is_late tx ≡ ok (flag 9))
      × (Fields.verification tx
          ≡ ok (
              if flag 1
              then verified
              else if word tx.bytes 90 2 / 32 % 4 == 1
              then unknown_leader
              else if word tx.bytes 90 2 / 32 % 4 == 2
              then stale_schedule
              else disabled))
  unfolding Fields.is_vote Fields.recovered Fields.leader Fields.lookups_partial
      Fields.lookups_tentative Fields.is_late
  flags_lem = (
    has_lem 0 (omega arith),
    has_lem 3 (omega arith),
    leader_lem,
    has_lem 7 (omega arith),
    has_lem 8 (omega arith),
    has_lem 9 (omega arith),
    verification_lem,
  )
    where
      leader_lem : Fields.leader tx ≡ ok (if flag 4 then some (window tx.bytes 32 32) else none)
      leader_lem = ground (arith, header, has_lem 4 (omega arith), array_at_lem 32 tx.bytes 32)

  -- On a transaction with a whole header, each of the twenty accessors listed returns the
  -- little-endian word at its offset, or the difference, cut off at 0, of such words.
  pub words_lem :
      (Fields.slot tx ≡ ok (word tx.bytes 0 8))
      × (Fields.parent_slot tx ≡ ok (word tx.bytes 8 8))
      × (Fields.rx_ts_ns tx ≡ ok (word tx.bytes 16 8))
      × (Fields.emit_ts_ns tx ≡ ok (word tx.bytes 24 8))
      × (Fields.pipeline_ns tx ≡ ok (word tx.bytes 24 8 - word tx.bytes 16 8))
      × (Fields.fec_set_index tx ≡ ok (word tx.bytes 64 4))
      × (Fields.entry_index tx ≡ ok (word tx.bytes 68 4))
      × (Fields.tx_index tx ≡ ok (word tx.bytes 72 4))
      × (Fields.source_id tx ≡ ok (word tx.bytes 88 2))
      × (Fields.flags tx ≡ ok (word tx.bytes 90 2))
      × (Fields.account_count tx ≡ ok (word tx.bytes 92 2))
      × (Fields.instruction_count tx ≡ ok (word tx.bytes 94 2))
      × (Fields.signature_count tx ≡ ok (byte tx.bytes 96))
      × (Fields.message_version tx ≡ ok (byte tx.bytes 97))
      × (Fields.lookup_count tx ≡ ok (byte tx.bytes 98))
      × (Fields.required_signatures tx ≡ ok (byte tx.bytes 99))
      × (Fields.readonly_signed tx ≡ ok (byte tx.bytes 100))
      × (Fields.readonly_unsigned tx ≡ ok (byte tx.bytes 101))
      × (Fields.loaded_counts tx ≡ ok (byte tx.bytes 102, byte tx.bytes 103))
      × (Fields.static_account_count tx
          ≡ ok (word tx.bytes 92 2 - (byte tx.bytes 102 + byte tx.bytes 103)))
  unfolding Fields.slot Fields.parent_slot Fields.pipeline_ns Fields.fec_set_index
      Fields.entry_index Fields.tx_index Fields.source_id Fields.flags Fields.instruction_count
      Fields.signature_count Fields.message_version Fields.lookup_count Fields.required_signatures
      Fields.readonly_signed Fields.readonly_unsigned Fields.static_account_count
  words_lem =
      let u8 = λ (i : ℕ) (h : i < 104). byte_at_lem tx.bytes i (omega (arith, header)) in
      let u16 = λ (i : ℕ) (h : i + 2 ≤ 104). u16_at_lem tx.bytes i (omega (arith, header)) in
      let u32 = λ (i : ℕ) (h : i + 4 ≤ 104). u32_at_lem tx.bytes i (omega (arith, header)) in
      let u64 = λ (i : ℕ) (h : i + 8 ≤ 104). u64_at_lem tx.bytes i (omega (arith, header)) in
      (
        u64 0 (omega arith),
        u64 8 (omega arith),
        u64 16 (omega arith),
        u64 24 (omega arith),
        rw (u64 24 (omega arith), u64 16 (omega arith)),
        u32 64 (omega arith),
        u32 68 (omega arith),
        u32 72 (omega arith),
        u16 88 (omega arith),
        u16 90 (omega arith),
        u16 92 (omega arith),
        u16 94 (omega arith),
        u8 96 (omega arith),
        u8 97 (omega arith),
        u8 98 (omega arith),
        u8 99 (omega arith),
        u8 100 (omega arith),
        u8 101 (omega arith),
        rw (u8 102 (omega arith), u8 103 (omega arith)),
        rw (u8 102 (omega arith), u8 103 (omega arith), u16 92 (omega arith)),
      )
