-- ===== src/Transaction/Entries.antt =====
-- The two table checks of `Transaction::read`, against what they are to establish.
use manka_shreds_sdk.Common.{
  ℕ, zero, suc, ◌+◌, ◌*◌, ◌≤◌, ◌<◌, ◌≡◌, ◌⊎◌, inl, inr, refl, arith, List, String, subst, le→ltb,
  length,
}
use native.Mathlib.Decide.{dec_le}
use manka_shreds_sdk.Error.{Result, ok, err, bad_offset}
use manka_shreds_sdk.Bytes.{word}
use manka_shreds_sdk.Bytes.Reads.{u16_at_lem, u32_at_lem}
use manka_shreds_sdk.Transaction.{check_instructions, check_lookups}

-- The two ranges that an entry of each table names lie inside its byte region.
pub record InstructionFits (bytes : List ℕ) (table_at region index : ℕ) : Type 0 where
  pub accounts :
      word bytes (table_at + index * 16 + 2) 2 + word bytes (table_at + index * 16 + 4) 2 ≤ region
  pub payload :
      word bytes (table_at + index * 16 + 8) 4 + word bytes (table_at + index * 16 + 12) 4 ≤ region

pub record LookupFits (bytes : List ℕ) (table_at region index : ℕ) : Type 0 where
  pub writable :
      word bytes (table_at + index * 40 + 32) 2 + word bytes (table_at + index * 40 + 34) 2 ≤ region
  pub readonly :
      word bytes (table_at + index * 40 + 36) 2 + word bytes (table_at + index * 40 + 38) 2 ≤ region

-- `P` holds for `rounds` indices from `index` on.
abbrev pub Every : (ℕ → Type 0) → ℕ → ℕ → Type 0
Every P index zero = Unit
Every P index (suc rounds) = P index × Every P (index + 1) rounds

pub Every-at :
    (P : ℕ → Type 0) (index rounds i : ℕ)
    → Every P index rounds
    → index ≤ i
    → i < index + rounds
    → P i
Every-at P index zero i all h k = absurd (omega arith)
Every-at P index (suc rounds) i all h k = elim (dec_le (index + 1) i) [
  | yes later ↦ Every-at P (index + 1) rounds i all.1 later (omega arith)
  | no here ↦ subst P (omega arith) all.0
]

-- What a checking loop answers: the first index that fails `P` is reported, else all is well.
abbrev pub Outcome : (ℕ → Type 0) → String → ℕ → ℕ → Result (Unit {0}) → Type 0
Outcome P what index zero r = r ≡ ok tt
Outcome P what index (suc rounds) r =
    (P index × Outcome P what (index + 1) rounds r)
    ⊎ ((¬ P index) × (r ≡ err (bad_offset what index)))

module _ (P : ℕ → Type 0) (what : String) {r : Result (Unit {0})} where
  pub Outcome-Every :
      (index rounds : ℕ) → Outcome P what index rounds r → r ≡ ok tt → Every P index rounds
  Outcome-Every index zero o e = tt
  Outcome-Every index (suc rounds) (inl (p, o)) e = (p, Outcome-Every (index + 1) rounds o e)
  Outcome-Every index (suc rounds) (inr (p, o)) e = cc

  pub Every-Outcome :
      (index rounds : ℕ) → Outcome P what index rounds r → Every P index rounds → r ≡ ok tt
  Every-Outcome index zero o all = o
  Every-Outcome index (suc rounds) (inl (p, o)) all = Every-Outcome (index + 1) rounds o all.1
  Every-Outcome index (suc rounds) (inr (p, o)) all = absurd (p all.0)

  pub Outcome-cases :
      (index rounds : ℕ)
      → Outcome P what index rounds r
      → (r ≡ ok tt)
        ⊎ ((bad : ℕ) × (r ≡ err (bad_offset what bad)) × (bad < index + rounds) × (¬ P bad))
  Outcome-cases index zero o = inl o
  Outcome-cases index (suc rounds) (inl (p, o)) = elim (Outcome-cases (index + 1) rounds o) [
    | inl fine ↦ inl fine
    | inr (bad, e, lt, n) ↦ inr (bad, e, omega arith, n)
  ]
  Outcome-cases index (suc rounds) (inr (p, o)) = inr (index, o, omega arith, p)

pub check_instructions_lem :
    (bytes : List ℕ) (table_at region rounds index : ℕ)
    → table_at + (index + rounds) * 16 ≤ length bytes
    → Outcome
        (InstructionFits bytes table_at region)
        "instruction"
        index
        rounds
        (check_instructions bytes table_at region index rounds)
unfolding check_instructions
check_instructions_lem bytes table_at region zero index h = refl
check_instructions_lem bytes table_at region (suc rounds) index h =
    let entry = table_at + index * 16 in
    let accounts = word bytes (entry + 2) 2 + word bytes (entry + 4) 2 in
    let payload = word bytes (entry + 8) 4 + word bytes (entry + 12) 4 in
    let a2 = u16_at_lem bytes (entry + 2) (omega arith) in
    let a4 = u16_at_lem bytes (entry + 4) (omega arith) in
    let a8 = u32_at_lem bytes (entry + 8) (omega arith) in
    let a12 = u32_at_lem bytes (entry + 12) (omega arith) in
    let rest = check_instructions_lem bytes table_at region rounds (index + 1) (omega arith) in
    elim (dec_le accounts region) [
      | yes a ↦ elim (dec_le payload region) [
        | yes b ↦ inl (
          record { accounts = a; payload = b },
          rw (a2, a4, a8, a12, le→ltb region accounts a, le→ltb region payload b) rest,
        )
        | no b ↦ inr (λ f. b f.payload, ground (arith, a2, a4, a8, a12))
      ]
      | no a ↦ inr (λ f. a f.accounts, ground (arith, a2, a4, a8, a12))
    ]

pub check_lookups_lem :
    (bytes : List ℕ) (table_at region rounds index : ℕ)
    → table_at + (index + rounds) * 40 ≤ length bytes
    → Outcome
        (LookupFits bytes table_at region)
        "lookup"
        index
        rounds
        (check_lookups bytes table_at region index rounds)
unfolding check_lookups
check_lookups_lem bytes table_at region zero index h = refl
check_lookups_lem bytes table_at region (suc rounds) index h =
    let entry = table_at + index * 40 in
    let writable = word bytes (entry + 32) 2 + word bytes (entry + 34) 2 in
    let readonly = word bytes (entry + 36) 2 + word bytes (entry + 38) 2 in
    let a0 = u16_at_lem bytes (entry + 32) (omega arith) in
    let a2 = u16_at_lem bytes (entry + 34) (omega arith) in
    let a4 = u16_at_lem bytes (entry + 36) (omega arith) in
    let a6 = u16_at_lem bytes (entry + 38) (omega arith) in
    let rest = check_lookups_lem bytes table_at region rounds (index + 1) (omega arith) in
    elim (dec_le writable region) [
      | yes a ↦ elim (dec_le readonly region) [
        | yes b ↦ inl (
          record { writable = a; readonly = b },
          rw (a0, a2, a4, a6, le→ltb region writable a, le→ltb region readonly b) rest,
        )
        | no b ↦ inr (λ f. b f.readonly, ground (arith, a0, a2, a4, a6))
      ]
      | no a ↦ inr (λ f. a f.writable, ground (arith, a0, a2, a4, a6))
    ]
