-- ===== src/Protocol/FilterMask.antt =====
-- rust/src/protocol.rs: `FilterMask`, which named filters a frame matched.
pub mod Bits
use manka_shreds_sdk.Common.{
  ℕ, zero, suc, ◌+◌, ◌^◌, ◌%◌, List, [], ◌∷◌, Bool, not, bit_and, ◌==◌, if◌then◌else◌,
}

-- A mask of 16 bits
pub record FilterMask : Type 0 where
  pub bits : ℕ

-- `FilterMask::CAPACITY`
abbrev pub capacity : ℕ
capacity = 16

-- `FilterMask::has`. A shift of a `u16` takes its count modulo 16.
unfoldable pub has : FilterMask → ℕ → Bool
has self index = not (bit_and self.bits (2 ^ (index % 16)) == 0)

-- `FilterMask::is_empty`
unfoldable pub is_empty : FilterMask → Bool
is_empty self = self.bits == 0

-- The indices of `(from..from + count).filter(…)`
unfoldable pub matched_from : FilterMask → ℕ → ℕ → List ℕ
unfolding has
matched_from self from zero = []
matched_from self from (suc count) =
    let rest = matched_from self (from + 1) count in if has self from then from ∷ rest else rest

-- `FilterMask::iter`
unfoldable pub iter : FilterMask → List ℕ
unfolding matched_from
iter self = matched_from self 0 capacity
