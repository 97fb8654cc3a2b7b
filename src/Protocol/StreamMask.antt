-- ===== src/Protocol/StreamMask.antt =====
-- rust/src/protocol.rs: `StreamMask`, the streams that a subscriber may ask for.
use manka_shreds_sdk.Common.{ℕ, Bool, bit_and, bit_or, ◌==◌}

-- A mask of 32 bits
pub record StreamMask : Type 0 where
  pub bits : ℕ

abbrev pub transactions : ℕ
transactions = 1

abbrev pub entries : ℕ
entries = 2

abbrev pub slot_events : ℕ
slot_events = 4

abbrev pub duplicates : ℕ
duplicates = 8

abbrev pub raw_shreds : ℕ
raw_shreds = 16

abbrev pub source_stats : ℕ
source_stats = 32

abbrev pub votes : ℕ
votes = 64

-- `StreamMask::ALL`
abbrev pub all : StreamMask
all = record {
  bits =
      bit_or
        (bit_or (bit_or (bit_or (bit_or transactions entries) slot_events) duplicates) raw_shreds)
        votes;
}

-- `StreamMask::contains`
unfoldable pub contains : StreamMask → ℕ → Bool
contains self other = bit_and self.bits other == other
