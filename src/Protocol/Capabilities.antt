-- ===== src/Protocol/Capabilities.antt =====
-- rust/src/protocol.rs: `Capabilities`, what a client can accept beyond its streams.
use manka_shreds_sdk.Common.{ℕ, Bool, bit_and, ◌==◌}

-- A mask of eight bits
pub record Capabilities : Type 0 where
  pub bits : ℕ

-- `Capabilities::ACCEPTS_DICTIONARY`, `1 << 0`
abbrev pub accepts_dictionary : ℕ
accepts_dictionary = 1

-- `Capabilities::UNPACKS_LOOKUPS`, `1 << 1`
abbrev pub unpacks_lookups : ℕ
unpacks_lookups = 2

-- `Capabilities::has`
unfoldable pub has : Capabilities → ℕ → Bool
has self bits = bit_and self.bits bits == bits
