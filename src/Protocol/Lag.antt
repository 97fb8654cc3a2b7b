-- ===== src/Protocol/Lag.antt =====
-- rust/src/protocol.rs: `Lag`, the frames that this client missed.
use manka_shreds_sdk.Common.{ℕ, List, ltb, length}
use manka_shreds_sdk.Error.{Result, ok, truncated, fail_if, ◌>>=◌, ◌>>◌}
use manka_shreds_sdk.Bytes.{u64_at}

-- `Lag`
pub record Lag : Type 0 where
  pub dropped : ℕ
  pub resume_seq : ℕ

-- `Lag::LEN`
abbrev pub len : ℕ
len = 16

-- `Lag::read`
unfoldable pub read : List ℕ → Result Lag
read bytes = do
  fail_if (ltb (length bytes) len) (truncated "lag" len (length bytes))
  dropped ← u64_at bytes 0
  resume_seq ← u64_at bytes 8
  ok (record { dropped = dropped; resume_seq = resume_seq })
