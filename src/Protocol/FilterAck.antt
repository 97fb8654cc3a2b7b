-- ===== src/Protocol/FilterAck.antt =====
-- rust/src/protocol.rs: `FilterAck`, the server's verdict on a submitted filter.
use manka_shreds_sdk.Common.{ℕ, ◌+◌, min, List, [], ◌∷◌, Bool, not, ltb, ◌==◌, length}
use manka_shreds_sdk.Error.{Result, ok, truncated, fail_if, ◌>>=◌, ◌>>◌}
use manka_shreds_sdk.Bytes.{from_le, byte_at, slice, u32_at}
use manka_shreds_sdk.Utf8.{from_utf8_lossy}

-- `FilterAck`
pub record FilterAck : Type 0 where
  pub accepted : Bool
  pub cost : ℕ
  pub detail : List ℕ

-- `FilterAck::read`
unfoldable pub read : List ℕ → Result FilterAck
read bytes = do
  fail_if (ltb (length bytes) 8) (truncated "filter ack" 8 (length bytes))
  l0 ← byte_at bytes 6
  l1 ← byte_at bytes 7
  let len = from_le (l0 ∷ l1 ∷ [])
  let end = min (8 + len) (length bytes)
  accepted ← byte_at bytes 0
  cost ← u32_at bytes 2
  detail ← slice bytes 8 end
  ok (record { accepted = not (accepted == 0); cost = cost; detail = from_utf8_lossy detail })
