-- ===== src/Protocol/ErrorMessage.antt =====
-- rust/src/protocol.rs: `ErrorMessage`, the server refused or is closing.
use manka_shreds_sdk.Common.{ℕ, ◌+◌, min, List, [], ◌∷◌, ltb, length}
use manka_shreds_sdk.Error.{Result, ok, truncated, fail_if, ◌>>=◌, ◌>>◌}
use manka_shreds_sdk.Bytes.{from_le, byte_at, slice}
use manka_shreds_sdk.Utf8.{from_utf8_lossy}
use manka_shreds_sdk.Protocol.Codes.{ErrorCode, error_code_from_u16}

-- `ErrorMessage`
pub record ErrorMessage : Type 0 where
  pub code : ErrorCode
  pub detail : List ℕ

-- `ErrorMessage::read`
unfoldable pub read : List ℕ → Result ErrorMessage
read bytes = do
  fail_if (ltb (length bytes) 4) (truncated "error" 4 (length bytes))
  l0 ← byte_at bytes 2
  l1 ← byte_at bytes 3
  let len = from_le (l0 ∷ l1 ∷ [])
  let end = min (4 + len) (length bytes)
  c0 ← byte_at bytes 0
  c1 ← byte_at bytes 1
  detail ← slice bytes 4 end
  ok (record {
    code = error_code_from_u16 (from_le (c0 ∷ c1 ∷ []));
    detail = from_utf8_lossy detail;
  })
