-- ===== src/Protocol/Challenge.antt =====
-- rust/src/protocol.rs: `Challenge`, the server's nonce and its proof that it holds the key.
use manka_shreds_sdk.Common.{ℕ, List, ltb, length}
use manka_shreds_sdk.Error.{Result, ok, truncated, fail_if, ◌>>=◌, ◌>>◌}
use manka_shreds_sdk.Bytes.{array_at}
use manka_shreds_sdk.Handshake.{Proof}

-- `Challenge`
pub record Challenge : Type 0 where
  pub server_nonce : List ℕ
  pub proof : Proof

-- `Challenge::LEN`
abbrev pub len : ℕ
len = 64

-- `Challenge::read`
unfoldable pub read : List ℕ → Result Challenge
read bytes = do
  fail_if (ltb (length bytes) len) (truncated "challenge" len (length bytes))
  server_nonce ← array_at 32 bytes 0
  proof ← array_at 32 bytes 32
  ok (record { server_nonce = server_nonce; proof = record { bytes = proof } })
