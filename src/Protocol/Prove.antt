-- ===== src/Protocol/Prove.antt =====
-- rust/src/protocol.rs: `Prove`, the client's proof that it holds the key.
use manka_shreds_sdk.Common.{ℕ, List, ◌++◌}
use manka_shreds_sdk.Handshake.{Proof}

-- `Prove`
pub record Prove : Type 0 where
  pub proof : Proof

-- `Prove::write`
unfoldable pub write : Prove → List ℕ → List ℕ
write self out = out ++ self.proof.bytes
