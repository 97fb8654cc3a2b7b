-- ===== src/Protocol/Hello.antt =====
-- rust/src/protocol.rs: `Hello`, what a client offers when it connects.
pub mod Layout
use manka_shreds_sdk.Common.{ℕ, List, [], ◌∷◌, ◌++◌, Option, none, some, length}
use manka_shreds_sdk.Bytes.{to_le}
use manka_shreds_sdk.Handshake.{KeyRef}
use manka_shreds_sdk.Protocol.Capabilities.{Capabilities}
use manka_shreds_sdk.Protocol.StreamMask.{StreamMask}

-- `PROTOCOL_VERSION`
abbrev pub protocol_version : ℕ
protocol_version = 1

-- `Hello`. A filter document is the list of its UTF-8 bytes.
pub record Hello : Type 0 where
  pub streams : StreamMask
  pub codecs : ℕ
  pub key_ref : KeyRef
  pub client_nonce : List ℕ
  pub capabilities : Capabilities
  pub dictionary_id : ℕ
  pub filter : Option (List ℕ)

-- The trailing filter: `(filter.len() as u32)` and its bytes, or nothing
unfoldable pub filter_bytes : Option (List ℕ) → List ℕ
filter_bytes none = []
filter_bytes (some filter) = to_le 4 (length filter) ++ filter

-- `Hello::write`
unfoldable pub write : Hello → List ℕ → List ℕ
unfolding filter_bytes
write self out =
    out
    ++ (to_le 2 protocol_version
        ++ (to_le 4 self.streams.bits
            ++ ((self.codecs ∷ self.capabilities.bits ∷ [])
                ++ (self.key_ref.bytes
                    ++ (self.client_nonce
                        ++ (to_le 4 self.dictionary_id ++ filter_bytes self.filter))))))
