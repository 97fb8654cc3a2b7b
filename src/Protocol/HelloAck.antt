-- ===== src/Protocol/HelloAck.antt =====
-- rust/src/protocol.rs: `HelloAck`, what the server settled.
use manka_shreds_sdk.Common.{ℕ, List, [], ◌∷◌, ltb, length}
use manka_shreds_sdk.Error.{Result, ok, truncated, fail_if, ◌>>=◌, ◌>>◌}
use manka_shreds_sdk.Bytes.{from_le, byte_at, u32_at, u64_at}
use manka_shreds_sdk.Protocol.Codes.{Codec, codec_from_byte}
use manka_shreds_sdk.Protocol.StreamMask.{StreamMask}

-- `HelloAck`
pub record HelloAck : Type 0 where
  pub protocol_version : ℕ
  pub granted : StreamMask
  pub session_id : ℕ
  pub codec : Codec
  pub keepalive_ms : ℕ
  pub dictionary_id : ℕ

-- `HelloAck::LEN`
abbrev pub len : ℕ
len = 22

-- `HelloAck::read`
unfoldable pub read : List ℕ → Result HelloAck
read bytes = do
  fail_if (ltb (length bytes) len) (truncated "hello ack" len (length bytes))
  v0 ← byte_at bytes 0
  v1 ← byte_at bytes 1
  granted ← u32_at bytes 2
  session_id ← u64_at bytes 6
  codec ← byte_at bytes 14
  k0 ← byte_at bytes 16
  k1 ← byte_at bytes 17
  dictionary_id ← u32_at bytes 18
  ok (record {
    protocol_version = from_le (v0 ∷ v1 ∷ []);
    granted = record { bits = granted };
    session_id = session_id;
    codec = codec_from_byte codec;
    keepalive_ms = from_le (k0 ∷ k1 ∷ []);
    dictionary_id = dictionary_id;
  })
