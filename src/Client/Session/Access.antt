-- ===== src/Client/Session/Access.antt =====
-- rust/src/client.rs: the accessors of `Client`.
use manka_shreds_sdk.Common.{ℕ, Bool}
use manka_shreds_sdk.Protocol.StreamMask.{StreamMask}
use manka_shreds_sdk.Client.Session.{Client}

unfoldable pub granted : Client → StreamMask
granted self = self.ack.granted

unfoldable pub session_id : Client → ℕ
session_id self = self.ack.session_id

unfoldable pub keepalive_ms : Client → ℕ
keepalive_ms self = self.ack.keepalive_ms

unfoldable pub dictionary_active : Client → Bool
dictionary_active self = self.dictionary_active

unfoldable pub dictionary_was_sent : Client → Bool
dictionary_was_sent self = self.dictionary_was_sent

unfoldable pub wire_bytes : Client → ℕ
wire_bytes self = self.wire_bytes

unfoldable pub decoded_bytes : Client → ℕ
decoded_bytes self = self.decoded_bytes

unfoldable pub gaps : Client → ℕ
gaps self = self.gaps
