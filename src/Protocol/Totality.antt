-- ===== src/Protocol/Totality.antt =====
-- Every control message that a client reads is decoded without a panic, whatever the bytes.
use manka_shreds_sdk.Common.{
  ℕ, ◌+◌, ◌-◌, min, ◌≡◌, arith, List, not, ltb, ◌==◌, if◌then◌else◌, length,
}
use manka_shreds_sdk.Error.{ok, err, truncated}
use manka_shreds_sdk.Bytes.{word, window, byte}
use manka_shreds_sdk.Bytes.Reads.{
  byte_at_lem, array_at_lem, slice_lem, u32_at_lem, u64_at_lem, word_two,
}
use manka_shreds_sdk.Utf8.{from_utf8_lossy}
use manka_shreds_sdk.Protocol.Codes.{codec_from_byte, error_code_from_u16}
use manka_shreds_sdk.Protocol.Challenge
use manka_shreds_sdk.Protocol.HelloAck
use manka_shreds_sdk.Protocol.ErrorMessage
use manka_shreds_sdk.Protocol.Lag
use manka_shreds_sdk.Protocol.FilterAck

module _ (bytes : List ℕ) where
  pub challenge_lem : Challenge.read bytes ≡ (
      if ltb (length bytes) 64
      then err (truncated "challenge" 64 (length bytes))
      else ok (record {
        server_nonce = window bytes 0 32;
        proof = record { bytes = window bytes 32 32 };
      }))
  unfolding Challenge.read
  challenge_lem = ground (arith, array_at_lem 32 bytes 0, array_at_lem 32 bytes 32)

  pub hello_ack_lem : HelloAck.read bytes ≡ (
      if ltb (length bytes) 22
      then err (truncated "hello ack" 22 (length bytes))
      else ok (record {
        protocol_version = word bytes 0 2;
        granted = record { bits = word bytes 2 4 };
        session_id = word bytes 6 8;
        codec = codec_from_byte (byte bytes 14);
        keepalive_ms = word bytes 16 2;
        dictionary_id = word bytes 18 4;
      }))
  unfolding HelloAck.read
  hello_ack_lem = ground (
    arith,
    byte_at_lem bytes 0,
    byte_at_lem bytes 1,
    word_two bytes 0,
    u32_at_lem bytes 2,
    u64_at_lem bytes 6,
    byte_at_lem bytes 14,
    byte_at_lem bytes 16,
    byte_at_lem bytes 17,
    word_two bytes 16,
    u32_at_lem bytes 18,
  )

  -- The detail is cut where the bytes end, if they end before its declared length.
  pub error_message_lem : ErrorMessage.read bytes ≡ (
      if ltb (length bytes) 4
      then err (truncated "error" 4 (length bytes))
      else ok (record {
        code = error_code_from_u16 (word bytes 0 2);
        detail = from_utf8_lossy (window bytes 4 (min (word bytes 2 2) (length bytes - 4)));
      }))
  unfolding ErrorMessage.read
  error_message_lem = ground (
    arith,
    byte_at_lem bytes 0,
    byte_at_lem bytes 1,
    word_two bytes 0,
    byte_at_lem bytes 2,
    byte_at_lem bytes 3,
    word_two bytes 2,
    slice_lem bytes 4 (min (4 + word bytes 2 2) (length bytes)),
    span,
  )
    where
      span : min (4 + word bytes 2 2) (length bytes) - 4 ≡ min (word bytes 2 2) (length bytes - 4)
      span = omega arith

  pub lag_lem : Lag.read bytes ≡ (
      if ltb (length bytes) 16
      then err (truncated "lag" 16 (length bytes))
      else ok (record { dropped = word bytes 0 8; resume_seq = word bytes 8 8 }))
  unfolding Lag.read
  lag_lem = ground (arith, u64_at_lem bytes 0, u64_at_lem bytes 8)

  pub filter_ack_lem : FilterAck.read bytes ≡ (
      if ltb (length bytes) 8
      then err (truncated "filter ack" 8 (length bytes))
      else ok (record {
        accepted = not (byte bytes 0 == 0);
        cost = word bytes 2 4;
        detail = from_utf8_lossy (window bytes 8 (min (word bytes 6 2) (length bytes - 8)));
      }))
  unfolding FilterAck.read
  filter_ack_lem = ground (
    arith,
    byte_at_lem bytes 0,
    u32_at_lem bytes 2,
    byte_at_lem bytes 6,
    byte_at_lem bytes 7,
    word_two bytes 6,
    slice_lem bytes 8 (min (8 + word bytes 6 2) (length bytes)),
    span,
  )
    where
      span : min (8 + word bytes 6 2) (length bytes) - 8 ≡ min (word bytes 6 2) (length bytes - 8)
      span = omega arith
