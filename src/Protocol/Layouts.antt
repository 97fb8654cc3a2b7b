-- ===== src/Protocol/Layouts.antt =====
-- The control messages as the server lays them out, and that the client reads them back.
use manka_shreds_sdk.Common.{
  ℕ, ◌+◌, ◌^◌, ◌<◌, ◌≡◌, arith, refl, sym, ◌∙◌, List, [], ◌∷◌, ◌++◌, Bool, if◌then◌else◌, length,
  length-append, take-append,
}
use mathlib.Core.List.{append_assoc}
use manka_shreds_sdk.Error.{ok}
use manka_shreds_sdk.Bytes.{word, window, byte, to_le}
use manka_shreds_sdk.Bytes.Words.{window_here, window_behind}
use manka_shreds_sdk.Utf8.{from_utf8_lossy}
use manka_shreds_sdk.Protocol.Codes
use manka_shreds_sdk.Protocol.Codes.{
  ErrorCode, codec_from_byte, codec_to_byte, error_code_from_u16, error_code_to_u16,
}
use manka_shreds_sdk.Protocol.Challenge
use manka_shreds_sdk.Protocol.HelloAck
use manka_shreds_sdk.Protocol.ErrorMessage
use manka_shreds_sdk.Protocol.Lag
use manka_shreds_sdk.Protocol.FilterAck
use manka_shreds_sdk.Protocol.Challenge.{Challenge}
use manka_shreds_sdk.Protocol.HelloAck.{HelloAck}
use manka_shreds_sdk.Protocol.ErrorMessage.{ErrorMessage}
use manka_shreds_sdk.Protocol.Lag.{Lag}
use manka_shreds_sdk.Protocol.FilterAck.{FilterAck}
use manka_shreds_sdk.Protocol.Totality.{
  challenge_lem, hello_ack_lem, error_message_lem, lag_lem, filter_ack_lem,
}

abbrev pub lag_layout : Lag → List ℕ
lag_layout m = to_le 8 m.dropped ++ to_le 8 m.resume_seq

-- A lag report of two numbers of 64 bits is read back from its layout, whatever follows it.
read-lag_layout :
    (m : Lag) (rest : List ℕ)
    → m.dropped < 2 ^ 64
    → m.resume_seq < 2 ^ 64
    → Lag.read (lag_layout m ++ rest) ≡ ok m
unfolding word window
read-lag_layout m rest h k = rw lag_lem (ground arith)

abbrev pub challenge_layout : Challenge → List ℕ
challenge_layout m = m.server_nonce ++ m.proof.bytes

-- A challenge with a nonce and a proof of 32 bytes is read back from its layout, whatever
-- follows it.
read-challenge_layout :
    (m : Challenge) (rest : List ℕ)
    → length m.server_nonce ≡ 32
    → length m.proof.bytes ≡ 32
    → Challenge.read (challenge_layout m ++ rest) ≡ ok m
read-challenge_layout m rest h k =
    rw (challenge_lem, nonce, proof)
      (ground (
        arith,
        length-append (m.server_nonce ++ m.proof.bytes) rest,
        length-append m.server_nonce m.proof.bytes,
      ))
  where
    nonce : window (m.server_nonce ++ m.proof.bytes ++ rest) 0 32 ≡ m.server_nonce
    nonce = rw append_assoc (window_here m.server_nonce (m.proof.bytes ++ rest) 32 (sym h))

    proof : window (m.server_nonce ++ m.proof.bytes ++ rest) 32 32 ≡ m.proof.bytes
    proof = rw append_assoc (
        window_behind 32 m.server_nonce (m.proof.bytes ++ rest) h 32 32 (omega arith)
        ∙ window_here m.proof.bytes rest 32 (sym k))

-- The byte between the codec and the interval is padding.
abbrev pub hello_ack_layout : HelloAck → ℕ → List ℕ
hello_ack_layout m padding =
    to_le 2 m.protocol_version
    ++ to_le 4 m.granted.bits
    ++ to_le 8 m.session_id
    ++ (codec_to_byte m.codec ∷ padding ∷ [])
    ++ to_le 2 m.keepalive_ms
    ++ to_le 4 m.dictionary_id

pub record HelloAckFits (m : HelloAck) : Type 0 where
  pub protocol_version : m.protocol_version < 2 ^ 16
  pub granted : m.granted.bits < 2 ^ 32
  pub session_id : m.session_id < 2 ^ 64
  pub keepalive_ms : m.keepalive_ms < 2 ^ 16
  pub dictionary_id : m.dictionary_id < 2 ^ 32

-- An acknowledgement whose fields have the widths of their types is read back from its layout,
-- whatever the padding byte and whatever follows it.
read-hello_ack_layout :
    (m : HelloAck) (padding : ℕ) (rest : List ℕ)
    → HelloAckFits m
    → HelloAck.read (hello_ack_layout m padding ++ rest) ≡ ok m
unfolding word window byte codec_from_byte codec_to_byte
read-hello_ack_layout m padding rest v = rw hello_ack_lem (ground arith)

error_code_from_u16-to_u16 :
    (code : ErrorCode) → error_code_from_u16 (error_code_to_u16 code) ≡ code
unfolding error_code_from_u16 error_code_to_u16
error_code_from_u16-to_u16 Codes.unauthorized = refl
error_code_from_u16-to_u16 _ = refl

error_code_to_u16-lt : (code : ErrorCode) → error_code_to_u16 code < 8
unfolding error_code_to_u16
error_code_to_u16-lt Codes.unauthorized = omega arith
error_code_to_u16-lt _ = omega arith

abbrev pub error_message_layout : ErrorCode → List ℕ → List ℕ
error_message_layout code detail =
    to_le 2 (error_code_to_u16 code) ++ (to_le 2 (length detail) ++ detail)

-- An error message with a detail below 2^16 bytes is read back from its layout with its code
-- and its detail as text, whatever follows it.
read-error_message_layout :
    (code : ErrorCode) (detail rest : List ℕ)
    → length detail < 2 ^ 16
    → ErrorMessage.read (error_message_layout code detail ++ rest)
      ≡ ok (record { code = code; detail = from_utf8_lossy detail })
read-error_message_layout code detail rest h =
    rw error_message_lem (ground (arith, error_code_from_u16-to_u16 code, parts, body))
  where
    parts :
        (word (error_message_layout code detail ++ rest) 0 2 ≡ error_code_to_u16 code)
        × (word (error_message_layout code detail ++ rest) 2 2 ≡ length detail)
        × (length (error_message_layout code detail ++ rest) ≡ 4 + length detail + length rest)
    parts =
        unfold word window in
        (
          omega (arith, error_code_to_u16-lt code),
          omega arith,
          omega (arith, length-append detail rest),
        )

    body : window (error_message_layout code detail ++ rest) 4 (length detail) ≡ detail
    body = unfold window in take-append detail rest

abbrev pub filter_ack_layout : Bool → ℕ → List ℕ → List ℕ
filter_ack_layout accepted cost detail =
    (if accepted then 1 else 0) ∷ 0 ∷ (to_le 4 cost ++ (to_le 2 (length detail) ++ detail))

-- A filter acknowledgement with a cost of 32 bits and a detail below 2^16 bytes is read back
-- from its layout with the detail as text, whatever follows it.
read-filter_ack_layout :
    (accepted : Bool) (cost : ℕ) (detail rest : List ℕ)
    → cost < 2 ^ 32
    → length detail < 2 ^ 16
    → FilterAck.read (filter_ack_layout accepted cost detail ++ rest)
      ≡ ok (record { accepted = accepted; cost = cost; detail = from_utf8_lossy detail })
read-filter_ack_layout accepted cost detail rest h k =
    rw filter_ack_lem (ground (arith, parts, body))
  where
    parts :
        (byte (filter_ack_layout accepted cost detail ++ rest) 0 ≡ (if accepted then 1 else 0))
        × (word (filter_ack_layout accepted cost detail ++ rest) 2 4 ≡ cost)
        × (word (filter_ack_layout accepted cost detail ++ rest) 6 2 ≡ length detail)
        × (length (filter_ack_layout accepted cost detail ++ rest)
            ≡ 8 + length detail + length rest)
    parts =
        unfold word window byte in
        (refl, omega arith, omega arith, omega (arith, length-append detail rest))

    body : window (filter_ack_layout accepted cost detail ++ rest) 8 (length detail) ≡ detail
    body = unfold window in take-append detail rest
