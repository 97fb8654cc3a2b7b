-- ===== src/Protocol/Codes.antt =====
-- rust/src/protocol.rs: the enums of the protocol and the bytes that stand for them.
use manka_shreds_sdk.Common.{ℕ, ◌==◌, if◌then◌else◌}

-- `ErrorCode`
pub data ErrorCode : Type 0 where
  unauthorized forbidden too_slow rate_limited bad_request shutdown unsupported_version : ErrorCode
  unknown : ErrorCode

-- `ErrorCode::from_u16`
unfoldable pub error_code_from_u16 : ℕ → ErrorCode
error_code_from_u16 value =
    if value == 1
    then unauthorized
    else if value == 2
    then forbidden
    else if value == 3
    then too_slow
    else if value == 4
    then rate_limited
    else if value == 5
    then bad_request
    else if value == 6
    then shutdown
    else if value == 7
    then unsupported_version
    else unknown

-- The discriminants, `code as u16`
unfoldable pub error_code_to_u16 : ErrorCode → ℕ
error_code_to_u16 unauthorized = 1
error_code_to_u16 forbidden = 2
error_code_to_u16 too_slow = 3
error_code_to_u16 rate_limited = 4
error_code_to_u16 bad_request = 5
error_code_to_u16 shutdown = 6
error_code_to_u16 unsupported_version = 7
error_code_to_u16 unknown = 0

-- `Codec`
pub data Codec : Type 0 where
  uncompressed lz4 zstd : Codec

-- `Codec::from_byte`
unfoldable pub codec_from_byte : ℕ → Codec
codec_from_byte byte = if byte == 1 then lz4 else if byte == 2 then zstd else uncompressed

-- The discriminants, `codec as u8`
unfoldable pub codec_to_byte : Codec → ℕ
codec_to_byte uncompressed = 0
codec_to_byte lz4 = 1
codec_to_byte zstd = 2

-- `Verification`
pub data Verification : Type 0 where
  verified disabled unknown_leader stale_schedule : Verification

-- `Verification::from_byte`
unfoldable pub verification_from_byte : ℕ → Verification
verification_from_byte byte =
    if byte == 0
    then verified
    else if byte == 2
    then unknown_leader
    else if byte == 3
    then stale_schedule
    else disabled
