-- ===== src/Protocol/Kinds/RoundTrip.antt =====
-- The kind bytes that this build knows, and the kinds that they stand for.
use manka_shreds_sdk.Common.{ℕ, ◌≡◌, ◌≢◌, refl, arith}
use manka_shreds_sdk.Protocol.Kinds.{FrameKind, unknown, frame_kind_from_byte, frame_kind_to_byte}

-- Every kind is read back from its byte; the unknown kind's byte is one that no known kind has.
pub frame_kind_from_byte-to_byte :
    (kind : FrameKind) → frame_kind_from_byte (frame_kind_to_byte kind) ≡ kind
unfolding frame_kind_from_byte frame_kind_to_byte
frame_kind_from_byte-to_byte unknown = refl
frame_kind_from_byte-to_byte _ = refl

-- A byte that is read as a known kind is the byte of that kind.
frame_kind_to_byte-from_byte :
    (byte : ℕ)
    → frame_kind_from_byte byte ≢ unknown
    → frame_kind_to_byte (frame_kind_from_byte byte) ≡ byte
unfolding frame_kind_from_byte frame_kind_to_byte
frame_kind_to_byte-from_byte byte h = ground arith
