-- ===== src/Protocol/Kinds.antt =====
-- rust/src/protocol.rs: what a frame carries.
pub mod RoundTrip
use manka_shreds_sdk.Common.{ℕ, ◌==◌, if◌then◌else◌}

-- `FrameKind`
pub data FrameKind : Type 0 where
  unknown transaction entry slot_start slot_end duplicate raw_shred lag source_stats : FrameKind
  hello hello_ack filter_ack error ping pong set_filter challenge prove dictionary : FrameKind
  lookups_complete : FrameKind

-- `FrameKind::from_byte`
unfoldable pub frame_kind_from_byte : ℕ → FrameKind
frame_kind_from_byte byte =
    if byte == 1
    then transaction
    else if byte == 2
    then entry
    else if byte == 3
    then slot_start
    else if byte == 4
    then slot_end
    else if byte == 5
    then duplicate
    else if byte == 6
    then raw_shred
    else if byte == 7
    then lag
    else if byte == 8
    then source_stats
    else if byte == 9
    then hello
    else if byte == 10
    then hello_ack
    else if byte == 11
    then filter_ack
    else if byte == 12
    then error
    else if byte == 13
    then ping
    else if byte == 14
    then pong
    else if byte == 15
    then set_filter
    else if byte == 16
    then challenge
    else if byte == 17
    then prove
    else if byte == 18
    then dictionary
    else if byte == 21
    then lookups_complete
    else unknown

-- The discriminants, `kind as u8`
unfoldable pub frame_kind_to_byte : FrameKind → ℕ
frame_kind_to_byte unknown = 0
frame_kind_to_byte transaction = 1
frame_kind_to_byte entry = 2
frame_kind_to_byte slot_start = 3
frame_kind_to_byte slot_end = 4
frame_kind_to_byte duplicate = 5
frame_kind_to_byte raw_shred = 6
frame_kind_to_byte lag = 7
frame_kind_to_byte source_stats = 8
frame_kind_to_byte hello = 9
frame_kind_to_byte hello_ack = 10
frame_kind_to_byte filter_ack = 11
frame_kind_to_byte error = 12
frame_kind_to_byte ping = 13
frame_kind_to_byte pong = 14
frame_kind_to_byte set_filter = 15
frame_kind_to_byte challenge = 16
frame_kind_to_byte prove = 17
frame_kind_to_byte dictionary = 18
frame_kind_to_byte lookups_complete = 21
