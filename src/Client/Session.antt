-- ===== src/Client/Session.antt =====
-- rust/src/client.rs: `Client`, `Event` and `Client::next_event`.
-- Arithmetic on the counters wraps at 64 bits, as in a build without overflow checks.
pub mod Access
pub mod Decoding
pub mod Delivery
pub mod Dropped
pub mod Failures
pub mod Filters
pub mod Draining
pub mod Progress
pub mod Sequence
pub mod Stream
use manka_shreds_sdk.Common.{
  ℕ, ◌+◌, ◌-◌, ◌^◌, ◌%◌, List, [], ◌∷◌, Option, Bool, true, false, not, ◌&&◌, ltb, ◌==◌,
  if◌then◌else◌, length, drop,
}
use manka_shreds_sdk.Error.{
  Error, Result, ok, err, panic, server, handshake, dictionary_mid_stream, compression_required,
  decompress, ◌>>=◌,
}
use manka_shreds_sdk.Bytes.{slice}
use manka_shreds_sdk.Protocol.Codes.{Codec, uncompressed, lz4, zstd}
use manka_shreds_sdk.Protocol.Kinds
use manka_shreds_sdk.Protocol.Kinds.{FrameKind}
use manka_shreds_sdk.Protocol.FilterMask.{FilterMask}
use manka_shreds_sdk.Protocol.Header.{FrameHeader, frame_header_len, write_frame}
use manka_shreds_sdk.Protocol.HelloAck.{HelloAck}
use manka_shreds_sdk.Protocol.ErrorMessage
use manka_shreds_sdk.Protocol.Lag
use manka_shreds_sdk.Protocol.Lag.{Lag}
use manka_shreds_sdk.Protocol.FilterAck
use manka_shreds_sdk.Protocol.FilterAck.{FilterAck}
use manka_shreds_sdk.Events.SlotStart
use manka_shreds_sdk.Events.SlotEnd
use manka_shreds_sdk.Events.Entry
use manka_shreds_sdk.Events.Duplicate
use manka_shreds_sdk.Events.RawShred
use manka_shreds_sdk.Events.LookupsComplete
use manka_shreds_sdk.Events.SlotStart.{SlotStart}
use manka_shreds_sdk.Events.SlotEnd.{SlotEnd}
use manka_shreds_sdk.Events.Entry.{Entry}
use manka_shreds_sdk.Events.Duplicate.{Duplicate}
use manka_shreds_sdk.Events.RawShred.{RawShred}
use manka_shreds_sdk.Events.LookupsComplete.{LookupsComplete}
use manka_shreds_sdk.Transaction
use manka_shreds_sdk.Transaction.{Transaction}
use manka_shreds_sdk.Client.Json.{NamedFilter, filters_json}
use manka_shreds_sdk.Client.Wire.{Wire, Framed, write_all, read_frame}

-- `Event`
pub data Event : Type 0 where
  transaction : Transaction → FilterMask → Event
  entry : Entry → Event
  slot_start : SlotStart → Event
  slot_end : SlotEnd → Event
  duplicate : Duplicate → Event
  raw_shred : RawShred → Event
  lookups_complete : LookupsComplete → Event
  lag : Lag → Event
  filter_ack : FilterAck → Event
  ping : Event
  pong : Event
  other : ℕ → List ℕ → Event

-- `Client`. The prepared dictionary is the dictionary's bytes.
pub record Client : Type 0 where
  pub stream : Wire
  pub ack : HelloAck
  pub dictionary : Option (List ℕ)
  pub dictionary_active : Bool
  pub dictionary_was_sent : Bool
  pub max_message_bytes : ℕ
  pub pending : List ℕ
  pub frame : List ℕ
  pub expected_seq : ℕ
  pub gaps : ℕ
  pub wire_bytes : ℕ
  pub decoded_bytes : ℕ

-- `u64` addition
abbrev pub add_u64 : ℕ → ℕ → ℕ
add_u64 a b = (a + b) % 2 ^ 64

-- `Client::ping_reply`
unfoldable pub ping_reply : Client → Result (Unit {0}) × Client
ping_reply self =
    let (answer, stream) = write_all self.stream (write_frame [] Kinds.pong 0 []) in
    (answer, record self { stream = stream })

-- `Client::ping`
unfoldable pub send_ping : Client → Result (Unit {0}) × Client
send_ping self =
    let (answer, stream) = write_all self.stream (write_frame [] Kinds.ping 0 []) in
    (answer, record self { stream = stream })

-- `Client::set_filters`
unfoldable pub set_filters : Client → List NamedFilter → Result (Unit {0}) × Client
set_filters self filters =
    let (answer, stream) =
      write_all self.stream (write_frame [] Kinds.set_filter 0 (filters_json filters)) in
    (answer, record self { stream = stream })

-- `Client::set_filter`, one filter without a name
unfoldable pub set_filter : Client → List ℕ → Result (Unit {0}) × Client
unfolding set_filters
set_filter self spec_json = set_filters self (record { name = []; spec_json = spec_json } ∷ [])

-- The last `match` of `next_event`: the event that a body of this kind holds.
unfoldable pub decode_as : FrameKind → FrameHeader → List ℕ → Result Event
decode_as Kinds.transaction header body = do
  tx ← Transaction.read body
  ok (transaction tx header.matched)
decode_as Kinds.entry header body = do m ← Entry.read body; ok (entry m)
decode_as Kinds.slot_start header body = do m ← SlotStart.read body; ok (slot_start m)
decode_as Kinds.slot_end header body = do m ← SlotEnd.read body; ok (slot_end m)
decode_as Kinds.duplicate header body = do m ← Duplicate.read body; ok (duplicate m)
decode_as Kinds.raw_shred header body = do m ← RawShred.read body; ok (raw_shred m)
decode_as Kinds.lookups_complete header body = do
  m ← LookupsComplete.read body
  ok (lookups_complete m)
decode_as Kinds.filter_ack header body = do m ← FilterAck.read body; ok (filter_ack m)
decode_as Kinds.pong header body = ok pong
decode_as Kinds.dictionary header body = err (handshake dictionary_mid_stream)
decode_as _ header body = ok (other header.raw_kind body)

-- `if header.kind == FrameKind::Lag { … }`
unfoldable pub take_lag : Result Lag → Client → Result Event × Client
take_lag (ok m) self =
    (ok (lag m), record self { gaps = add_u64 self.gaps m.dropped; expected_seq = m.resume_seq })
take_lag (err e) self = (err e, self)
take_lag panic self = (panic, self)

-- `if header.kind == FrameKind::Ping { … }`
unfoldable pub take_ping : Result (Unit {0}) × Client → Result Event × Client
take_ping (ok _, self) = (ok ping, self)
take_ping (err e, self) = (err e, self)
take_ping (panic, self) = (panic, self)

-- What `next_event` does with a frame whose body is in `self.frame`
unfoldable pub dispatch : FrameKind → FrameHeader → Client → Result Event × Client
unfolding take_ping take_lag
dispatch Kinds.ping header self = take_ping (ping_reply self)
dispatch Kinds.error header self =
    ((do e ← ErrorMessage.read self.frame; err (server e.code e.detail)), self)
dispatch Kinds.lag header self = take_lag (Lag.read self.frame) self
dispatch kind header self = (decode_as kind header self.frame, self)

-- The sequence check: a number past the expected one is a gap.
unfoldable pub count_gap : ℕ → Client → Client
count_gap seq self = record self {
  gaps =
      if not (self.expected_seq == 0) && ltb self.expected_seq seq
      then add_u64 self.gaps (seq - self.expected_seq)
      else self.gaps;
  expected_seq = add_u64 seq 1;
}

-- What follows once the body is in `self.frame`
unfoldable pub settle : FrameHeader → Client → Result Event × Client
unfolding count_gap dispatch
settle header self = dispatch header.kind header (
    count_gap header.seq (record self {
      pending = drop (frame_header_len + header.len) self.pending;
      decoded_bytes = add_u64 self.decoded_bytes (length self.frame);
    }))

-- What the decompressor answered; a failure leaves the frame in `self.pending`.
unfoldable pub unpacked : FrameHeader → Option (List ℕ) → Client → Result Event × Client
unfolding settle
unpacked header Option.none self = (err decompress, self)
unpacked header (Option.some decoded) self = settle header (record self { frame = decoded })

-- `zstd::bulk::decompress`, with a prepared dictionary or without, is a parameter: at most as many
-- bytes as its last argument, or nothing.
module _ (zstd_decompress : Option (List ℕ) → List ℕ → ℕ → Option (List ℕ)) where
  -- A compressed body
  unfoldable pub unpack : Codec → FrameHeader → List ℕ → Client → Result Event × Client
  unfolding unpacked
  unpack zstd header input self =
      unpacked header (zstd_decompress self.dictionary input self.max_message_bytes) self
  unpack codec header input self = (
    err (compression_required codec),
    record self { pending = drop (frame_header_len + header.len) self.pending },
  )

  -- `self.pending[range]`, and then the body
  unfoldable pub take_body : FrameHeader → Result (List ℕ) → Client → Result Event × Client
  unfolding unpack settle
  take_body header (ok input) self =
      if header.compressed
      then unpack header.codec header input self
      else settle header (record self { frame = input })
  take_body header (err e) self = (err e, self)
  take_body header panic self = (panic, self)

  -- `next_event` behind `read_frame`
  unfoldable pub take_frame : Result FrameHeader → Client → Result Event × Client
  unfolding take_body
  take_frame (ok header) self =
      take_body header (slice self.pending frame_header_len (frame_header_len + header.len))
        (record self {
          wire_bytes = add_u64 self.wire_bytes (frame_header_len + header.len);
          frame = [];
        })
  take_frame (err e) self = (err e, self)
  take_frame panic self = (panic, self)

  -- `Client::next_event`
  unfoldable pub next_event : Client → Result Event × Client
  unfolding take_frame
  next_event self =
      let framed = read_frame self.max_message_bytes self.pending self.stream.incoming in
      take_frame framed.answer (record self {
        stream = record self.stream { incoming = framed.incoming };
        pending = framed.pending;
      })
