-- ===== src/Client/Session/Decoding.antt =====
-- `next_event` on arbitrary bytes: whatever the server sends, it returns.
use manka_shreds_sdk.Common.{
  ℕ, ◌+◌, ◌-◌, ◌≡◌, ◌≢◌, refl, arith, List, [], ◌∷◌, ◌++◌, Option, none, some, Bool, true, false,
  if◌then◌else◌,
}
use manka_shreds_sdk.Error.{Result, ok, err, panic, ◌>>=◌, >>=-ne-panic}
use manka_shreds_sdk.Bytes.{slice, word, window}
use manka_shreds_sdk.Bytes.Reads.{slice_lem}
use manka_shreds_sdk.Protocol.Kinds
use manka_shreds_sdk.Protocol.Kinds.{FrameKind}
use manka_shreds_sdk.Protocol.Codes.{Codec, zstd}
use manka_shreds_sdk.Protocol.Header.{FrameHeader, write_frame, frame_header_len}
use manka_shreds_sdk.Protocol.ErrorMessage
use manka_shreds_sdk.Protocol.FilterAck
use manka_shreds_sdk.Protocol.Lag
use manka_shreds_sdk.Protocol.Totality.{error_message_lem, lag_lem, filter_ack_lem}
use manka_shreds_sdk.Events.SlotStart
use manka_shreds_sdk.Events.SlotEnd
use manka_shreds_sdk.Events.Entry
use manka_shreds_sdk.Events.Duplicate
use manka_shreds_sdk.Events.RawShred
use manka_shreds_sdk.Events.LookupsComplete
use manka_shreds_sdk.Events.Totality.{
  slot_start_lem, slot_end_lem, entry_lem, duplicate_lem, raw_shred_lem,
}
use manka_shreds_sdk.Events.LookupsComplete.Completed
use manka_shreds_sdk.Transaction.Read.{read-ne-panic}
use manka_shreds_sdk.Client.Wire.{
  Arrival, received, failed, frame_ready, read_frame, Wire, write_all,
}
use manka_shreds_sdk.Client.Wire.Framing.{frame_ready_lem, read_frame-ne-panic}
use manka_shreds_sdk.Client.Session.{
  Client, Event, decode_as, ping_reply, dispatch, settle, unpacked, unpack, take_body, take_frame,
  next_event,
}

then-ne-panic {ℓ κ} :
    {A : Type ℓ} {B : Type κ} (m : Result A) (f : A → B)
    → m ≢ panic
    → (m >>= (λ a. ok (f a))) ≢ panic
then-ne-panic m f h = >>=-ne-panic m _ h (λ a e p. cc)

if-ne-panic :
    (b : Bool) (x y : Result Event × Client)
    → x.0 ≢ panic
    → y.0 ≢ panic
    → (if b then x else y).0 ≢ panic
if-ne-panic true x y h k = h
if-ne-panic false x y h k = k

module _ (body : List ℕ) where
  readers-ne-panic :
      (SlotStart.read body ≢ panic)
      × (SlotEnd.read body ≢ panic)
      × (Entry.read body ≢ panic)
      × (Duplicate.read body ≢ panic)
      × (RawShred.read body ≢ panic)
      × (LookupsComplete.read body ≢ panic)
      × (FilterAck.read body ≢ panic)
      × (ErrorMessage.read body ≢ panic)
      × (Lag.read body ≢ panic)
  readers-ne-panic = (
    λ e. ground (arith, slot_start_lem body),
    λ e. ground (arith, slot_end_lem body),
    λ e. ground (arith, entry_lem body),
    λ e. ground (arith, duplicate_lem body),
    λ e. ground (arith, raw_shred_lem body),
    λ e. ground (arith, Completed.read_lem body),
    λ e. ground (arith, filter_ack_lem body),
    λ e. ground (arith, error_message_lem body),
    λ e. ground (arith, lag_lem body),
  )

  decode_as-ne-panic :
      (kind : FrameKind) (header : FrameHeader) → decode_as kind header body ≢ panic
  unfolding decode_as
  decode_as-ne-panic Kinds.transaction header = then-ne-panic _ _ (read-ne-panic body)
  decode_as-ne-panic Kinds.entry header = then-ne-panic _ _ readers-ne-panic.2
  decode_as-ne-panic Kinds.slot_start header = then-ne-panic _ _ readers-ne-panic.0
  decode_as-ne-panic Kinds.slot_end header = then-ne-panic _ _ readers-ne-panic.1
  decode_as-ne-panic Kinds.duplicate header = then-ne-panic _ _ readers-ne-panic.3
  decode_as-ne-panic Kinds.raw_shred header = then-ne-panic _ _ readers-ne-panic.4
  decode_as-ne-panic Kinds.lookups_complete header = then-ne-panic _ _ readers-ne-panic.5
  decode_as-ne-panic Kinds.filter_ack header = then-ne-panic _ _ readers-ne-panic.6
  decode_as-ne-panic _ header = λ e. cc

write_all-ne-panic : (wire : Wire) (bytes : List ℕ) → (write_all wire bytes).0 ≢ panic
unfolding write_all
write_all-ne-panic wire bytes e = ground arith

dispatch-ne-panic :
    (kind : FrameKind) (header : FrameHeader) (self : Client)
    → (dispatch kind header self).0 ≢ panic
unfolding dispatch ping_reply
dispatch-ne-panic Kinds.ping header self =
    λ e. ground (arith, write_all-ne-panic self.stream (write_frame [] Kinds.pong 0 []))
dispatch-ne-panic Kinds.error header self =
    >>=-ne-panic _ _ (readers-ne-panic self.frame).7 (λ a e p. cc)
dispatch-ne-panic Kinds.lag header self = λ e. ground (arith, (readers-ne-panic self.frame).8)
dispatch-ne-panic kind header self = decode_as-ne-panic self.frame kind header

-- The header that `read_frame` answers with is the one of a whole frame in `pending`.
pub read_frame-frame_ready :
    (limit : ℕ) (incoming : List Arrival) (pending : List ℕ) (header : FrameHeader)
    → (read_frame limit pending incoming).answer ≡ ok header
    → frame_ready limit (read_frame limit pending incoming).pending ≡ ok (some header)
unfolding read_frame
read_frame-frame_ready limit [] pending header e = ground arith
read_frame-frame_ready limit (failed f room ∷ rest) pending header e = ground arith
read_frame-frame_ready limit (received [] ∷ rest) pending header e = ground arith
read_frame-frame_ready limit (received (b ∷ bs) ∷ rest) pending header e =
    ground (arith, read_frame-frame_ready limit rest (pending ++ (b ∷ bs)) header)

-- A frame that is ready lies in `pending` with all its bytes.
frame_ready-slice :
    (limit : ℕ) (pending : List ℕ) (header : FrameHeader)
    → frame_ready limit pending ≡ ok (some header)
    → slice pending frame_header_len (frame_header_len + header.len)
      ≡ ok (window pending 16 header.len)
frame_ready-slice limit pending header e =
    ground
      (arith, frame_ready_lem limit pending, slice_lem pending 16 (16 + word pending 0 4), span)
  where
    span : 16 + word pending 0 4 - 16 ≡ word pending 0 4
    span = omega arith

settle-ne-panic : (header : FrameHeader) (self : Client) → (settle header self).0 ≢ panic
unfolding settle
settle-ne-panic header self = dispatch-ne-panic header.kind header _

unpacked-ne-panic :
    (header : FrameHeader) (answer : Option (List ℕ)) (self : Client)
    → (unpacked header answer self).0 ≢ panic
unfolding unpacked
unpacked-ne-panic header none self = λ e. cc
unpacked-ne-panic header (some decoded) self =
    settle-ne-panic header (record self { frame = decoded })

module _ (zstd_decompress : Option (List ℕ) → List ℕ → ℕ → Option (List ℕ)) where
  unpack-ne-panic :
      (codec : Codec) (header : FrameHeader) (input : List ℕ) (self : Client)
      → (unpack zstd_decompress codec header input self).0 ≢ panic
  unfolding unpack
  unpack-ne-panic zstd header input self = unpacked-ne-panic header _ self
  unpack-ne-panic _ header input self = λ e. cc

  take_body-ne-panic :
      (header : FrameHeader) (input : List ℕ) (self : Client)
      → (take_body zstd_decompress header (ok input) self).0 ≢ panic
  unfolding take_body
  take_body-ne-panic header input self =
      if-ne-panic header.compressed (unpack zstd_decompress header.codec header input self)
        (settle header (record self { frame = input }))
        (unpack-ne-panic header.codec header input self)
        (settle-ne-panic header (record self { frame = input }))

  take_frame-ne-panic :
      (limit : ℕ) (answer : Result FrameHeader) (self : Client)
      → answer ≢ panic
      → ((header : FrameHeader)
          → answer ≡ ok header
          → frame_ready limit self.pending ≡ ok (some header))
      → (take_frame zstd_decompress answer self).0 ≢ panic
  unfolding take_frame
  take_frame-ne-panic limit (ok header) self h ready =
      rw (frame_ready-slice limit self.pending header (ready header refl))
        (take_body-ne-panic header _ _)
  take_frame-ne-panic limit (err e) self h ready = λ p. cc
  take_frame-ne-panic limit panic self h ready = absurd (h refl)

  -- Whatever the client's state, whatever arrives, and whatever the decompressor and the
  -- writes answer, `next_event` does not panic.
  pub next_event-ne-panic : (self : Client) → (next_event zstd_decompress self).0 ≢ panic
  unfolding next_event
  next_event-ne-panic self =
      take_frame-ne-panic self.max_message_bytes _ _
        (read_frame-ne-panic self.max_message_bytes self.stream.incoming self.pending)
        (read_frame-frame_ready self.max_message_bytes self.stream.incoming self.pending)
