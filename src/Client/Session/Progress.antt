-- ===== src/Client/Session/Progress.antt =====
-- How much of the stream is left after a call of `next_event`, and how many calls can succeed.
use manka_shreds_sdk.Common.{
  ◌∙◌, replicate, ℕ, ◌+◌, ◌≤◌, ◌≡◌, refl, ap, arith, List, [], ◌∷◌, ◌++◌, Option, none, some, Bool,
  true, false, if◌then◌else◌, length, drop, length-drop, length-replicate, length-append,
}
use manka_shreds_sdk.Error.{Error, Result, ok, err, panic}
use manka_shreds_sdk.Protocol.Header.{FrameHeader, write_frame}
use manka_shreds_sdk.Protocol.Kinds
use manka_shreds_sdk.Protocol.Kinds.{FrameKind}
use manka_shreds_sdk.Protocol.Codes.{Codec, zstd}
use manka_shreds_sdk.Protocol.Lag.{Lag}
use manka_shreds_sdk.Client.Wire.{
  Arrival, received, failed, read_frame, frame_ready, write_all, write_all_with,
}
use manka_shreds_sdk.Client.Wire.Framing.{frame_ready_lem}
use manka_shreds_sdk.Client.Session.Decoding.{read_frame-frame_ready}
use manka_shreds_sdk.Client.Session.{
  Client, Event, add_u64, count_gap, dispatch, take_ping, take_lag, ping_reply, settle, unpacked,
  unpack, take_body, take_frame, next_event,
}

-- The bytes that a stream will still put at hand, and with them those at hand
abbrev pub bytes_to_come : List Arrival → ℕ
bytes_to_come [] = 0
bytes_to_come (received xs ∷ rest) = length xs + bytes_to_come rest
bytes_to_come (failed e room ∷ rest) = room + bytes_to_come rest

abbrev pub bytes_left : Client → ℕ
bytes_left self = length self.pending + bytes_to_come self.stream.incoming

-- Reading moves bytes from the stream to those at hand, and neither loses nor makes one, except
-- that reads behind a failure stay to come.
read_frame-bytes :
    (limit : ℕ) (incoming : List Arrival) (pending : List ℕ)
    → length (read_frame limit pending incoming).pending
        + bytes_to_come (read_frame limit pending incoming).incoming
      ≡ length pending + bytes_to_come incoming
unfolding read_frame
read_frame-bytes limit [] pending = ground arith
read_frame-bytes limit (failed f room ∷ rest) pending =
    ground (arith, length-append pending (replicate room 0), length-replicate {A = ℕ} room 0)
read_frame-bytes limit (received [] ∷ rest) pending = ground arith
read_frame-bytes limit (received (b ∷ bs) ∷ rest) pending =
    ground
      (arith, length-append pending (b ∷ bs), read_frame-bytes limit rest (pending ++ (b ∷ bs)))

-- A step leaves the bytes at hand, the reads to come and the count of bytes as they were.
abbrev Keeps : Client → Client → Type 0
Keeps before after =
    (after.pending ≡ before.pending)
    × (after.stream.incoming ≡ before.stream.incoming)
    × (after.wire_bytes ≡ before.wire_bytes)

ping_reply-Keeps : (self : Client) → Keeps self (ping_reply self).1
unfolding ping_reply write_all write_all_with
ping_reply-Keeps self = (refl, keeps self.stream.write_failures, refl)
  where
    keeps :
        (answers : List (Option Error))
        → (write_all_with self.stream (write_frame [] Kinds.pong 0 []) answers).1.incoming
          ≡ self.stream.incoming
    keeps [] = refl
    keeps (none ∷ rest) = refl
    keeps (some e ∷ rest) = refl

take_ping-Keeps :
    (self : Client) (out : Result (Unit {0}) × Client)
    → Keeps self out.1
    → Keeps self (take_ping out).1
unfolding take_ping
take_ping-Keeps self (ok u, after) h = h
take_ping-Keeps self (err e, after) h = h
take_ping-Keeps self (panic, after) h = h

take_lag-Keeps : (answer : Result Lag) (self : Client) → Keeps self (take_lag answer self).1
unfolding take_lag
take_lag-Keeps (ok m) self = (refl, refl, refl)
take_lag-Keeps (err e) self = (refl, refl, refl)
take_lag-Keeps panic self = (refl, refl, refl)

dispatch-Keeps :
    (kind : FrameKind) (header : FrameHeader) (self : Client)
    → Keeps self (dispatch kind header self).1
unfolding dispatch
dispatch-Keeps Kinds.ping header self = take_ping-Keeps self _ (ping_reply-Keeps self)
dispatch-Keeps Kinds.lag header self = take_lag-Keeps _ self
dispatch-Keeps _ header self = (refl, refl, refl)

-- After a call that succeeds, the frame is off the bytes at hand and the reads to come are as they were.
abbrev Drops : FrameHeader → Client → Result Event × Client → Type 0
Drops header self out =
    (event : Event)
    → out.0 ≡ ok event
    → (out.1.pending ≡ drop (16 + header.len) self.pending)
      × (out.1.stream.incoming ≡ self.stream.incoming)
      × (out.1.wire_bytes ≡ self.wire_bytes)

settle-Drops : (header : FrameHeader) (self : Client) → Drops header self (settle header self)
unfolding settle count_gap
settle-Drops header self event e = dispatch-Keeps header.kind header _

unpacked-Drops :
    (header : FrameHeader) (answer : Option (List ℕ)) (self : Client)
    → Drops header self (unpacked header answer self)
unfolding unpacked
unpacked-Drops header none self = λ event p. cc
unpacked-Drops header (some decoded) self = settle-Drops header (record self { frame = decoded })

if-Drops :
    (header : FrameHeader) (self : Client) (b : Bool) (x y : Result Event × Client)
    → Drops header self x
    → Drops header self y
    → Drops header self (if b then x else y)
if-Drops header self true x y h k = h
if-Drops header self false x y h k = k

-- What a call took off the bytes at hand and to come, at least a header, is what it has counted.
abbrev pub Counts : Client → ℕ → Client → Type 0
Counts before left after =
    (taken : ℕ) × (16 ≤ taken)
    × (bytes_left after + taken ≡ left)
    × (after.wire_bytes ≡ add_u64 before.wire_bytes taken)

module _ (zstd_decompress : Option (List ℕ) → List ℕ → ℕ → Option (List ℕ)) where
  unpack-Drops :
      (codec : Codec) (header : FrameHeader) (input : List ℕ) (self : Client)
      → Drops header self (unpack zstd_decompress codec header input self)
  unfolding unpack
  unpack-Drops zstd header input self = unpacked-Drops header _ self
  unpack-Drops _ header input self = λ event p. cc

  take_body-Drops :
      (header : FrameHeader) (body : Result (List ℕ)) (self : Client)
      → Drops header self (take_body zstd_decompress header body self)
  unfolding take_body
  take_body-Drops header (ok input) self =
      if-Drops header self header.compressed (unpack zstd_decompress header.codec header input self)
        (settle header (record self { frame = input }))
        (unpack-Drops header.codec header input self)
        (settle-Drops header (record self { frame = input }))
  take_body-Drops header (err e) self = λ event p. cc
  take_body-Drops header panic self = λ event p. cc

  take_frame-Counts :
      (limit : ℕ) (answer : Result FrameHeader) (self : Client) (event : Event)
      → ((header : FrameHeader)
          → answer ≡ ok header
          → frame_ready limit self.pending ≡ ok (some header))
      → (take_frame zstd_decompress answer self).0 ≡ ok event
      → Counts self (bytes_left self) (take_frame zstd_decompress answer self).1
  unfolding take_frame
  take_frame-Counts limit (ok header) self event ready e =
      let (dropped, same, counted) = take_body-Drops header _ _ event e in
      let whole : 16 + header.len ≤ length self.pending =
        ground (arith, frame_ready_lem limit self.pending, ready header refl) in
      (
        16 + header.len,
        omega arith,
        omega (
          arith,
          ap length dropped,
          ap bytes_to_come same,
          whole,
          length-drop (16 + header.len) self.pending,
        ),
        counted,
      )
  take_frame-Counts limit (err e) self event ready p = cc
  take_frame-Counts limit panic self event ready p = cc

  -- A call of `next_event` that answers an event has taken some number of bytes, sixteen or
  -- more, off those at hand and to come, and has added this number to the count of bytes
  -- received, which wraps at 64 bits.
  pub next_event-Counts :
      (self : Client) (event : Event)
      → (next_event zstd_decompress self).0 ≡ ok event
      → Counts self (bytes_left self) (next_event zstd_decompress self).1
  unfolding next_event
  next_event-Counts self event e =
      let (taken, some_bytes, left, counted) =
        take_frame-Counts self.max_message_bytes _ _ event
          (read_frame-frame_ready self.max_message_bytes self.stream.incoming self.pending) e in
      (
        taken,
        some_bytes,
        left ∙ read_frame-bytes self.max_message_bytes self.stream.incoming self.pending,
        counted,
      )
