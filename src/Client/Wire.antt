-- ===== src/Client/Wire.antt =====
-- rust/src/client.rs: `read_frame`, over a stream that delivers its bytes in arbitrary pieces.
-- What the transport will deliver, and what it will answer to each write, are the state of a `Wire`;
-- Transport.Reading says what one read of quinn or tokio is to it.
pub mod Framing
use manka_shreds_sdk.Common.{
  replicate, ℕ, zero, suc, ◌+◌, List, [], ◌∷◌, ◌++◌, Option, none, some, leb, ltb, if◌then◌else◌,
  length,
}
use manka_shreds_sdk.Error.{
  Error, Result, ok, err, panic, io, closed, handshake, frame_over_limit, fail_if, ◌>>=◌, ◌>>◌,
}
use manka_shreds_sdk.Protocol.Header.{FrameHeader, frame_header_len, read_frame_header}

-- What one `read_buf` will do: append bytes, or fail. A failed one leaves zeros behind the bytes at hand:
-- none over TCP, and the room it has made over QUIC.
pub data Arrival : Type 0 where
  received : List ℕ → Arrival
  failed : Error → ℕ → Arrival

-- The stream: the reads to come, the bytes written so far, and the answers to the writes to come.
-- Behind the last read the stream is at its end; behind the last answer every write succeeds.
pub record Wire : Type 0 where
  pub incoming : List Arrival
  pub sent : List ℕ
  pub write_failures : List (Option Error)

-- `write_all`
unfoldable pub write_all_with : Wire → List ℕ → List (Option Error) → Result (Unit {0}) × Wire
write_all_with wire bytes [] = (ok tt, record wire { sent = wire.sent ++ bytes })
write_all_with wire bytes (none ∷ rest) =
    (ok tt, record wire { sent = wire.sent ++ bytes; write_failures = rest })
write_all_with wire bytes (some e ∷ rest) = (err e, record wire { write_failures = rest })

unfoldable pub write_all : Wire → List ℕ → Result (Unit {0}) × Wire
unfolding write_all_with
write_all wire bytes = write_all_with wire bytes wire.write_failures

-- The upper half of the loop of `read_frame`: a whole frame in `pending`, none yet, or an error.
unfoldable pub frame_ready : ℕ → List ℕ → Result (Option FrameHeader)
frame_ready limit pending =
    if leb frame_header_len (length pending)
    then (do
      header ← read_frame_header pending
      fail_if (ltb limit header.len) (handshake (frame_over_limit header.kind header.len limit))
      ok (if leb (frame_header_len + header.len) (length pending) then some header else none))
    else ok none

-- What `read_frame` leaves behind: its answer, the bytes read so far and the reads to come. The
-- payload lies behind the header in `pending`.
pub record Framed : Type 0 where
  pub answer : Result FrameHeader
  pub pending : List ℕ
  pub incoming : List Arrival

-- `read_frame`, by recursion on the reads to come
unfoldable pub read_frame : ℕ → List ℕ → List Arrival → Framed
unfolding frame_ready
read_frame limit pending [] = elim (frame_ready limit pending) [
  | ok (some header) ↦ record { answer = ok header; pending = pending; incoming = [] }
  | ok none ↦ record { answer = err closed; pending = pending; incoming = [] }
  | err e ↦ record { answer = err e; pending = pending; incoming = [] }
  | panic ↦ record { answer = panic; pending = pending; incoming = [] }
]
read_frame limit pending (failed f room ∷ rest) = elim (frame_ready limit pending) [
  | ok (some header) ↦ record {
    answer = ok header;
    pending = pending;
    incoming = failed f room ∷ rest;
  }
  | ok none ↦ record { answer = err f; pending = pending ++ replicate room 0; incoming = rest }
  | err e ↦ record { answer = err e; pending = pending; incoming = failed f room ∷ rest }
  | panic ↦ record { answer = panic; pending = pending; incoming = failed f room ∷ rest }
]
read_frame limit pending (received [] ∷ rest) = elim (frame_ready limit pending) [
  | ok (some header) ↦ record {
    answer = ok header;
    pending = pending;
    incoming = received [] ∷ rest;
  }
  | ok none ↦ record { answer = err closed; pending = pending; incoming = rest }
  | err e ↦ record { answer = err e; pending = pending; incoming = received [] ∷ rest }
  | panic ↦ record { answer = panic; pending = pending; incoming = received [] ∷ rest }
]
read_frame limit pending (received (b ∷ bs) ∷ rest) = elim (frame_ready limit pending) [
  | ok (some header) ↦ record {
    answer = ok header;
    pending = pending;
    incoming = received (b ∷ bs) ∷ rest;
  }
  | ok none ↦ read_frame limit (pending ++ (b ∷ bs)) rest
  | err e ↦ record { answer = err e; pending = pending; incoming = received (b ∷ bs) ∷ rest }
  | panic ↦ record { answer = panic; pending = pending; incoming = received (b ∷ bs) ∷ rest }
]
