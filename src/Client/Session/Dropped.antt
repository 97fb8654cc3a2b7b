-- ===== src/Client/Session/Dropped.antt =====
-- The future of `next_event` dropped while it waits in a read, as under a timeout or in a select.
use manka_shreds_sdk.Common.{
  replicate, ℕ, ◌+◌, ◌-◌, ◌≤◌, ◌≡◌, ◌≢◌, refl, sym, ap, arith, List, [], ◌∷◌, ◌++◌, Option, none,
  some, map, All,
}
use manka_shreds_sdk.Error.{Result, ok, err, panic, closed}
use manka_shreds_sdk.Transport.{Carrier, tcp_stream, quic_streams}
use manka_shreds_sdk.Transport.Reading.{Buffer, grown, filled, interrupted}
use manka_shreds_sdk.Transport.Reading.Arrivals.{grown-room}
use manka_shreds_sdk.Protocol.Header.{FrameHeader}
use manka_shreds_sdk.Client.Wire.{Arrival, received, Framed, read_frame, frame_ready}
use manka_shreds_sdk.Client.Wire.Framing.{frame_ready_lem, read_frame_more}
use manka_shreds_sdk.Client.Session.{Client, other, take_frame, next_event}
use manka_shreds_sdk.Client.Session.Failures.{answers, answers-zeros}

module _ (reserve : ℕ → ℕ → ℕ → ℕ) where
  -- What a call has done when it is dropped: it has read what had arrived, and it awaits the next read,
  -- where the buffer has this capacity.
  unfoldable pub dropped : Carrier → ℕ → Client → Client
  unfolding interrupted
  dropped carrier capacity self =
      let framed = read_frame self.max_message_bytes self.pending self.stream.incoming in
      let waiting =
        interrupted reserve carrier (record { bytes = framed.pending; capacity = capacity }) in
      record self {
        stream = record self.stream { incoming = framed.incoming };
        pending = waiting.bytes;
      }

-- More reads to come
abbrev pub arrives : List Arrival → Client → Client
arrives later self = record self {
  stream = record self.stream { incoming = self.stream.incoming ++ later };
}

frame_ready-ne-closed : (limit : ℕ) (pending : List ℕ) → frame_ready limit pending ≢ err closed
frame_ready-ne-closed limit pending e = ground (arith, frame_ready_lem limit pending)

-- Where a run of reads does not hold a whole frame, `read_frame` goes on from them.
abbrev GoesOn : ℕ → List ℕ → List Arrival → List Arrival → Type 0
GoesOn limit pending before later =
    (read_frame limit pending (before ++ later)
      ≡ read_frame limit (read_frame limit pending before).pending later)
    × ((read_frame limit pending before).incoming ≡ [])

goes_on :
    (limit : ℕ) (pending : List ℕ) (b : ℕ) (bs : List ℕ) (before later : List Arrival)
    (ready : Result (Option FrameHeader))
    → frame_ready limit pending ≡ ready
    → (read_frame limit pending (received (b ∷ bs) ∷ before)).answer ≡ err closed
    → ((read_frame limit (pending ++ (b ∷ bs)) before).answer ≡ err closed
        → GoesOn limit (pending ++ (b ∷ bs)) before later)
    → GoesOn limit pending (received (b ∷ bs) ∷ before) later
unfolding read_frame
goes_on limit pending b bs before later (ok none) r h rest =
    rw
      (
        read_frame_more limit pending b bs before r,
        read_frame_more limit pending b bs (before ++ later) r,
      )
      (rest (rw⁻¹ (read_frame_more limit pending b bs before r) h))
goes_on limit pending b bs before later (ok (some header)) r h rest = absurd (ground arith)
goes_on limit pending b bs before later (err e) r h rest =
    absurd (frame_ready-ne-closed limit pending (ground arith))
goes_on limit pending b bs before later panic r h rest = absurd (ground arith)

read_frame-GoesOn :
    (limit : ℕ) (pieces : List (List ℕ)) (pending : List ℕ) (later : List Arrival)
    → All (λ (piece : List ℕ). piece ≢ []) pieces
    → (read_frame limit pending (map received pieces)).answer ≡ err closed
    → GoesOn limit pending (map received pieces) later
unfolding read_frame
read_frame-GoesOn limit [] pending later full h =
    ground (arith, frame_ready-ne-closed limit pending)
read_frame-GoesOn limit ([] ∷ pieces) pending later (some_bytes, full) h = absurd (some_bytes refl)
read_frame-GoesOn limit ((b ∷ bs) ∷ pieces) pending later (some_bytes, full) h =
    goes_on limit pending b bs (map received pieces) later _ refl h
      (read_frame-GoesOn limit pieces (pending ++ (b ∷ bs)) later full)

module _ (reserve : ℕ → ℕ → ℕ → ℕ)
    (zstd_decompress : Option (List ℕ) → List ℕ → ℕ → Option (List ℕ)) where
  -- If the future of `next_event` is dropped over TCP while it waits for the rest of a frame,
  -- what has arrived being in pieces that are not empty, then the next call, whatever arrives
  -- later, answers what the dropped one would have answered, and leaves the same client.
  pub dropped-next_event :
      (self : Client) (capacity : ℕ) (pieces : List (List ℕ)) (later : List Arrival)
      → self.stream.incoming ≡ map received pieces
      → All (λ (piece : List ℕ). piece ≢ []) pieces
      → (read_frame self.max_message_bytes self.pending (map received pieces)).answer ≡ err closed
      → next_event zstd_decompress (arrives later (dropped reserve tcp_stream capacity self))
        ≡ next_event zstd_decompress (arrives later self)
  unfolding next_event dropped
  dropped-next_event self capacity pieces later arrived full waits =
      let limit = self.max_message_bytes in
      let (goes, none_left) = read_frame-GoesOn limit pieces self.pending later full waits in
      let read = read_frame limit self.pending self.stream.incoming in
      let same : read_frame limit read.pending (read.incoming ++ later)
          ≡ read_frame limit self.pending (self.stream.incoming ++ later) =
        rw (arrived, none_left) (sym goes) in
      ap
        (λ (framed : Framed). take_frame zstd_decompress framed.answer (record self {
          stream = record self.stream { incoming = framed.incoming };
          pending = framed.pending;
        }))
        same

  -- If `Vec::reserve` makes the room it is asked for, and the future of `next_event` is
  -- dropped over QUIC while there is nothing at hand and nothing has arrived, then the read
  -- has left zeros behind, and each of the next calls, up to 1024, answers an event of kind 0
  -- with no payload.
  pub answers-dropped :
      (self : Client) (chain : Option (List (List ℕ))) (capacity n : ℕ)
      → ((capacity at more : ℕ) → at + more ≤ reserve capacity at more)
      → self.pending ≡ []
      → self.stream.incoming ≡ []
      → n ≤ 1024
      → answers zstd_decompress n (dropped reserve (quic_streams chain) capacity self)
        ≡ replicate n (ok (other 0 []))
  unfolding dropped filled read_frame frame_ready
  answers-dropped self chain capacity n roomy empty quiet few =
      answers-zeros zstd_decompress n (room - 0)
        (dropped reserve (quic_streams chain) capacity self)
        (omega (arith, grown-room reserve buffer roomy)) (rw (empty, quiet) refl)
    where
      buffer : Buffer
      buffer = record { bytes = []; capacity = capacity }

      room : ℕ
      room = grown reserve buffer
