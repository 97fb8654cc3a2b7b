-- ===== src/Tests/Reads.antt =====
-- Reads over both transports, failures among them, and what a caller gets after them.
use manka_shreds_sdk.Common.{
  take, drop, All, ◌≢◌, map, replicate, ℕ, ◌-◌, ◌*◌, ◌+◌, ◌≤◌, ◌≡◌, refl, arith, List, [], ◌∷◌,
  ◌++◌, none, some, length,
}
use manka_shreds_sdk.Error.{Error, ok, err, closed, handshake, transport_failed}
use manka_shreds_sdk.Transport.{tcp_stream, quic_streams}
use manka_shreds_sdk.Transport.Reading.{Buffer, arrived, read_buf, arrival, grown}
use manka_shreds_sdk.Transport.Reading.Arrivals.{left_behind, answered, read_buf-arrival}
use manka_shreds_sdk.Client.Wire.{Arrival, received, failed, read_frame, frame_ready}
use manka_shreds_sdk.Client.Session.{Client, Event, other, pong, decode_as, next_event}
use manka_shreds_sdk.Client.Session.Dropped.{dropped, arrives, dropped-next_event, answers-dropped}
use manka_shreds_sdk.Client.Session.Failures.{answers}
use manka_shreds_sdk.Client.Session.Stream.{SentFrame, written, IsEvent, answers-written}
use manka_shreds_sdk.Protocol.Kinds
use manka_shreds_sdk.Protocol.Kinds.{frame_kind_to_byte}
use manka_shreds_sdk.Protocol.Header.{write_frame}
use manka_shreds_sdk.Client.Session.Progress.{bytes_left}
use manka_shreds_sdk.Client.Session.Draining.{drain, drain_ends}
use manka_shreds_sdk.Tests.Sessions

abbrev reserve : ℕ → ℕ → ℕ → ℕ
reserve capacity at more = at + more

abbrev buffer : Buffer
buffer = record { bytes = 1 ∷ 2 ∷ []; capacity = 2 }

read_buf-arrival_example :
    (16 * 1024 ≤ grown reserve buffer - length buffer.bytes)
    × ((read_buf reserve (quic_streams none) (arrived (3 ∷ [])) buffer).0
        ≡ answered (arrival reserve (quic_streams none) (arrived (3 ∷ [])) buffer))
    × ((read_buf reserve (quic_streams none) (arrived (3 ∷ [])) buffer).1.bytes
        ≡ buffer.bytes
          ++ left_behind (arrival reserve (quic_streams none) (arrived (3 ∷ [])) buffer))
read_buf-arrival_example =
    read_buf-arrival reserve (quic_streams none) (arrived (3 ∷ [])) buffer
      (λ capacity at more. omega arith)

-- A read that fails with room for two headers, then a ping frame
abbrev reads : List Arrival
reads = failed (handshake transport_failed) 32 ∷ received (0 ∷ 0 ∷ 0 ∷ 0 ∷ 13 ∷ replicate 11 0) ∷ []

abbrev failing : Client
failing = record Sessions.client {
  stream = record { incoming = reads; sent = []; write_failures = [] };
  pending = [];
}

drain_ends_example :
    (events : List Event) × (e : Error) × (drain Sessions.refuse 4 failing ≡ some (events, e))
    × (16 * length events ≤ bytes_left failing)
drain_ends_example = drain_ends Sessions.refuse 4 failing (omega arith)

-- A client that has nine bytes of a frame when the call is dropped, and the eleven that come later
abbrev first_piece : List ℕ
first_piece = 13 ∷ 0 ∷ 0 ∷ 0 ∷ 0 ∷ []

abbrev later : List Arrival
later = received (4 ∷ 0 ∷ 0 ∷ 0 ∷ 0 ∷ 0 ∷ 0 ∷ 0 ∷ 1 ∷ 2 ∷ 3 ∷ []) ∷ []

abbrev begun : Client
begun = record Sessions.client {
  stream = record { incoming = map received (first_piece ∷ []); sent = []; write_failures = [] };
}

begun_waits :
    (read_frame begun.max_message_bytes begun.pending (map received (first_piece ∷ []))).answer
    ≡ err closed
unfolding read_frame frame_ready
begun_waits = refl

dropped-next_event_example :
    next_event Sessions.refuse (arrives later (dropped reserve tcp_stream 5 begun))
    ≡ next_event Sessions.refuse (arrives later begun)
dropped-next_event_example =
    dropped-next_event reserve Sessions.refuse begun 5 (first_piece ∷ []) later refl ((λ e. cc), tt)
      begun_waits

abbrev quiet : Client
quiet = record failing { stream = record { incoming = []; sent = []; write_failures = [] } }

answers-dropped_example :
    answers Sessions.refuse 4 (dropped reserve (quic_streams none) 0 quiet)
    ≡ replicate 4 (ok (other 0 []))
answers-dropped_example =
    answers-dropped reserve Sessions.refuse quiet none 0 4 (λ capacity at more. omega arith) refl
      refl (omega arith)

-- A pong and a challenge, cut within the second header, and a byte behind them
abbrev frames : List SentFrame
frames =
    record { kind = Kinds.pong; seq = 4; payload = [] }
    ∷ record { kind = Kinds.challenge; seq = 5; payload = 1 ∷ 2 ∷ [] }
    ∷ []

abbrev frame_pieces : List (List ℕ)
frame_pieces = take 20 (written frames (9 ∷ [])) ∷ drop 20 (written frames (9 ∷ [])) ∷ []

abbrev ready : Client
ready = record failing {
  stream = record { incoming = map received frame_pieces; sent = []; write_failures = [] };
}

pieces_full : All (λ (piece : List ℕ). piece ≢ []) frame_pieces
unfolding write_frame
pieces_full = ((λ e. cc), ((λ e. cc), tt))

frames-IsEvent : All (IsEvent 1000) frames
frames-IsEvent = (
  ((λ e. cc), (λ e. cc), (λ e. cc), omega arith, omega arith, omega arith),
  (((λ e. cc), (λ e. cc), (λ e. cc), omega arith, omega arith, omega arith), tt),
)

answers-written_example :
    answers Sessions.refuse 2 ready
    ≡ ok pong ∷ ok (other (frame_kind_to_byte Kinds.challenge) (1 ∷ 2 ∷ [])) ∷ []
unfolding decode_as write_frame
answers-written_example =
    answers-written Sessions.refuse frames (9 ∷ []) ready frame_pieces refl pieces_full refl
      frames-IsEvent
