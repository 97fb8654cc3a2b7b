-- ===== src/Client/Wire/Framing.antt =====
-- `read_frame` finds the frames of the stream however the stream is cut into reads.
use manka_shreds_sdk.Common.{
  All, ℕ, ◌+◌, ◌≤◌, ◌<◌, ◌≡◌, ◌≢◌, refl, sym, ap, arith, List, [], ◌∷◌, ◌++◌, none, some, map, ltb,
  if◌then◌else◌, length, inl, inr, ◌⊎◌,
}
use native.Mathlib.Decide.{dec_le}
use mathlib.Core.List.{append-nil, append_assoc}
use manka_shreds_sdk.Error.{ok, err, panic, frame_too_large, handshake, frame_over_limit}
use manka_shreds_sdk.Bytes.{word}
use manka_shreds_sdk.Bytes.Words.{word-append_front, byte-append_front}
use manka_shreds_sdk.Protocol.Header.{FrameHeader, max_frame_payload}
use manka_shreds_sdk.Protocol.Header.Decode.{header_at, read_frame_header_lem}
use manka_shreds_sdk.Client.Wire.{Arrival, received, failed, frame_ready, read_frame}

-- A header is settled by the first sixteen bytes.
header_at-append : (xs ys : List ℕ) → 16 ≤ length xs → header_at (xs ++ ys) ≡ header_at xs
header_at-append xs ys h = ground (
  arith,
  word-append_front xs ys 0 4,
  word-append_front xs ys 6 2,
  word-append_front xs ys 8 8,
  byte-append_front xs ys 4,
  byte-append_front xs ys 5,
)

-- A frame that is whole, and one that is not.
pub frame_ready_lem :
    (limit : ℕ) (pending : List ℕ)
    → frame_ready limit pending ≡ (
        if ltb (length pending) 16
        then ok none
        else if ltb max_frame_payload (word pending 0 4)
        then err (frame_too_large (word pending 0 4))
        else if ltb limit (word pending 0 4)
        then err (handshake (frame_over_limit (header_at pending).kind (word pending 0 4) limit))
        else if ltb (length pending) (16 + word pending 0 4)
        then ok none
        else ok (some (header_at pending)))
unfolding frame_ready
frame_ready_lem limit pending = ground (arith, read_frame_header_lem pending)

frame_ready-ne-panic : (limit : ℕ) (pending : List ℕ) → frame_ready limit pending ≢ panic
frame_ready-ne-panic limit pending e = ground (arith, frame_ready_lem limit pending)

-- All bytes of a run of reads.
abbrev pub all_bytes : List (List ℕ) → List ℕ
all_bytes [] = []
all_bytes (xs ∷ xss) = xs ++ all_bytes xss

-- `read_frame` does not panic, whatever is at hand and whatever the stream delivers.
pub read_frame-ne-panic :
    (limit : ℕ) (incoming : List Arrival) (pending : List ℕ)
    → (read_frame limit pending incoming).answer ≢ panic
unfolding read_frame
read_frame-ne-panic limit [] pending e = ground (arith, frame_ready-ne-panic limit pending)
read_frame-ne-panic limit (failed f room ∷ rest) pending e =
    ground (arith, frame_ready-ne-panic limit pending)
read_frame-ne-panic limit (received [] ∷ rest) pending e =
    ground (arith, frame_ready-ne-panic limit pending)
read_frame-ne-panic limit (received (b ∷ bs) ∷ rest) pending e = ground (
  arith,
  frame_ready-ne-panic limit pending,
  read_frame-ne-panic limit rest (pending ++ (b ∷ bs)),
)

-- The stream starts with a whole frame that the limits allow.
pub record StartsFrame (limit : ℕ) (stream : List ℕ) : Type 0 where
  pub allowed : word stream 0 4 ≤ limit
  pub possible : word stream 0 4 ≤ max_frame_payload
  pub whole : 16 + word stream 0 4 ≤ length stream

-- Either the bytes at hand hold the frame, or there are too few of them.
ready_or_short :
    (limit : ℕ) (pending more : List ℕ)
    → StartsFrame limit (pending ++ more)
    → ((frame_ready limit pending ≡ ok (some (header_at (pending ++ more))))
        × (16 + word (pending ++ more) 0 4 ≤ length pending))
      ⊎ ((frame_ready limit pending ≡ ok none) × (length pending < 16 + word (pending ++ more) 0 4))
ready_or_short limit pending more s = elim (dec_le 16 (length pending)) [
  | yes header ↦ elim (dec_le (16 + word pending 0 4) (length pending)) [
    | yes whole ↦ inl (
      ground (
        arith,
        frame_ready_lem limit pending,
        word-append_front pending more 0 4,
        header_at-append pending more,
        s.allowed,
        s.possible,
      ),
      omega (arith, word-append_front pending more 0 4),
    )
    | no part ↦ inr (
      ground (
        arith,
        frame_ready_lem limit pending,
        word-append_front pending more 0 4,
        s.allowed,
        s.possible,
      ),
      omega (arith, word-append_front pending more 0 4),
    )
  ]
  | no short ↦ inr (ground (arith, frame_ready_lem limit pending), omega arith)
]

-- The outcome: the header, and no byte of the stream lost or reordered, with the whole frame at hand.
abbrev pub Finds : ℕ → List ℕ → List (List ℕ) → List ℕ → Type 0
Finds limit pending pieces stream =
    (pending' : List ℕ) × (left : List (List ℕ)) × (read_frame limit pending (map received pieces)
      ≡ record { answer = ok (header_at stream); pending = pending'; incoming = map received left })
    × (pending' ++ all_bytes left ≡ stream)
    × (16 + word stream 0 4 ≤ length pending')
    × All (λ (piece : List ℕ). piece ≢ []) left

-- The steps of the loop: a frame at hand is answered with nothing read, else a piece is taken.
pub read_frame_ready :
    (limit : ℕ) (pending : List ℕ) (incoming : List Arrival) {header : FrameHeader}
    → frame_ready limit pending ≡ ok (some header)
    → read_frame limit pending incoming
      ≡ record { answer = ok header; pending = pending; incoming = incoming }
unfolding read_frame
read_frame_ready limit pending [] h = rw (h, read_frame)
read_frame_ready limit pending (failed f room ∷ rest) h = rw (h, read_frame)
read_frame_ready limit pending (received [] ∷ rest) h = rw (h, read_frame)
read_frame_ready limit pending (received (b ∷ bs) ∷ rest) h = rw (h, read_frame)

pub read_frame_more :
    (limit : ℕ) (pending : List ℕ) (b : ℕ) (bs : List ℕ) (rest : List Arrival)
    → frame_ready limit pending ≡ ok none
    → read_frame limit pending (received (b ∷ bs) ∷ rest)
      ≡ read_frame limit (pending ++ (b ∷ bs)) rest
unfolding read_frame
read_frame_more limit pending b bs rest h = rw (h, read_frame)

-- If the bytes at hand and the pieces to come, none of them empty, start with a whole frame
-- within the limits, `read_frame` answers with the header of that frame, has the whole frame at
-- hand, and what it has at hand and has left to read is the stream unchanged, in pieces none of
-- which is empty.
pub read_frame-Finds :
    (limit : ℕ) (pieces : List (List ℕ)) (pending : List ℕ)
    → All (λ (piece : List ℕ). piece ≢ []) pieces
    → StartsFrame limit (pending ++ all_bytes pieces)
    → Finds limit pending pieces (pending ++ all_bytes pieces)
read_frame-Finds limit [] pending full s = elim (ready_or_short limit pending [] s) [
  | inl (ready, whole) ↦ (pending, [], read_frame_ready limit pending [] ready, refl, whole, tt)
  | inr (few, short) ↦ absurd (omega (arith, s.whole, ap length (append-nil pending)))
]
read_frame-Finds limit ([] ∷ pieces) pending (some_bytes, full) s = absurd (some_bytes refl)
read_frame-Finds limit ((b ∷ bs) ∷ pieces) pending (some_bytes, full) s =
    elim (ready_or_short limit pending (all_bytes ((b ∷ bs) ∷ pieces)) s) [
      | inl (ready, whole) ↦ (
        pending,
        (b ∷ bs) ∷ pieces,
        read_frame_ready limit pending (map received ((b ∷ bs) ∷ pieces)) ready,
        refl,
        whole,
        (some_bytes, full),
      )
      | inr (short, few) ↦
          rw
            (
              sym (append_assoc pending (b ∷ bs) (all_bytes pieces)),
              read_frame_more limit pending b bs (map received pieces) short,
            )
            (read_frame-Finds limit pieces (pending ++ (b ∷ bs)) full
              (rw (append_assoc pending (b ∷ bs) (all_bytes pieces)) s))
    ]
