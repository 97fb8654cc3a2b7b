-- ===== src/Client/Session/Stream.antt =====
-- A run of calls of `next_event` over the frames that a server has written.
use manka_shreds_sdk.Common.{
  ℕ, ◌+◌, ◌-◌, ◌^◌, ◌≤◌, ◌<◌, ◌≡◌, ◌≢◌, refl, sym, ap, ◌∙◌, arith, List, [], ◌∷◌, ◌++◌, Option,
  false, map, length, drop, drop-drop, drop-append, length-append, take-append, All,
}
use mathlib.Core.Path.{subst}
use manka_shreds_sdk.Error.{Result}
use manka_shreds_sdk.Bytes.{word, window}
use manka_shreds_sdk.Protocol.Codes.{uncompressed}
use manka_shreds_sdk.Protocol.Kinds
use manka_shreds_sdk.Protocol.Kinds.{FrameKind, frame_kind_to_byte}
use manka_shreds_sdk.Protocol.Header.{FrameHeader, max_frame_payload, write_frame}
use manka_shreds_sdk.Protocol.Header.Decode.{header_at, read_frame_header_lem}
use manka_shreds_sdk.Protocol.Header.RoundTrip.{read-write_frame}
use manka_shreds_sdk.Client.Wire.{received}
use manka_shreds_sdk.Client.Wire.Framing.{all_bytes, StartsFrame}
use manka_shreds_sdk.Client.Session.{Client, Event, decode_as, dispatch, count_gap, next_event}
use manka_shreds_sdk.Client.Session.Delivery.{taken, next_event-uncompressed}
use manka_shreds_sdk.Client.Session.Failures.{answers}

-- A frame as the server writes it, uncompressed, and the header that says so
pub record SentFrame : Type 0 where
  pub kind : FrameKind
  pub seq : ℕ
  pub payload : List ℕ

abbrev pub header_of : SentFrame → FrameHeader
header_of f = record {
  len = length f.payload;
  kind = f.kind;
  raw_kind = frame_kind_to_byte f.kind;
  compressed = false;
  codec = uncompressed;
  matched = record { bits = 0 };
  seq = f.seq;
}

-- The bytes of a run of frames, and behind them others
abbrev pub written : List SentFrame → List ℕ → List ℕ
written [] rest = rest
written (f ∷ fs) rest = write_frame [] f.kind f.seq f.payload ++ written fs rest

-- A frame that is an event and nothing else, within the limits
abbrev pub IsEvent : ℕ → SentFrame → Type 0
IsEvent limit f =
    (f.kind ≢ Kinds.ping)
    × (f.kind ≢ Kinds.error)
    × (f.kind ≢ Kinds.lag)
    × (length f.payload ≤ limit)
    × (length f.payload ≤ max_frame_payload)
    × (f.seq < 2 ^ 64)

dispatch-IsEvent :
    (kind : FrameKind) (header : FrameHeader) (self : Client)
    → kind ≢ Kinds.ping
    → kind ≢ Kinds.error
    → kind ≢ Kinds.lag
    → dispatch kind header self ≡ (decode_as kind header self.frame, self)
unfolding dispatch
dispatch-IsEvent Kinds.ping header self h k l = absurd (h refl)
dispatch-IsEvent Kinds.error header self h k l = absurd (k refl)
dispatch-IsEvent Kinds.lag header self h k l = absurd (l refl)
dispatch-IsEvent _ header self h k l = refl

module _ (f : SentFrame) (rest : List ℕ) where
  abbrev frame_and_rest : List ℕ
  frame_and_rest = write_frame [] f.kind f.seq f.payload ++ rest

  header_at-write_frame :
      length f.payload ≤ max_frame_payload → f.seq < 2 ^ 64 → header_at frame_and_rest ≡ header_of f
  header_at-write_frame h k = ground (
    arith,
    read_frame_header_lem frame_and_rest,
    read-write_frame f.kind f.seq f.payload rest h k,
  )

  window-write_frame : window frame_and_rest 16 (length f.payload) ≡ f.payload
  unfolding window write_frame
  window-write_frame = take-append f.payload rest

  drop-write_frame : drop (16 + length f.payload) frame_and_rest ≡ rest
  unfolding write_frame
  drop-write_frame =
      sym (drop-drop 16 (length f.payload) frame_and_rest)
      ∙ drop-append (length f.payload) f.payload rest (omega arith)
      ∙ ap (λ k. drop k rest) none_left
    where
      none_left : length f.payload - length f.payload ≡ 0
      none_left = omega arith

  StartsFrame-write_frame :
      (limit : ℕ)
      → length f.payload ≤ limit
      → length f.payload ≤ max_frame_payload
      → f.seq < 2 ^ 64
      → StartsFrame limit frame_and_rest
  unfolding write_frame
  StartsFrame-write_frame limit h k l =
      let size : word frame_and_rest 0 4 ≡ length f.payload =
        ap (λ (header : FrameHeader). header.len) (header_at-write_frame k l) in
      record {
        allowed = rw size h;
        possible = rw size k;
        whole = omega (arith, size, length-append f.payload rest);
      }

module _ (zstd_decompress : Option (List ℕ) → List ℕ → ℕ → Option (List ℕ)) where
  -- What one call does with the uncompressed frame at the start of a stream
  abbrev TakesOne : Client → List ℕ → Type 0
  TakesOne self stream =
      (pending : List ℕ) × (left : List (List ℕ)) × (pending ++ all_bytes left
        ≡ drop (16 + word stream 0 4) stream)
      × (next_event zstd_decompress self
          ≡ dispatch (header_at stream).kind (header_at stream) (taken self stream pending left))
      × All (λ (piece : List ℕ). piece ≢ []) left

  next_event-IsEvent :
      (f : SentFrame) (behind : List ℕ) (self : Client)
      → IsEvent self.max_message_bytes f
      → TakesOne self (write_frame [] f.kind f.seq f.payload ++ behind)
      → (pending : List ℕ) × (left : List (List ℕ)) × (pending ++ all_bytes left ≡ behind)
        × All (λ (piece : List ℕ). piece ≢ []) left
        × ((next_event zstd_decompress self).0 ≡ decode_as f.kind (header_of f) f.payload)
        × ((next_event zstd_decompress self).1
            ≡ taken self (write_frame [] f.kind f.seq f.payload ++ behind) pending left)
  unfolding count_gap
  next_event-IsEvent f behind self (k1, k2, k3, l1, l2, l3) (pending, left, kept, run, others) =
      let stream = write_frame [] f.kind f.seq f.payload ++ behind in
      let header = header_at-write_frame f behind l2 l3 in
      let size : word stream 0 4 ≡ length f.payload = ap (λ (h : FrameHeader). h.len) header in
      let after = taken self stream pending left in
      let handed : next_event zstd_decompress self
          ≡ (decode_as f.kind (header_of f) (window stream 16 (word stream 0 4)), after) =
        run
        ∙ ap (λ (h : FrameHeader). dispatch h.kind h after) header
        ∙ dispatch-IsEvent f.kind (header_of f) after k1 k2 k3 in
      (
        pending,
        left,
        kept ∙ ap (λ n. drop (16 + n) stream) size ∙ drop-write_frame f behind,
        others,
        ap (λ (out : Result Event × Client). out.0) handed
            ∙ ap (λ n. decode_as f.kind (header_of f) (window stream 16 n)) size
            ∙ ap (decode_as f.kind (header_of f)) (window-write_frame f behind),
        ap (λ (out : Result Event × Client). out.1) handed,
      )

  next_event-TakesOne :
      (f : SentFrame) (behind : List ℕ) (self : Client) (pieces : List (List ℕ))
      → self.stream.incoming ≡ map received pieces
      → All (λ (piece : List ℕ). piece ≢ []) pieces
      → self.pending ++ all_bytes pieces ≡ write_frame [] f.kind f.seq f.payload ++ behind
      → IsEvent self.max_message_bytes f
      → TakesOne self (write_frame [] f.kind f.seq f.payload ++ behind)
  next_event-TakesOne f behind self pieces cut full holds (k1, k2, k3, l1, l2, l3) =
      let starts : StartsFrame self.max_message_bytes (self.pending ++ all_bytes pieces) =
        subst (StartsFrame self.max_message_bytes) (sym holds)
          (StartsFrame-write_frame f behind self.max_message_bytes l1 l2 l3) in
      let plain : (header_at (self.pending ++ all_bytes pieces)).compressed ≡ false =
        ap (λ bytes. (header_at bytes).compressed) holds
        ∙ ap (λ (h : FrameHeader). h.compressed) (header_at-write_frame f behind l2 l3) in
      subst (TakesOne self) holds
        (next_event-uncompressed zstd_decompress self pieces cut full starts plain)

  -- If what is at hand and to come, in pieces that are not empty, starts with frames as a
  -- server writes them, uncompressed, of any kinds but ping, error and lag, within the limits
  -- and with numbers of 64 bits, then as many calls of `next_event` answer what the payloads
  -- decode to, in order.
  pub answers-written :
      (fs : List SentFrame) (rest : List ℕ) (self : Client) (pieces : List (List ℕ))
      → self.stream.incoming ≡ map received pieces
      → All (λ (piece : List ℕ). piece ≢ []) pieces
      → self.pending ++ all_bytes pieces ≡ written fs rest
      → All (IsEvent self.max_message_bytes) fs
      → answers zstd_decompress (length fs) self
        ≡ map (λ (f : SentFrame). decode_as f.kind (header_of f) f.payload) fs
  unfolding count_gap
  answers-written [] rest self pieces cut full holds events = refl
  answers-written (f ∷ fs) rest self pieces cut full holds (event, events) =
      let one = next_event-TakesOne f (written fs rest) self pieces cut full holds event in
      let (pending, left, kept, others, answer, after) =
        next_event-IsEvent f (written fs rest) self event one in
      let next = taken self (written (f ∷ fs) rest) pending left in
      let decoded = decode_as f.kind (header_of f) f.payload in
      ap
        (λ (a : Result Event).
          a ∷ answers zstd_decompress (length fs) (next_event zstd_decompress self).1)
        answer
      ∙ ap (λ c. decoded ∷ answers zstd_decompress (length fs) c) after
      ∙ ap (λ (later : List (Result Event)). decoded ∷ later)
          (answers-written fs rest next left refl others kept events)
