-- ===== src/Client/Session/Delivery.antt =====
-- What one call of `next_event` does with the frame that the stream starts with.
use manka_shreds_sdk.Common.{
  ℕ, ◌+◌, ◌≤◌, ◌≡◌, ◌≢◌, refl, sym, ap, ◌∙◌, arith, List, [], ◌++◌, Option, none, some, map, true,
  false, length, drop, drop-append_front, All,
}
use manka_shreds_sdk.Error.{ok, err, decompress}
use manka_shreds_sdk.Bytes.{word, window}
use manka_shreds_sdk.Bytes.Reads.{slice_here, length-window}
use manka_shreds_sdk.Bytes.Words.{window-append_front}
use manka_shreds_sdk.Protocol.Kinds
use manka_shreds_sdk.Protocol.Codes.{zstd}
use manka_shreds_sdk.Protocol.Header.{FrameHeader, write_frame}
use manka_shreds_sdk.Protocol.Header.Decode.{header_at}
use manka_shreds_sdk.Client.Wire.{received, frame_ready, write_all}
use manka_shreds_sdk.Client.Wire.Framing.{
  all_bytes, StartsFrame, read_frame-Finds, read_frame_ready,
}
use manka_shreds_sdk.Client.Session.{
  Client, add_u64, ping, count_gap, dispatch, take_ping, ping_reply, settle, unpacked, unpack,
  take_body, take_frame, next_event,
}

-- The client once the frame at the start of `stream` has been taken off it, uncompressed, and
-- counted; `pending` and `left` are what is behind the frame.
abbrev pub taken : Client → List ℕ → List ℕ → List (List ℕ) → Client
taken self stream pending left = count_gap (word stream 8 8) (record self {
  stream = record self.stream { incoming = map received left };
  pending = pending;
  frame = window stream 16 (word stream 0 4);
  wire_bytes = add_u64 self.wire_bytes (16 + word stream 0 4);
  decoded_bytes = add_u64 self.decoded_bytes (word stream 0 4);
})

module _ (zstd_decompress : Option (List ℕ) → List ℕ → ℕ → Option (List ℕ)) where
  -- An uncompressed frame that lies whole in `pending`.
  pub take_frame-plain :
      (header : FrameHeader) (self : Client)
      → header.compressed ≡ false
      → 16 + header.len ≤ length self.pending
      → take_frame zstd_decompress (ok header) self
        ≡ dispatch header.kind header (
            count_gap header.seq (record self {
              pending = drop (16 + header.len) self.pending;
              frame = window self.pending 16 header.len;
              wire_bytes = add_u64 self.wire_bytes (16 + header.len);
              decoded_bytes = add_u64 self.decoded_bytes header.len;
            }))
  unfolding take_frame take_body settle
  take_frame-plain header self plain whole =
      simp (slice_here self.pending 16 header.len whole, plain, size)
    where
      size : length (window self.pending 16 header.len) ≡ header.len
      size = omega (arith, length-window self.pending 16 header.len)

  -- A stream that starts with a whole uncompressed frame within the limits, however its rest
  -- is cut into pieces that are not empty: one call of `next_event` hands the frame's payload
  -- to the code for its kind, with the frame counted once, and what lies behind the frame
  -- stays for the next call, no byte lost.
  pub next_event-uncompressed :
      (self : Client) (pieces : List (List ℕ))
      → self.stream.incoming ≡ map received pieces
      → All (λ (piece : List ℕ). piece ≢ []) pieces
      → StartsFrame self.max_message_bytes (self.pending ++ all_bytes pieces)
      → (header_at (self.pending ++ all_bytes pieces)).compressed ≡ false
      → (pending : List ℕ) × (left : List (List ℕ)) × (pending ++ all_bytes left
          ≡ drop
              (16 + word (self.pending ++ all_bytes pieces) 0 4)
              (self.pending ++ all_bytes pieces))
        × (next_event zstd_decompress self
            ≡ dispatch
                (header_at (self.pending ++ all_bytes pieces)).kind
                (header_at (self.pending ++ all_bytes pieces))
                (taken self (self.pending ++ all_bytes pieces) pending left))
        × All (λ (piece : List ℕ). piece ≢ []) left
  unfolding next_event
  next_event-uncompressed self pieces cut full s plain =
      let stream = self.pending ++ all_bytes pieces in
      let len = word stream 0 4 in
      let (pending, left, found, kept, whole, others) =
        read_frame-Finds self.max_message_bytes pieces self.pending full s in
      let body : window pending 16 len ≡ window stream 16 len =
        sym (window-append_front pending (all_bytes left) 16 len whole)
        ∙ ap (λ s. window s 16 len) kept in
      (
        drop (16 + len) pending,
        left,
        sym (drop-append_front (16 + len) pending (all_bytes left) whole)
            ∙ ap (drop (16 + len)) kept,
        simp (
          cut,
          found,
          take_frame-plain (header_at stream)
              (record self {
                stream = record self.stream { incoming = map received left };
                pending = pending;
              })
              plain whole,
          body,
        ),
        others,
      )

  -- If the stream starts with a whole uncompressed ping frame within the limits, however its
  -- rest is cut into pieces that are not empty, and no write fails, `next_event` reports the
  -- ping and has sent one pong frame.
  pub next_event-ping :
      (self : Client) (pieces : List (List ℕ))
      → self.stream.incoming ≡ map received pieces
      → All (λ (piece : List ℕ). piece ≢ []) pieces
      → StartsFrame self.max_message_bytes (self.pending ++ all_bytes pieces)
      → (header_at (self.pending ++ all_bytes pieces)).compressed ≡ false
      → (header_at (self.pending ++ all_bytes pieces)).kind ≡ Kinds.ping
      → self.stream.write_failures ≡ []
      → ((next_event zstd_decompress self).0 ≡ ok ping)
        × ((next_event zstd_decompress self).1.stream.sent
            ≡ self.stream.sent ++ write_frame [] Kinds.pong 0 [])
  unfolding dispatch take_ping ping_reply write_all count_gap
  next_event-ping self pieces cut full s plain kind fine =
      let (pending, left, kept, run, others) =
        next_event-uncompressed self pieces cut full s plain in
      simp (run, kind, fine) (refl, refl)

  -- If a whole zstd frame is at hand that the decompressor refuses, `next_event` returns the
  -- decompression error and leaves the frame at hand: the client differs in the empty scratch
  -- buffer and the count of wire bytes only, so that the next call meets the same frame.
  pub next_event-refused :
      (self : Client) (header : FrameHeader)
      → frame_ready self.max_message_bytes self.pending ≡ ok (some header)
      → header.compressed ≡ true
      → header.codec ≡ zstd
      → 16 + header.len ≤ length self.pending
      → zstd_decompress self.dictionary (window self.pending 16 header.len) self.max_message_bytes
        ≡ none
      → next_event zstd_decompress self ≡ (
        err decompress,
        record self { frame = []; wire_bytes = add_u64 self.wire_bytes (16 + header.len) },
      )
  unfolding next_event take_frame take_body unpack unpacked
  next_event-refused self header ready packed codec whole refused = simp (
    read_frame_ready self.max_message_bytes self.pending self.stream.incoming ready,
    slice_here self.pending 16 header.len whole,
    packed,
    codec,
    refused,
  )
