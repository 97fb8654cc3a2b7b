-- ===== src/Client/Connect/Carried.antt =====
-- Frames that a link carries, received and sent during the handshake.
use manka_shreds_sdk.Common.{
  All, ℕ, ◌+◌, ◌≡◌, ◌≢◌, refl, sym, ap, ◌∙◌, List, [], ◌∷◌, ◌++◌, Option, map, drop,
  drop-append_front,
}
use mathlib.Core.Path.{subst}
use manka_shreds_sdk.Error.{Error, Result, ok}
use manka_shreds_sdk.Bytes.{word, window}
use manka_shreds_sdk.Bytes.Reads.{slice_here}
use manka_shreds_sdk.Bytes.Words.{window-append_front}
use manka_shreds_sdk.Protocol.Kinds.{FrameKind}
use manka_shreds_sdk.Protocol.Header.Decode.{header_at}
use manka_shreds_sdk.Client.Wire.{Wire, received, write_all, write_all_with}
use manka_shreds_sdk.Client.Wire.Framing.{all_bytes, StartsFrame, read_frame-Finds}
use manka_shreds_sdk.Client.Connect.{Link, send, take_payload, receive}

-- A link on which the stream is still to come, in pieces, and no write fails
pub record Carries (link : Link) (stream : List ℕ) : Type 0 where
  pub pieces : List (List ℕ)
  pub full : All (λ (piece : List ℕ). piece ≢ []) pieces
  pub cut : link.stream.incoming ≡ map received pieces
  pub bytes : link.pending ++ all_bytes pieces ≡ stream
  pub writes : link.stream.write_failures ≡ []

-- What is behind the first frame
abbrev pub behind : List ℕ → List ℕ
behind stream = drop (16 + word stream 0 4) stream

-- A whole frame is received, however it is cut, and what is behind it is still to come.
abbrev pub Received {ℓ} :
    {A : Type ℓ} → (FrameKind → List ℕ → Result A) → ℕ → Link → A → List ℕ → Type ℓ
Received decode limit link a stream =
    StartsFrame limit stream
    → decode (header_at stream).kind (window stream 16 (word stream 0 4)) ≡ ok a
    → (after : Link) × (receive decode limit link ≡ (ok a, after)) × Carries after (behind stream)

receive_pieces {ℓ} :
    {A : Type ℓ} (decode : FrameKind → List ℕ → Result A) (limit : ℕ) (link : Link) (a : A)
    (pieces : List (List ℕ))
    → All (λ (piece : List ℕ). piece ≢ []) pieces
    → link.stream.incoming ≡ map received pieces
    → link.stream.write_failures ≡ []
    → Received decode limit link a (link.pending ++ all_bytes pieces)
unfolding receive take_payload
receive_pieces decode limit link a pieces full cut writes s decodes =
    let stream = link.pending ++ all_bytes pieces in
    let len = word stream 0 4 in
    let (pending, left, found, kept, whole, others) =
      read_frame-Finds limit pieces link.pending full s in
    let body : window pending 16 len ≡ window stream 16 len =
      sym (window-append_front pending (all_bytes left) 16 len whole)
      ∙ ap (λ t. window t 16 len) kept in
    (
      record link {
        stream = record link.stream { incoming = map received left };
        pending = drop (16 + len) pending;
      },
      rw (cut, found) (simp (slice_here pending 16 len whole, body, decodes)),
      record {
        pieces = left;
        full = others;
        cut = refl;
        bytes =
            sym (drop-append_front (16 + len) pending (all_bytes left) whole)
            ∙ ap (drop (16 + len)) kept;
        writes = writes;
      },
    )

pub receive-Carries {ℓ} :
    {A : Type ℓ} (decode : FrameKind → List ℕ → Result A) (limit : ℕ) (link : Link)
    (stream : List ℕ) (a : A)
    → Carries link stream
    → Received decode limit link a stream
receive-Carries decode limit link stream a c =
    subst (Received decode limit link a) c.bytes
      (receive_pieces decode limit link a c.pieces c.full c.cut c.writes)

write_all_with_lem :
    (wire : Wire) (frame : List ℕ) (failures : List (Option Error))
    → failures ≡ []
    → write_all_with wire frame failures ≡ (ok tt, record wire { sent = wire.sent ++ frame })
unfolding write_all_with
write_all_with_lem wire frame [] e = refl
write_all_with_lem wire frame (f ∷ fs) e = cc

pub send-Carries :
    (frame : List ℕ) (link : Link) (stream : List ℕ)
    → Carries link stream
    → (after : Link) × (send frame link ≡ (ok tt, after)) × Carries after stream
unfolding send write_all
send-Carries frame link stream c =
    let sent = write_all_with_lem link.stream frame link.stream.write_failures c.writes in
    (
      record link { stream = record link.stream { sent = link.stream.sent ++ frame } },
      rw sent refl,
      record { pieces = c.pieces; full = c.full; cut = c.cut; bytes = c.bytes; writes = c.writes },
    )
