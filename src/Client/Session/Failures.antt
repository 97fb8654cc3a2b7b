-- ===== src/Client/Session/Failures.antt =====
-- What a failed read leaves behind for the calls that follow it.
use manka_shreds_sdk.Common.{
  replicate, ℕ, zero, suc, ◌+◌, ◌-◌, ◌*◌, ◌≤◌, ◌≡◌, refl, ap, ◌∙◌, arith, List, [], ◌∷◌, Option,
  some, false, drop, length-replicate,
}
use manka_shreds_sdk.Error.{Error, Result, ok, err}
use manka_shreds_sdk.Bytes.{word, byte, window}
use manka_shreds_sdk.Protocol.Kinds.{frame_kind_from_byte}
use manka_shreds_sdk.Protocol.Header.Decode.{header_at}
use manka_shreds_sdk.Client.Wire.{Arrival, failed, read_frame, frame_ready}
use manka_shreds_sdk.Client.Wire.Framing.{frame_ready_lem, read_frame_ready}
use manka_shreds_sdk.Client.Session.{
  Client, Event, other, next_event, take_frame, dispatch, count_gap, decode_as,
}
use manka_shreds_sdk.Client.Session.Delivery.{take_frame-plain}

drop-replicate : (n m k : ℕ) → m ≡ n + k → drop n (replicate {A = ℕ} m 0) ≡ replicate k 0
drop-replicate zero m k e = ap (λ i. replicate i 0) (omega arith)
drop-replicate (suc n) zero k e = absurd (omega arith)
drop-replicate (suc n) (suc m) k e = drop-replicate n m k (omega arith)

-- A frame of kind 0, number 0 and no payload
zeros_ready :
    (limit room : ℕ)
    → frame_ready limit (replicate (16 + room) 0) ≡ ok (some (header_at (replicate 16 0)))
unfolding word byte window
zeros_ready limit room = ground (arith, frame_ready_lem limit (replicate (16 + room) 0))

module _ (zstd_decompress : Option (List ℕ) → List ℕ → ℕ → Option (List ℕ)) where
  -- The answers of so many calls, one after the other
  abbrev pub answers : ℕ → Client → List (Result Event)
  answers zero self = []
  answers (suc n) self =
      (next_event zstd_decompress self).0 ∷ answers n (next_event zstd_decompress self).1

  next_event-zeros :
      (room : ℕ) (self : Client)
      → self.pending ≡ replicate (16 + room) 0
      → ((next_event zstd_decompress self).0 ≡ ok (other 0 []))
        × ((next_event zstd_decompress self).1.pending ≡ replicate room 0)
  unfolding next_event word byte window frame_kind_from_byte dispatch count_gap decode_as
  next_event-zeros room self zeros =
      rw
        (
          zeros,
          read_frame_ready self.max_message_bytes (replicate (16 + room) 0) self.stream.incoming
              (zeros_ready self.max_message_bytes room),
          take_frame-plain zstd_decompress (header_at (replicate 16 0))
              (record self { pending = replicate (16 + room) 0 }) plain
              (omega (arith, length-replicate {A = ℕ} (16 + room) 0)),
        )
        (refl, drop-replicate 16 (16 + room) room refl)
    where
      plain : (header_at (replicate 16 0)).compressed ≡ false
      plain = refl

  -- While sixteen zeros are left, a call answers an event, though nothing has arrived.
  pub answers-zeros :
      (n room : ℕ) (self : Client)
      → n * 16 ≤ room
      → self.pending ≡ replicate room 0
      → answers n self ≡ replicate n (ok (other 0 []))
  answers-zeros zero room self h zeros = refl
  answers-zeros (suc n) room self h zeros =
      let split : room ≡ 16 + (room - 16) = omega arith in
      let (answer, kept) =
        next_event-zeros (room - 16) self (zeros ∙ ap (λ k. replicate k 0) split) in
      rw answer (ap (λ xs. ok (other 0 []) ∷ xs) (answers-zeros n (room - 16) _ (omega arith) kept))

  -- If there is nothing at hand and the next read fails and leaves `room` zeros, the call of
  -- `next_event` answers that failure, and while sixteen of the zeros are left, each call
  -- after it answers an event of kind 0 with no payload, though nothing has arrived.
  answers-failed :
      (self : Client) (e : Error) (room n : ℕ) (rest : List Arrival)
      → self.pending ≡ []
      → self.stream.incoming ≡ failed e room ∷ rest
      → n * 16 ≤ room
      → answers (suc n) self ≡ err e ∷ replicate n (ok (other 0 []))
  unfolding next_event read_frame frame_ready take_frame
  answers-failed self e room n rest empty next enough =
      rw (first.0) (ap (λ xs. err e ∷ xs) (answers-zeros n room _ enough first.1))
    where
      first :
          ((next_event zstd_decompress self).0 ≡ err e)
          × ((next_event zstd_decompress self).1.pending ≡ replicate room 0)
      first = rw (empty, next) (refl, refl)
