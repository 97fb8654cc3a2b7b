-- ===== src/Transport/Reading/Arrivals.antt =====
-- What one call of `Wire::read_buf` does to the buffer, for both transports, against the reads of
-- `read_frame`.
use manka_shreds_sdk.Common.{
  replicate, ℕ, ◌+◌, ◌-◌, ◌*◌, ◌≤◌, ◌≡◌, refl, sym, arith, List, ◌++◌, length, take, take-append,
  length-append,
}
use mathlib.Core.List.{append-nil}
use manka_shreds_sdk.Error.{Result, ok, err}
use manka_shreds_sdk.Transport.{Carrier, tcp_stream, quic_streams}
use manka_shreds_sdk.Transport.Reading.{
  Answer, arrived, finished, broken, Buffer, read_tcp, read_into, overwrite, grown, filled,
  read_buf, arrival,
}
use manka_shreds_sdk.Client.Wire.{Arrival, received, failed}

-- The bytes that a read leaves behind those at hand, and what it answers.
abbrev pub left_behind : Arrival → List ℕ
left_behind (received xs) = xs
left_behind (failed e room) = replicate room 0

abbrev pub answered : Arrival → Result ℕ
answered (received xs) = ok (length xs)
answered (failed e room) = err e

-- The bytes up to the end of what was written over.
take-overwrite :
    (bytes xs more : List ℕ)
    → take (length bytes + length xs) (overwrite (length bytes) xs (bytes ++ more)) ≡ bytes ++ xs
unfolding overwrite
take-overwrite bytes xs more =
    rw (take-append bytes more, sym (length-append bytes xs)) (take-append (bytes ++ xs) _)

module _ (reserve : ℕ → ℕ → ℕ → ℕ) where
  -- The room that is made for a read.
  pub grown-room :
      (buf : Buffer)
      → ((capacity at more : ℕ) → at + more ≤ reserve capacity at more)
      → 16 * 1024 ≤ grown reserve buf - length buf.bytes
  unfolding grown
  grown-room buf roomy = ground (arith, roomy buf.capacity (length buf.bytes) (64 * 1024))

  -- If `Vec::reserve` makes the room it is asked for, a read over QUIC has room for 16 KiB or
  -- more, and over either transport a read answers and leaves in the buffer what the loop of
  -- `read_frame` takes it for: the bytes that arrived behind those at hand and their number,
  -- or after a failure the error and, over QUIC, zeros in all the room that was made.
  pub read_buf-arrival :
      (carrier : Carrier) (answer : Answer) (buf : Buffer)
      → ((capacity at more : ℕ) → at + more ≤ reserve capacity at more)
      → (16 * 1024 ≤ grown reserve buf - length buf.bytes)
        × ((read_buf reserve carrier answer buf).0 ≡ answered (arrival reserve carrier answer buf))
        × ((read_buf reserve carrier answer buf).1.bytes
            ≡ buf.bytes ++ left_behind (arrival reserve carrier answer buf))
  unfolding filled read_buf arrival read_tcp read_into
  read_buf-arrival carrier answer buf roomy =
      (grown-room buf roomy, (outcome carrier answer).0, (outcome carrier answer).1)
    where
      outcome :
          (c : Carrier) (a : Answer)
          → ((read_buf reserve c a buf).0 ≡ answered (arrival reserve c a buf))
            × ((read_buf reserve c a buf).1.bytes
                ≡ buf.bytes ++ left_behind (arrival reserve c a buf))
      outcome tcp_stream (arrived xs) = (refl, refl)
      outcome tcp_stream finished = (refl, sym (append-nil buf.bytes))
      outcome tcp_stream broken = (refl, sym (append-nil buf.bytes))
      outcome (quic_streams chain) (arrived xs) = (refl, take-overwrite buf.bytes xs _)
      outcome (quic_streams chain) finished =
          (refl, rw (append-nil buf.bytes) (take-append buf.bytes _))
      outcome (quic_streams chain) broken = (refl, refl)
