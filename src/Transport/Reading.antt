-- ===== src/Transport/Reading.antt =====
-- rust/src/transport.rs: `Wire::read_buf` and `Wire::write_all`. What tokio and quinn answer to one call
-- is an argument.
pub mod Arrivals
use manka_shreds_sdk.Common.{
  replicate, ℕ, ◌+◌, ◌-◌, ◌*◌, ◌≤◌, ◌<◌, ◌≡◌, refl, ap, arith, List, ◌++◌, Option, none, some, Bool,
  true, false, ltb, not, Bool, if◌then◌else◌, length, take, drop, [], ◌∷◌,
}
use native.Mathlib.Decide.{dec_lt}
use manka_shreds_sdk.Error.{Error, Result, ok, err, io, fail_if, handshake, transport_failed}
use manka_shreds_sdk.Transport.{Carrier, tcp_stream, quic_streams}
use manka_shreds_sdk.Client.Wire.{Arrival, received, failed}

-- What the stream underneath answers to one read: bytes, that it has ended, or a failure.
pub data Answer : Type 0 where
  arrived : List ℕ → Answer
  finished : Answer
  broken : Answer

-- A `Vec<u8>`: its bytes, and how many it has room for.
pub record Buffer : Type 0 where
  pub bytes : List ℕ
  pub capacity : ℕ

-- `buf[at..at + xs.len()].copy_from_slice(xs)`, which is what a read into `buf[at..]` does
unfoldable pub overwrite : ℕ → List ℕ → List ℕ → List ℕ
overwrite at xs bytes = take at bytes ++ xs ++ drop (at + length xs) bytes

-- The read into `buf[at..]`, and what follows it
unfoldable pub read_into : ℕ → Answer → Buffer → Result ℕ × Buffer
unfolding overwrite
read_into at (arrived xs) buf =
    (ok (length xs), record buf { bytes = take (at + length xs) (overwrite at xs buf.bytes) })
read_into at finished buf = (ok 0, record buf { bytes = take at buf.bytes })
read_into at broken buf = (err (handshake transport_failed), buf)

-- `stream.read_buf(buf)` of tokio, which leaves the buffer alone when it fails
unfoldable pub read_tcp : Answer → Buffer → Result ℕ × Buffer
read_tcp (arrived xs) buf = (ok (length xs), record buf { bytes = buf.bytes ++ xs })
read_tcp finished buf = (ok 0, buf)
read_tcp broken buf = (err io, buf)

-- How a failure of the stream underneath is reported
unfoldable pub write_error : Carrier → Error
write_error tcp_stream = io
write_error (quic_streams chain) = handshake transport_failed

-- `Wire::write_all`, given whether the stream underneath has taken the bytes
unfoldable pub write_all : Carrier → Bool → Result (Unit {0})
unfolding write_error
write_all carrier taken = fail_if (not taken) (write_error carrier)

-- `Vec::reserve`: the capacity that a buffer of this capacity and length gets for so many more bytes.
module _ (reserve : ℕ → ℕ → ℕ → ℕ) where
  -- The capacity once there is room for a read
  unfoldable pub grown : Buffer → ℕ
  grown buf =
      if ltb (buf.capacity - length buf.bytes) (16 * 1024)
      then reserve buf.capacity (length buf.bytes) (64 * 1024)
      else buf.capacity

  -- `buf.resize(buf.capacity(), 0)`
  unfoldable pub filled : Buffer → Buffer
  unfolding grown
  filled buf = record {
    bytes = buf.bytes ++ replicate (grown buf - length buf.bytes) 0;
    capacity = grown buf;
  }

  -- `Wire::read_buf`
  unfoldable pub read_buf : Carrier → Answer → Buffer → Result ℕ × Buffer
  unfolding read_tcp filled read_into
  read_buf tcp_stream answer buf = read_tcp answer buf
  read_buf (quic_streams chain) answer buf = read_into (length buf.bytes) answer (filled buf)

  -- What `Wire::read_buf` has done to the buffer while it awaits the stream underneath, and all that it
  -- has done where it is dropped there. The read of tokio does nothing until it is ready.
  unfoldable pub interrupted : Carrier → Buffer → Buffer
  unfolding filled
  interrupted tcp_stream buf = buf
  interrupted (quic_streams chain) buf = filled buf

  -- Not code of its own: the loop of `read_frame` takes its reads in this form, and Arrivals states that
  -- `read_buf` has it.
  unfoldable pub arrival : Carrier → Answer → Buffer → Arrival
  unfolding grown
  arrival carrier (arrived xs) buf = received xs
  arrival carrier finished buf = received []
  arrival tcp_stream broken buf = failed io 0
  arrival (quic_streams chain) broken buf =
      failed (handshake transport_failed) (grown buf - length buf.bytes)
