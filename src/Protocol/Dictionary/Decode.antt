-- ===== src/Protocol/Dictionary/Decode.antt =====
-- `Dictionary::read` on every input, and on what `Dictionary::write` wrote.
use manka_shreds_sdk.Common.{
  ℕ, ◌+◌, ◌-◌, ◌^◌, ◌≤◌, ◌<◌, ◌≡◌, refl, arith, List, [], ◌∷◌, ◌++◌, ltb, if◌then◌else◌, length,
  length-append,
}
use mathlib.Core.List.{append-nil}
use manka_shreds_sdk.Error.{ok, err, truncated, handshake, dictionary_too_large}
use manka_shreds_sdk.Bytes.{slice?, word, window}
use manka_shreds_sdk.Bytes.Reads.{u32_at_lem}
use manka_shreds_sdk.Bytes.Words.{word-append_front, window_here}
use manka_shreds_sdk.Protocol.Dictionary.{Dictionary, read, write, max_dictionary_bytes}

pub read_lem :
    (bytes : List ℕ)
    → read bytes ≡ (
        if ltb (length bytes) 8
        then err (truncated "dictionary" 8 (length bytes))
        else if ltb max_dictionary_bytes (word bytes 4 4)
        then err (handshake (dictionary_too_large (word bytes 4 4)))
        else if ltb (length bytes) (8 + word bytes 4 4)
        then err (truncated "dictionary" (8 + word bytes 4 4) (length bytes))
        else ok (record { id = word bytes 0 4; bytes = window bytes 8 (word bytes 4 4) }))
unfolding read slice?
read_lem bytes = ground (arith, u32_at_lem bytes 0, u32_at_lem bytes 4, span)
  where
    span : 8 + word bytes 4 4 - 8 ≡ word bytes 4 4
    span = omega arith

-- The two numbers at the front of an encoded dictionary, and the body behind them.
write_parts :
    (d : Dictionary) (rest : List ℕ)
    → d.id < 2 ^ 32
    → length d.bytes < 2 ^ 32
    → (word (write d [] ++ rest) 0 4 ≡ d.id)
      × (word (write d [] ++ rest) 4 4 ≡ length d.bytes)
      × (window (write d [] ++ rest) 8 (length d.bytes) ≡ d.bytes)
      × (length (write d [] ++ rest) ≡ 8 + length d.bytes + length rest)
unfolding write word window
write_parts d rest h k = (
  omega arith,
  omega arith,
  window_here d.bytes rest (length d.bytes) refl,
  omega (arith, length-append d.bytes rest),
)

-- A dictionary with an id and a length of 32 bits that `write` encoded is read back, whatever
-- follows it, or is refused for its length if it is longer than the limit.
pub read-write :
    (d : Dictionary) (rest : List ℕ)
    → d.id < 2 ^ 32
    → length d.bytes < 2 ^ 32
    → read (write d [] ++ rest) ≡ (
        if ltb max_dictionary_bytes (length d.bytes)
        then err (handshake (dictionary_too_large (length d.bytes)))
        else ok d)
read-write d rest h k =
    let (id, len, body, total) = write_parts d rest h k in
    rw read_lem (ground (arith, id, len, body, total))

-- An encoded dictionary within the limit that breaks off before its end is reported as
-- truncated, with the bytes at hand and the bytes needed: eight while the header is not whole,
-- then eight more than the dictionary is long.
read-write_truncated :
    (d : Dictionary) (front back : List ℕ) (x : ℕ)
    → d.id < 2 ^ 32
    → length d.bytes ≤ max_dictionary_bytes
    → write d [] ≡ front ++ (x ∷ back)
    → read front
      ≡ err (
          truncated "dictionary"
            (if ltb (length front) 8 then 8 else 8 + length d.bytes)
            (length front))
read-write_truncated d front back x h k e =
    let (id, len, body, total) = rw (append-nil, e) at (write_parts d [] h (omega arith)) in
    rw read_lem (
      ground
        (arith, len, total, length-append front (x ∷ back), word-append_front front (x ∷ back) 4 4))
