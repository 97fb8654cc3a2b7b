-- ===== src/Events/LookupsComplete/Completed.antt =====
-- `LookupsComplete` on every input: what `read` accepts, `completed` lists in full.
use manka_shreds_sdk.Common.{
  ℕ, suc, ◌+◌, ◌-◌, ◌*◌, ◌/◌, ◌%◌, ◌≤◌, ◌<◌, ◌≡◌, refl, ap, ◌∙◌, arith, List, [], ◌∷◌, ◌++◌, ◌==◌,
  map, ltb, if◌then◌else◌, length, take, drop, take_all, take-append-take, drop-drop, All,
}
use manka_shreds_sdk.Common.Bits.{bit_and-one, bit_and-pow}
use manka_shreds_sdk.Error.{ok, err, truncated}
use manka_shreds_sdk.Bytes.{word, window, byte}
use manka_shreds_sdk.Bytes.Reads.{
  byte_at_lem, array_at_lem, slice_lem, u16_at_lem, u32_at_lem, u64_at_lem, length-window,
}
use manka_shreds_sdk.Protocol.Codes.{verification_from_byte}
use manka_shreds_sdk.Events.LookupsComplete.{
  LookupsComplete, next_multiple_of_8, read, completed, completed_from,
}

-- The number of completed accounts, and where their keys begin.
abbrev pub count_at : List ℕ → ℕ
count_at bytes = word bytes 90 2

abbrev pub keys_at : List ℕ → ℕ
keys_at bytes = 96 + next_multiple_of_8 (count_at bytes)

abbrev pub lookups_complete_at : List ℕ → LookupsComplete
lookups_complete_at bytes = record {
  slot = word bytes 0 8;
  rx_ts_ns = word bytes 8 8;
  entry_index = word bytes 16 4;
  tx_index = word bytes 20 4;
  signature = window bytes 24 64;
  verification = verification_from_byte (byte bytes 88);
  still_partial = byte bytes 89 % 2 == 1;
  tentative = byte bytes 89 / 2 % 2 == 1;
  positions = window bytes 96 (count_at bytes);
  keys = window bytes (keys_at bytes) (count_at bytes * 32);
}

-- The padded length is a multiple of eight, and is less than eight longer.
next_multiple_of_8_lem :
    (len : ℕ)
    → (len ≤ next_multiple_of_8 len)
      × (next_multiple_of_8 len < len + 8)
      × (next_multiple_of_8 len % 8 ≡ 0)
unfolding next_multiple_of_8
next_multiple_of_8_lem len = omega arith

pub read_lem :
    (bytes : List ℕ)
    → read bytes ≡ (
        if ltb (length bytes) 96
        then err (truncated "lookups complete" 96 (length bytes))
        else if ltb (length bytes) (keys_at bytes + count_at bytes * 32)
        then err (truncated "lookups complete" (keys_at bytes + count_at bytes * 32) (length bytes))
        else ok (lookups_complete_at bytes))
unfolding read
read_lem bytes = ground (
  arith,
  u16_at_lem bytes 90,
  u64_at_lem bytes 0,
  u64_at_lem bytes 8,
  u32_at_lem bytes 16,
  u32_at_lem bytes 20,
  array_at_lem 64 bytes 24,
  byte_at_lem bytes 88,
  byte_at_lem bytes 89,
  bit_and-one (byte bytes 89),
  bit_and-pow 1 (byte bytes 89),
  next_multiple_of_8_lem (count_at bytes),
  slice_lem bytes 96 (96 + count_at bytes),
  slice_lem bytes (keys_at bytes) (keys_at bytes + count_at bytes * 32),
  span,
  key_span,
)
  where
    span : 96 + count_at bytes - 96 ≡ count_at bytes
    span = omega arith

    key_span : keys_at bytes + count_at bytes * 32 - keys_at bytes ≡ count_at bytes * 32
    key_span = omega arith

-- The keys of a list of items, one after the other.
abbrev pub key_bytes : List (ℕ × List ℕ) → List ℕ
key_bytes [] = []
key_bytes ((position, key) ∷ items) = key ++ key_bytes items

abbrev pub Lists : List ℕ → List ℕ → List (ℕ × List ℕ) → Type 0
Lists positions keys items =
    (map (λ (item : ℕ × List ℕ). item.0) items ≡ positions)
    × (key_bytes items ≡ keys)
    × All (λ (item : ℕ × List ℕ). length item.1 ≡ 32) items

join_step :
    (keys : List ℕ) (n k : ℕ)
    → window keys (n * 32) 32 ++ take (k * 32) (drop ((n + 1) * 32) keys)
      ≡ take (suc k * 32) (drop (n * 32) keys)
unfolding window
join_step keys n k =
    rw (next, ← drop-drop)
      (take-append-take 32 (k * 32) (drop (n * 32) keys)
        ∙ ap (λ m. take m (drop (n * 32) keys)) (omega arith))
  where
    next : (n + 1) * 32 ≡ n * 32 + 32
    next = omega arith

completed_from_lem :
    (keys : List ℕ) (n : ℕ) (positions : List ℕ)
    → (n + length positions) * 32 ≤ length keys
    → (items : List (ℕ × List ℕ)) × (completed_from keys n positions ≡ ok items)
      × Lists positions (take (length positions * 32) (drop (n * 32) keys)) items
unfolding completed_from
completed_from_lem keys n [] h = ([], refl, (refl, refl, tt))
completed_from_lem keys n (p ∷ ps) h =
    let (items, found, (places, joined, widths)) =
      completed_from_lem keys (n + 1) ps (omega arith) in
    (
      (p, window keys (n * 32) 32) ∷ items,
      rw (array_at_lem 32 keys (n * 32) (omega arith), found) refl,
      (
        ap (λ t. p ∷ t) places,
        ap (λ t. window keys (n * 32) 32 ++ t) joined ∙ join_step keys n (length ps),
        (omega (arith, length-window keys (n * 32) 32), widths),
      ),
    )

-- `completed` lists every position with its own 32 bytes of the keys, without a panic.
completed_lem :
    (m : LookupsComplete)
    → length m.keys ≡ length m.positions * 32
    → (items : List (ℕ × List ℕ)) × (completed m ≡ ok items) × Lists m.positions m.keys items
unfolding completed
completed_lem m h =
    let (items, found, (places, joined, widths)) =
      completed_from_lem m.keys 0 m.positions (omega arith) in
    (
      items,
      found,
      (places, joined ∙ take_all (length m.positions * 32) m.keys (omega arith), widths),
    )

accepted :
    (bytes : List ℕ) (m : LookupsComplete)
    → read bytes ≡ ok m
    → (keys_at bytes + count_at bytes * 32 ≤ length bytes) × (m ≡ lookups_complete_at bytes)
accepted bytes m h = ground (arith, read_lem bytes)

-- If `read` accepts a frame, `completed` lists items whose positions are, in order, the frame's
-- positions, whose keys have 32 bytes each and are together the frame's keys.
completed-read :
    (bytes : List ℕ) (m : LookupsComplete)
    → read bytes ≡ ok m
    → (items : List (ℕ × List ℕ)) × (completed m ≡ ok items)
      × Lists
          (window bytes 96 (count_at bytes))
          (window bytes (keys_at bytes) (count_at bytes * 32))
          items
completed-read bytes m h =
    let (inside, same) = accepted bytes m h in
    let m' = lookups_complete_at bytes in
    let (items, found, lists) = completed_lem m' (
      omega (
        arith,
        next_multiple_of_8_lem (count_at bytes),
        length-window bytes 96 (count_at bytes),
        length-window bytes (keys_at bytes) (count_at bytes * 32),
      )) in
    (items, ap completed same ∙ found, lists)
