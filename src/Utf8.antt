-- ===== src/Utf8.antt =====
-- `String::from_utf8_lossy` of the standard library. A `String` is the list of its UTF-8 bytes.
use manka_shreds_sdk.Common.{
  ℕ, zero, suc, List, [], ◌∷◌, ◌++◌, Bool, true, false, ◌&&◌, ltb, leb, ◌==◌, if◌then◌else◌, length,
  take, drop,
}

-- A byte 10xxxxxx
is_continuation : ℕ → Bool
is_continuation b = leb 0x80 b && leb b 0xbf

-- Which second bytes may follow the first byte of a sequence of three, and of four.
second_of_three : ℕ → ℕ → Bool
second_of_three a b =
    if a == 0xe0
    then leb 0xa0 b && leb b 0xbf
    else if a == 0xed
    then leb 0x80 b && leb b 0x9f
    else leb 0x80 b && leb b 0xbf

second_of_four : ℕ → ℕ → Bool
second_of_four a b =
    if a == 0xf0
    then leb 0x90 b && leb b 0xbf
    else if a == 0xf4
    then leb 0x80 b && leb b 0x8f
    else leb 0x80 b && leb b 0xbf

-- The byte of a list at an index, and 0, which continues nothing, behind its end.
next : List ℕ → ℕ
next [] = 0
next (b ∷ bs) = b

-- The first sequence of `first ∷ bytes`: whether it is valid, and how many of `bytes` belong to it.
-- An invalid sequence is as long as the longest start of a valid one.
unfoldable pub first_sequence : ℕ → List ℕ → Bool × ℕ
unfolding is_continuation second_of_three second_of_four next
first_sequence a bytes =
    let b = next bytes in
    let c = next (drop 1 bytes) in
    let d = next (drop 2 bytes) in
    if ltb a 0x80
    then (true, 0)
    else if leb 0xc2 a && leb a 0xdf
    then (if is_continuation b then (true, 1) else (false, 0))
    else if leb 0xe0 a && leb a 0xef
    then (if second_of_three a b
        then (if is_continuation c then (true, 2) else (false, 1))
        else (false, 0))
    else if leb 0xf0 a && leb a 0xf4
    then (if second_of_four a b
        then (if is_continuation c
            then (if is_continuation d then (true, 3) else (false, 2))
            else (false, 1))
        else (false, 0))
    else (false, 0)

-- U+FFFD
abbrev pub replacement : List ℕ
replacement = 0xef ∷ 0xbf ∷ 0xbd ∷ []

-- What a first sequence becomes, and what follows it.
unfoldable pub sequence_text : ℕ → List ℕ → Bool × ℕ → List ℕ
sequence_text a bytes (true, n) = a ∷ take n bytes
sequence_text a bytes (false, n) = replacement

unfoldable pub lossy_fuel : ℕ → List ℕ → List ℕ
unfolding first_sequence sequence_text
lossy_fuel zero bytes = []
lossy_fuel (suc fuel) [] = []
lossy_fuel (suc fuel) (a ∷ bytes) =
    let found = first_sequence a bytes in
    sequence_text a bytes found ++ lossy_fuel fuel (drop found.1 bytes)

-- Each round takes a byte at least, so as many rounds as bytes are enough.
unfoldable pub from_utf8_lossy : List ℕ → List ℕ
unfolding lossy_fuel
from_utf8_lossy bytes = lossy_fuel (length bytes) bytes
