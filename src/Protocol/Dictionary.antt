-- ===== src/Protocol/Dictionary.antt =====
-- rust/src/protocol.rs: `Dictionary`, the compression dictionary that the server sends, and
-- `dictionary_id`, the content hash that it is identified by.
pub mod Hash
pub mod Decode
use manka_shreds_sdk.Common.{
  ℕ, ◌+◌, ◌*◌, ◌/◌, ◌^◌, ◌%◌, List, [], ◌∷◌, ◌++◌, Option, none, some, bit_xor, ltb, ◌==◌,
  if◌then◌else◌, length,
}
use manka_shreds_sdk.Error.{
  Error, Result, ok, err, truncated, handshake, dictionary_too_large, fail_if, ◌>>=◌, ◌>>◌,
}
use manka_shreds_sdk.Bytes.{to_le, slice?, u32_at}

-- `MAX_DICTIONARY_BYTES`, `8 << 20`
abbrev pub max_dictionary_bytes : ℕ
max_dictionary_bytes = 8 * 2 ^ 20

-- `Dictionary`
pub record Dictionary : Type 0 where
  pub id : ℕ
  pub bytes : List ℕ

-- `Dictionary::HEADER_LEN`
abbrev pub header_len : ℕ
header_len = 8

-- `Option::ok_or`
abbrev pub ok_or {ℓ} : {A : Type ℓ} → Option A → Error → Result A
ok_or none e = err e
ok_or (some a) e = ok a

-- `Dictionary::read`
unfoldable pub read : List ℕ → Result Dictionary
read bytes = do
  fail_if (ltb (length bytes) header_len) (truncated "dictionary" header_len (length bytes))
  id ← u32_at bytes 0
  len ← u32_at bytes 4
  fail_if (ltb max_dictionary_bytes len) (handshake (dictionary_too_large len))
  body ←
      ok_or (slice? bytes header_len (header_len + len))
        (truncated "dictionary" (header_len + len) (length bytes))
  ok (record { id = id; bytes = body })

-- `Dictionary::write`; `self.bytes.len() as u32` keeps the low 32 bits.
unfoldable pub write : Dictionary → List ℕ → List ℕ
write self out = out ++ (to_le 4 self.id ++ (to_le 4 (length self.bytes) ++ self.bytes))

-- One round of the loop: `hash ^= byte; hash = hash.wrapping_mul(0x0000_0100_0000_01b3)`
unfoldable pub hash_byte : ℕ → ℕ → ℕ
hash_byte hash byte = bit_xor hash byte * 0x100_0000_01b3 % 2 ^ 64

unfoldable pub hash_bytes : ℕ → List ℕ → ℕ
unfolding hash_byte
hash_bytes hash [] = hash
hash_bytes hash (byte ∷ rest) = hash_bytes (hash_byte hash byte) rest

-- `((hash >> 32) ^ hash) as u32`, with 0 nudged to 1
unfoldable pub fold_hash : ℕ → ℕ
fold_hash hash =
    let folded = bit_xor (hash / 2 ^ 32) hash % 2 ^ 32 in if folded == 0 then 1 else folded

-- `dictionary_id`
unfoldable pub dictionary_id : List ℕ → ℕ
unfolding hash_bytes fold_hash
dictionary_id [] = 0
dictionary_id (byte ∷ rest) = fold_hash (hash_bytes 0xcbf2_9ce4_8422_2325 (byte ∷ rest))
