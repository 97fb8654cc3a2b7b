-- ===== src/Protocol/Hello/Layout.antt =====
-- The greeting on the wire: where each part lies, and that no two greetings look alike.
use manka_shreds_sdk.Common.{
  ℕ, ◌+◌, ◌-◌, ◌^◌, ◌≤◌, ◌<◌, ◌≡◌, refl, sym, ap, ◌∙◌, arith, List, [], ◌∷◌, ◌++◌, Option, none,
  some, length, take, drop, take_all,
}
use native.Mathlib.Nat.{add_comm}
use native.Mathlib.Numerals.{towards_suc}
use manka_shreds_sdk.Bytes.{from_le, to_le, word, window, byte}
use manka_shreds_sdk.Bytes.Words.{window_behind, drop_behind, window_here}
use manka_shreds_sdk.Protocol.Hello.{Hello, filter_bytes, write}

-- The filter document, empty if there is none.
abbrev pub document : Option (List ℕ) → List ℕ
document none = []
document (some f) = f

-- The fields have the widths of their Rust types.
pub record IsEncodable (h : Hello) : Type 0 where
  pub streams : h.streams.bits < 2 ^ 32
  pub codecs : h.codecs < 2 ^ 8
  pub capabilities : h.capabilities.bits < 2 ^ 8
  pub key_ref : length h.key_ref.bytes ≡ 32
  pub client_nonce : length h.client_nonce ≡ 32
  pub dictionary_id : h.dictionary_id < 2 ^ 32
  pub filter : length (document h.filter) < 2 ^ 32

-- A receiver that reads the greeting by fixed offsets: the trailing filter is there when bytes are.
abbrev filter_at : List ℕ → Option (List ℕ)
filter_at [] = none
filter_at (b ∷ bs) = some (window (b ∷ bs) 4 (word (b ∷ bs) 0 4))

pub parse : List ℕ → Hello
parse bytes = record {
  streams = record { bits = word bytes 2 4 };
  codecs = byte bytes 6;
  capabilities = record { bits = byte bytes 7 };
  key_ref = record { bytes = window bytes 8 32 };
  client_nonce = window bytes 40 32;
  dictionary_id = word bytes 72 4;
  filter = filter_at (drop 76 bytes);
}

filter_at_lem :
    (f : Option (List ℕ)) → length (document f) < 2 ^ 32 → filter_at (filter_bytes f) ≡ f
unfolding filter_bytes word window
filter_at_lem none h = refl
filter_at_lem (some f) h =
    ap some (ap (λ n. take n f) declared ∙ take_all (length f) f (omega arith))
  where
    declared : word (to_le 4 (length f) ++ f) 0 4 ≡ length f
    declared = omega arith

-- What stands behind the reference of an encoded greeting, and behind its nonce.
abbrev behind_nonce : Hello → List ℕ
behind_nonce h = to_le 4 h.dictionary_id ++ filter_bytes h.filter

abbrev behind_key : Hello → List ℕ
behind_key h = h.client_nonce ++ behind_nonce h

module _ (h : Hello) (v : IsEncodable h) where
  key_ref_at : window (write h []) 8 32 ≡ h.key_ref.bytes
  unfolding write window
  key_ref_at = window_here h.key_ref.bytes (behind_key h) 32 (sym v.key_ref)

  client_nonce_at : window (write h []) 40 32 ≡ h.client_nonce
  unfolding write window
  client_nonce_at =
      window_behind 32 h.key_ref.bytes (behind_key h) v.key_ref 32 32 (omega arith)
      ∙ window_here h.client_nonce (behind_nonce h) 32 (sym v.client_nonce)

  behind_at : (at : ℕ) → 64 ≤ at → drop (8 + at) (write h []) ≡ drop (at - 32 - 32) (behind_nonce h)
  unfolding write
  behind_at at k =
      skip at
      ∙ drop_behind 32 h.key_ref.bytes (behind_key h) v.key_ref at (omega arith)
      ∙ drop_behind 32 h.client_nonce (behind_nonce h) v.client_nonce (at - 32) (omega arith)
    where
      skip : (n : ℕ) → drop (8 + n) (write h []) ≡ drop n (h.key_ref.bytes ++ behind_key h)
      skip n = simp (add_comm 8 n, towards_suc)

  dictionary_id_at : word (write h []) 72 4 ≡ h.dictionary_id
  unfolding word window
  dictionary_id_at =
      ap (λ bs. from_le (take 4 bs)) (behind_at 64 (omega arith)) ∙ omega (arith, v.dictionary_id)

  -- A greeting whose fields have the widths of their types is read back, the optional filter
  -- included, by a receiver that reads it by fixed offsets.
  pub parse-write : parse (write h []) ≡ h
  unfolding parse
  parse-write = ground (
    arith,
    front,
    key_ref_at,
    client_nonce_at,
    dictionary_id_at,
    ap filter_at (behind_at 68 (omega arith)) ∙ filter_at_lem h.filter v.filter,
  )
    where
      front :
          (word (write h []) 2 4 ≡ h.streams.bits)
          × (byte (write h []) 6 ≡ h.codecs)
          × (byte (write h []) 7 ≡ h.capabilities.bits)
      front = unfold write word window byte in (omega (arith, v.streams), refl, refl)
