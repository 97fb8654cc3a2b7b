-- ===== src/Protocol/Dictionary/Hash.antt =====
-- `dictionary_id` is a 32-bit number, and 0 stands for no dictionary only.
use manka_shreds_sdk.Common.{ℕ, ◌<◌, ◌^◌, ◌≡◌, refl, ◌↔◌, arith, List, [], ◌∷◌}
use manka_shreds_sdk.Protocol.Dictionary.{dictionary_id, fold_hash, hash_bytes}

fold_hash_range : (hash : ℕ) → (0 < fold_hash hash) × (fold_hash hash < 2 ^ 32)
unfolding fold_hash
fold_hash_range hash = ground arith

-- The id of every byte string is below 2^32, and is 0 exactly for the empty one.
pub dictionary_id_range :
    (bytes : List ℕ) → (dictionary_id bytes < 2 ^ 32) × ((dictionary_id bytes ≡ 0) ↔ (bytes ≡ []))
unfolding dictionary_id
dictionary_id_range [] = (omega arith, (λ e. refl, λ e. refl))
dictionary_id_range (b ∷ bs) =
    let (positive, bounded) = fold_hash_range (hash_bytes 0xcbf2_9ce4_8422_2325 (b ∷ bs)) in
    (bounded, (λ e. absurd (omega arith), λ e. cc))
