-- ===== src/Transport/Pinning.antt =====
-- What `PinnedServer::new` makes of a fingerprint, and which certificates it then accepts.
use manka_shreds_sdk.Common.{
  Bool-cases, inl, inr, ℕ, zero, suc, ◌+◌, ◌*◌, ◌/◌, ◌%◌, ◌≤◌, ◌<◌, ◌≡◌, ◌↔◌, refl, sym, ap, ◌∙◌,
  arith, List, [], ◌∷◌, Option, none, some, true, not, ◌==◌, if◌then◌else◌, length, drop, get_elem?,
  drop-drop, length-drop, All,
}
use native.Mathlib.Decide.{dec_lt}
use manka_shreds_sdk.Error.{
  Result, ok, err, panic, handshake, fingerprint_length, fingerprint_not_hex, fail_if, ◌>>=◌, ◌>>◌,
}
use manka_shreds_sdk.Bytes.{window, IsByte}
use manka_shreds_sdk.Handshake.{hex, hex_digit, same_bytes}
use manka_shreds_sdk.Handshake.Proofs.{same_bytes-eq, same_bytes_refl}
use manka_shreds_sdk.Radix.{from_str_radix}
use manka_shreds_sdk.Radix.Digits.{to_digit-hex_digit, from_str_radix-pair}
use manka_shreds_sdk.Transport.{
  PinnedServer, is_kept, clean, is_char_boundary, str_pair, or_not_hex, parse_pairs, new, accepted,
  verify_server_cert, fingerprint_of, compare_with,
}

abbrev IsAscii : ℕ → Type 0
IsAscii c = c < 128

-- The bytes that pairs of digits spell, read off from the front: a reference for the loop by index.
unfoldable push_byte : Option ℕ → Option (List ℕ) → Option (List ℕ)
push_byte none bytes = none
push_byte (some b) none = none
push_byte (some b) (some bytes) = some (b ∷ bytes)

unfoldable pub spelled : List ℕ → Option (List ℕ)
unfolding push_byte
spelled [] = some []
spelled (c ∷ []) = none
spelled (c ∷ d ∷ cs) = push_byte (from_str_radix 256 (c ∷ d ∷ [])) (spelled cs)

abbrev pub or_refused : Option (List ℕ) → Result (List ℕ)
or_refused none = err (handshake fingerprint_not_hex)
or_refused (some bytes) = ok bytes

get_elem?-All :
    (text : List ℕ) (i : ℕ) → All IsAscii text → (c : ℕ) → get_elem? text i ≡ some c → c < 128
get_elem?-All [] i h c e = cc
get_elem?-All (b ∷ text) zero h c e = ground arith
get_elem?-All (b ∷ text) (suc i) h c e = get_elem?-All text i h.1 c e

get_elem?-some : (text : List ℕ) (i : ℕ) → i < length text → (c : ℕ) × (get_elem? text i ≡ some c)
get_elem?-some [] i h = absurd (omega arith)
get_elem?-some (c ∷ text) zero h = (c, refl)
get_elem?-some (c ∷ text) (suc i) h = get_elem?-some text i (omega arith)

-- Every index of an ASCII text is the boundary of a character.
boundary :
    (text : List ℕ) (i : ℕ) → All IsAscii text → i ≤ length text → is_char_boundary text i ≡ true
unfolding is_char_boundary
boundary text i h k = elim (dec_lt i (length text)) [
  | yes inside ↦
      let (c, e) = get_elem?-some text i inside in ground (arith, get_elem?-All text i h c)
  | no outside ↦ ground arith
]

str_pair_lem :
    (text : List ℕ) (at c d : ℕ) (cs : List ℕ)
    → All IsAscii text
    → at ≤ length text
    → drop at text ≡ c ∷ d ∷ cs
    → str_pair text at ≡ ok (c ∷ d ∷ [])
unfolding str_pair window
str_pair_lem text at c d cs h k e =
    rw
      (
        boundary text at h k,
        boundary text (at + 2) h (omega (arith, length-drop at text, ap length e)),
        e,
      )
      refl

drop_next :
    (text : List ℕ) (at c d : ℕ) (cs : List ℕ) → drop at text ≡ c ∷ d ∷ cs → drop (at + 2) text ≡ cs
drop_next text at c d cs e = sym (drop-drop at 2 text) ∙ ap (drop 2) e

step :
    (byte : Option ℕ) (bytes : Option (List ℕ))
    → (or_not_hex byte >>= (λ b. or_refused bytes >>= (λ rest. ok (b ∷ rest))))
      ≡ or_refused (push_byte byte bytes)
unfolding or_not_hex push_byte
step none bytes = refl
step (some b) none = refl
step (some b) (some bytes) = refl

parse_pairs-spelled :
    (text : List ℕ) (index rounds : ℕ) (back : List ℕ)
    → All IsAscii text
    → index * 2 ≤ length text
    → drop (index * 2) text ≡ back
    → length back ≡ rounds * 2
    → parse_pairs text index rounds ≡ or_refused (spelled back)
unfolding parse_pairs spelled
parse_pairs-spelled text index zero [] h k e l = refl
parse_pairs-spelled text index zero (c ∷ back) h k e l = absurd (omega arith)
parse_pairs-spelled text index (suc rounds) [] h k e l = absurd (omega arith)
parse_pairs-spelled text index (suc rounds) (c ∷ []) h k e l = absurd (omega arith)
parse_pairs-spelled text index (suc rounds) (c ∷ d ∷ back) h k e l =
    let next : (index + 1) * 2 ≡ index * 2 + 2 = omega arith in
    let ih : parse_pairs text (index + 1) rounds ≡ or_refused (spelled back) =
      parse_pairs-spelled text (index + 1) rounds back h
        (omega (arith, length-drop (index * 2) text, ap length e))
        (rw next (drop_next text (index * 2) c d back e)) (omega arith) in
    rw (str_pair_lem text (index * 2) c d back h k e, ih)
      (step (from_str_radix 256 (c ∷ d ∷ [])) (spelled back))

-- For a fingerprint of which no more than ASCII is left without colons, spaces and dashes,
-- `PinnedServer::new` gives what reading the rest two characters at a time gives, an error if a
-- pair is no hexadecimal number of 8 bits, and an error if the rest is not of 64 bytes.
pub new_lem :
    (text : List ℕ)
    → All IsAscii (clean text)
    → new text ≡ (
        if length (clean text) == 64
        then or_refused (spelled (clean text)) >>= (λ bytes. ok (record { expected = some bytes }))
        else err (handshake (fingerprint_length (length (clean text)))))
unfolding new
new_lem text h = elim (Bool-cases (length (clean text) == 64)) [
  | inl e ↦
      simp
        (e, parse_pairs-spelled (clean text) 0 32 (clean text) h (omega arith) refl (ground arith))
  | inr e ↦ simp e
]

hex_kept : (d : ℕ) → d < 16 → is_kept (hex_digit d) ≡ true
unfolding is_kept hex_digit
hex_kept d h = ground arith

hex_ascii : (d : ℕ) → d < 16 → hex_digit d < 128
unfolding hex_digit
hex_ascii d h = ground arith

-- What `hex` writes is kept, is ASCII, is twice as long, and spells the bytes.
hex_parts :
    (bytes : List ℕ)
    → All IsByte bytes
    → (clean (hex bytes) ≡ hex bytes)
      × All IsAscii (hex bytes)
      × (length (hex bytes) ≡ length bytes * 2)
      × (spelled (hex bytes) ≡ some bytes)
unfolding clean hex spelled push_byte
hex_parts [] h = (refl, tt, refl, refl)
hex_parts (b ∷ bytes) (small, h) =
    let (kept, ascii, size, spells) = hex_parts bytes h in
    let high : b / 16 < 16 = omega arith in
    let low : b % 16 < 16 = omega arith in
    let pair : from_str_radix 256 (hex_digit (b / 16) ∷ hex_digit (b % 16) ∷ []) ≡ some b =
      from_str_radix-pair _ _ _ _ (to_digit-hex_digit (b / 16) high)
        (to_digit-hex_digit (b % 16) low)
      ∙ ap some (omega arith) in
    (
      simp (hex_kept (b / 16) high, hex_kept (b % 16) low, kept),
      (hex_ascii (b / 16) high, (hex_ascii (b % 16) low, ascii)),
      omega (arith, size),
      simp (pair, spells),
    )

compare_with-eq-accepted :
    (actual expected : List ℕ)
    → compare_with actual (some expected) ≡ accepted
    → same_bytes actual expected ≡ true
unfolding compare_with
compare_with-eq-accepted actual expected h = ground arith

module _ (sha256 : List ℕ → List ℕ) where
  -- A pinned fingerprint that, but for colons, spaces and dashes, is the one that
  -- `fingerprint_of` gives for a certificate is accepted, and the verifier made of it accepts
  -- exactly the certificates with the same SHA-256.
  pub new-fingerprint_of :
      (der text : List ℕ)
      → length (sha256 der) ≡ 32
      → All IsByte (sha256 der)
      → clean text ≡ fingerprint_of sha256 der
      → (server : PinnedServer) × (new text ≡ ok server)
        × ((other : List ℕ)
            → (verify_server_cert sha256 server other ≡ accepted) ↔ (sha256 other ≡ sha256 der))
  unfolding fingerprint_of verify_server_cert compare_with
  new-fingerprint_of der text size bytes e =
      let (kept, ascii, long, spells) = hex_parts (sha256 der) bytes in
      let plain : All IsAscii (clean text) = rw e ascii in
      (
        record { expected = some (sha256 der) },
        new_lem text plain ∙ simp (e, long, size, spells),
        λ other. (
          λ h. same_bytes-eq _ _ (compare_with-eq-accepted _ _ h),
          λ h. simp (h, same_bytes_refl (sha256 der)),
        ),
      )

str_pair-eq-panic :
    (text : List ℕ) (b : ℕ)
    → length text ≡ 64
    → get_elem? text 2 ≡ some b
    → 128 ≤ b
    → b < 192
    → str_pair text 0 ≡ panic
unfolding str_pair is_char_boundary
str_pair-eq-panic text b size e low high = ground arith

parse_pairs-eq-panic :
    (text : List ℕ) (rounds : ℕ) → str_pair text 0 ≡ panic → parse_pairs text 0 (suc rounds) ≡ panic
unfolding parse_pairs
parse_pairs-eq-panic text rounds h = simp h

new_steps :
    (text : List ℕ)
    → new text ≡ (
        fail_if
          (not (length (clean text) == 64))
          (handshake (fingerprint_length (length (clean text))))
        >> (parse_pairs (clean text) 0 32
            >>= (λ expected. ok (record { expected = some expected }))))
unfolding new
new_steps text = refl

-- `PinnedServer::new` panics on a text whose rest without colons, spaces and dashes has 64
-- bytes, of which the third does not start a character.
pub new-eq-panic :
    (text : List ℕ) (b : ℕ)
    → length (clean text) ≡ 64
    → get_elem? (clean text) 2 ≡ some b
    → 128 ≤ b
    → b < 192
    → new text ≡ panic
new-eq-panic text b size e low high =
    new_steps text
    ∙ simp (
      size,
      parse_pairs-eq-panic (clean text) 31 (str_pair-eq-panic (clean text) b size e low high),
    )
