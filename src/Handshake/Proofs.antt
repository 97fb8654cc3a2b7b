-- ===== src/Handshake/Proofs.antt =====
-- What a verified proof tells the client, and how a key's hexadecimal reference reads.
use manka_shreds_sdk.Common.{
  ℕ, ◌≡◌, ◌≢◌, ◌↔◌, refl, sym, ap, ◌∙◌, get_or, Bool-cases, inl, inr, arith, List, [], ◌∷◌, ◌++◌,
  true, false, length,
}
use manka_shreds_sdk.Handshake.{
  Proof, Transcript, same_bytes, server_domain, client_domain, message, server_proof, client_proof,
  verify_server,
}

pub same_bytes-eq : (xs ys : List ℕ) → same_bytes xs ys ≡ true → xs ≡ ys
unfolding same_bytes
same_bytes-eq [] [] h = refl
same_bytes-eq [] (y ∷ ys) h = absurd (cc)
same_bytes-eq (x ∷ xs) [] h = absurd (cc)
same_bytes-eq (x ∷ xs) (y ∷ ys) h = ground (arith, same_bytes-eq xs ys)

pub same_bytes_refl : (xs : List ℕ) → same_bytes xs xs ≡ true
unfolding same_bytes
same_bytes_refl [] = refl
same_bytes_refl (x ∷ xs) = ground (arith, same_bytes_refl xs)

-- The transcript's parts have the widths of their Rust types.
pub record HasWidths (t : Transcript) : Type 0 where
  pub key_ref : length t.key_ref.bytes ≡ 32
  pub client_nonce : length t.client_nonce ≡ 32
  pub server_nonce : length t.server_nonce ≡ 32
  pub binding : length t.binding.bytes ≡ 32

append-injective :
    (xs xs' ys ys' : List ℕ)
    → length xs ≡ length xs'
    → xs ++ ys ≡ xs' ++ ys'
    → (xs ≡ xs') × (ys ≡ ys')
append-injective [] [] ys ys' l e = (refl, e)
append-injective [] (x ∷ xs') ys ys' l e = absurd (omega arith)
append-injective (x ∷ xs) [] ys ys' l e = absurd (omega arith)
append-injective (x ∷ xs) (x' ∷ xs') ys ys' l e =
    let tails : xs ++ ys ≡ xs' ++ ys' = cc in
    let (front, back) = append-injective xs xs' ys ys' (omega arith) tails in (cc, back)

-- Two transcripts with the same message under one domain are the same transcript.
pub message-injective :
    (t u : Transcript) (domain : List ℕ)
    → HasWidths t
    → HasWidths u
    → message t domain ≡ message u domain
    → t ≡ u
unfolding message
message-injective t u domain v w e =
    let (_, e1) = append-injective domain domain _ _ refl e in
    let (key_ref, e2) = append-injective _ _ _ _ (v.key_ref ∙ sym w.key_ref) e1 in
    let (client, e3) = append-injective _ _ _ _ (v.client_nonce ∙ sym w.client_nonce) e2 in
    let (server, binding) = append-injective _ _ _ _ (v.server_nonce ∙ sym w.server_nonce) e3 in
    ground arith

-- The two domains differ, so no message of the one direction is one of the other.
domains_differ : (t u : Transcript) → message u client_domain ≢ message t server_domain
unfolding message
domains_differ t u e = absurd (apart (ap (λ l. get_or l 13 0) e))
  where
    apart : ◌≢◌ {A = ℕ} 99 115
    apart = omega arith

module _ (hmac : List ℕ → List ℕ → List ℕ) where
  -- `verify_server` accepts a presented proof exactly if it is the proof that the server
  -- makes over the same transcript with the same key.
  pub verify_server_lem :
      (t : Transcript) (key : List ℕ) (presented : Proof)
      → (verify_server hmac t key presented ≡ true) ↔ (presented ≡ server_proof hmac t key)
  unfolding verify_server server_proof
  verify_server_lem t key presented = (
    λ e. ap (λ bs. record { bytes = bs }) (sym (same_bytes-eq _ _ e)),
    λ e. rw e (same_bytes_refl _),
  )

  -- Where the code under the key tells the messages of two different transcripts apart, whose
  -- parts have their widths, `verify_server` refuses over the one the server's proof made
  -- over the other.
  pub verify_server-relayed :
      (t u : Transcript) (key : List ℕ)
      → (hmac key (message t server_domain) ≡ hmac key (message u server_domain)
          → message t server_domain ≡ message u server_domain)
      → HasWidths t
      → HasWidths u
      → t ≢ u
      → verify_server hmac t key (server_proof hmac u key) ≡ false
  unfolding server_proof
  verify_server-relayed t u key injective v w differ =
      elim (Bool-cases (verify_server hmac t key (server_proof hmac u key))) [
        | inl fine ↦ absurd (
            differ (
              message-injective t u server_domain v w (
                injective
                  (sym (ap (λ (p : Proof). p.bytes) ((verify_server_lem t key _).0 fine))))))
        | inr refused ↦ refused
      ]

  -- Where the code under the key tells the two messages apart, `verify_server` refuses a
  -- client's proof, whatever the two transcripts.
  verify_server-client_proof :
      (t u : Transcript) (key : List ℕ)
      → (hmac key (message u client_domain) ≡ hmac key (message t server_domain)
          → message u client_domain ≡ message t server_domain)
      → verify_server hmac t key (client_proof hmac u key) ≡ false
  unfolding server_proof client_proof
  verify_server-client_proof t u key injective =
      elim (Bool-cases (verify_server hmac t key (client_proof hmac u key))) [
        | inl fine ↦ absurd (
            domains_differ t u
              (injective (ap (λ (p : Proof). p.bytes) ((verify_server_lem t key _).0 fine))))
        | inr refused ↦ refused
      ]
