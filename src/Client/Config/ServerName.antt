-- ===== src/Client/Config/ServerName.antt =====
-- rust/src/client.rs: the name presented for TLS.
use manka_shreds_sdk.Common.{
  ℕ, ◌≡◌, refl, List, [], ◌∷◌, ◌++◌, none, some, Bool, false, ◌||◌, ◌==◌, ==_iff, if◌then◌else◌,
  All,
}
use manka_shreds_sdk.Handshake.{codes}
use manka_shreds_sdk.Client.Config.{
  before_last, host_of, trim_start, trim_end, is_empty, default_server_name,
}

before_last-none :
    (c : ℕ) (behind : List ℕ) → All (λ b. (b == c) ≡ false) behind → before_last c behind ≡ none
unfolding before_last
before_last-none c [] h = refl
before_last-none c (b ∷ bs) (h, hs) = rw (before_last-none c bs hs) (simp h)

before_last-append :
    (c : ℕ) (front behind : List ℕ)
    → All (λ b. (b == c) ≡ false) behind
    → before_last c (front ++ c ∷ behind) ≡ some front
unfolding before_last
before_last-append c [] behind h = rw (before_last-none c behind h) (simp ((==_iff c c).1 refl))
before_last-append c (b ∷ bs) behind h = rw (before_last-append c bs behind h) refl

trim_end-append : (c : ℕ) (xs : List ℕ) → trim_end c (xs ++ c ∷ []) ≡ trim_end c xs
unfolding trim_end
trim_end-append c [] = simp ((==_iff c c).1 refl)
trim_end-append c (b ∷ bs) = rw (trim_end-append c bs) refl

host_of-append :
    (host port : List ℕ)
    → All (λ b. (b == b':') ≡ false) port
    → host_of (host ++ b':' ∷ port) ≡ host
unfolding host_of
host_of-append host port h = rw (before_last-append b':' host port h) refl

trim_start_none :
    (c d : ℕ) (xs : List ℕ)
    → All (λ b. (b == c) ≡ false) xs
    → (d == c) ≡ false
    → trim_start c (xs ++ d ∷ []) ≡ xs ++ d ∷ []
unfolding trim_start
trim_start_none c d [] h k = simp k
trim_start_none c d (b ∷ bs) (h, hs) k = simp h

trim_start-All : (c : ℕ) (xs : List ℕ) → All (λ b. (b == c) ≡ false) xs → trim_start c xs ≡ xs
unfolding trim_start
trim_start-All c [] h = refl
trim_start-All c (b ∷ bs) (h, hs) = simp h

trim_end-All : (c : ℕ) (xs : List ℕ) → All (λ b. (b == c) ≡ false) xs → trim_end c xs ≡ xs
unfolding trim_end
trim_end-All c [] h = refl
trim_end-All c (b ∷ []) (h, hs) = simp h
trim_end-All c (b ∷ d ∷ bs) (h, hs) = rw (trim_end-All c (d ∷ bs) hs) refl

module _ (is_ip : List ℕ → Bool) where
  -- For an address of a host and a port, the host in brackets or not, where the host holds no
  -- bracket and the port no colon, the name presented is `localhost` if the host is an IP
  -- address or empty, and else the host.
  default_server_name_lem :
      (host port : List ℕ)
      → All (λ b. (b == b'[') ≡ false) host
      → All (λ b. (b == b']') ≡ false) host
      → All (λ b. (b == b':') ≡ false) port
      → let name = if is_ip host || is_empty host then codes "localhost" else host in
        let bracketed : List ℕ = b'[' ∷ host ++ b']' ∷ [] in
        (default_server_name is_ip (host ++ b':' ∷ port) ≡ name)
        × (default_server_name is_ip (bracketed ++ b':' ∷ port) ≡ name)
  unfolding default_server_name
  default_server_name_lem host port opening closing h =
      let bracketed : List ℕ = b'[' ∷ host ++ b']' ∷ [] in
      (
        rw (host_of-append host port h)
            (rw (trim_start-All b'[' host opening) (rw (trim_end-All b']' host closing) refl)),
        named (host_of-append bracketed port h) (trim_start_none b'[' b']' host opening refl),
      )
    where
      named :
          host_of (b'[' ∷ (host ++ b']' ∷ []) ++ b':' ∷ port) ≡ b'[' ∷ host ++ b']' ∷ []
          → trim_start b'[' (b'[' ∷ host ++ b']' ∷ []) ≡ host ++ b']' ∷ []
          → default_server_name is_ip (b'[' ∷ (host ++ b']' ∷ []) ++ b':' ∷ port)
            ≡ (if is_ip host || is_empty host then codes "localhost" else host)
      named e f =
          rw e (rw f (rw (trim_end-append b']' host) (rw (trim_end-All b']' host closing) refl)))
