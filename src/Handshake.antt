-- ===== src/Handshake.antt =====
-- rust/src/handshake.rs: proving possession of the key without sending it.
-- SHA-256 and HMAC-SHA-256 are those of the crates `sha2` and `hmac`: parameters here, from byte
-- strings to byte strings. A text literal stands for its bytes.
pub mod Proofs
use manka_shreds_sdk.Common.{
  ℕ, zero, suc, ◌+◌, ◌-◌, ◌*◌, ◌/◌, ◌%◌, List, [], ◌∷◌, ◌++◌, Bool, true, false, ◌&&◌, ltb, ◌==◌,
  if◌then◌else◌, take, replicate,
}
use Prim.Native.Char.{code}
use Prim.Native.String
use Prim.Native.String.{String}

-- The bytes of an ASCII text
abbrev pub codes : String → List ℕ
codes String.[] = []
codes (String.◌∷◌ c s) = code c ∷ codes s

-- `REF_DOMAIN`
abbrev pub ref_domain : List ℕ
ref_domain = codes "manka-shreds/key-ref/v1"

-- `SERVER_DOMAIN`
abbrev pub server_domain : List ℕ
server_domain = codes "manka-shreds/server-proof/v1"

-- `CLIENT_DOMAIN`
abbrev pub client_domain : List ℕ
client_domain = codes "manka-shreds/client-proof/v1"

-- `KeyRef`, 32 bytes
pub record KeyRef : Type 0 where
  pub bytes : List ℕ

-- `Proof`, 32 bytes
pub record Proof : Type 0 where
  pub bytes : List ℕ

-- `ChannelBinding`, 32 bytes
pub record ChannelBinding : Type 0 where
  pub bytes : List ℕ

-- `ChannelBinding::NONE`
abbrev pub unbound : ChannelBinding
unbound = record { bytes = replicate 32 0 }

-- Equality of byte strings, as `==` on arrays decides it.
unfoldable pub same_bytes : List ℕ → List ℕ → Bool
same_bytes [] [] = true
same_bytes [] (y ∷ ys) = false
same_bytes (x ∷ xs) [] = false
same_bytes (x ∷ xs) (y ∷ ys) = (x == y) && same_bytes xs ys

-- `ChannelBinding::is_none`
unfoldable pub is_none : ChannelBinding → Bool
is_none self = same_bytes self.bytes (replicate 32 0)

-- `Transcript`
pub record Transcript : Type 0 where
  pub key_ref : KeyRef
  pub client_nonce : List ℕ
  pub server_nonce : List ℕ
  pub binding : ChannelBinding

-- A digit of `{byte:02x}`
unfoldable pub hex_digit : ℕ → ℕ
hex_digit d = if ltb d 10 then b'0' + d else b'a' + (d - 10)

-- `KeyRef::to_hex`, two lowercase digits for each byte
unfoldable pub hex : List ℕ → List ℕ
unfolding hex_digit
hex [] = []
hex (b ∷ bs) = hex_digit (b / 16) ∷ hex_digit (b % 16) ∷ hex bs

unfoldable pub to_hex : KeyRef → List ℕ
unfolding hex
to_hex self = hex self.bytes

-- `KeyRef::short`
unfoldable pub short : KeyRef → List ℕ
unfolding to_hex
short self = take 16 (to_hex self)

-- `Debug` and `Display` of `KeyRef`
unfoldable pub debug : KeyRef → List ℕ
unfolding short
debug self = codes "KeyRef(" ++ short self ++ codes ")"

unfoldable pub display : KeyRef → List ℕ
unfolding short
display self = short self

module _ (sha256 : List ℕ → List ℕ) where
  -- `KeyRef::of`
  unfoldable pub key_ref_of : List ℕ → KeyRef
  key_ref_of key = record { bytes = sha256 (ref_domain ++ key) }

  -- `ChannelBinding::of_certificate`
  unfoldable pub of_certificate : List ℕ → ChannelBinding
  of_certificate der = record { bytes = sha256 der }

-- What `Transcript::proof` feeds to the code, in order
unfoldable pub message : Transcript → List ℕ → List ℕ
message self domain =
    domain
    ++ (self.key_ref.bytes ++ (self.client_nonce ++ (self.server_nonce ++ self.binding.bytes)))

module _ (hmac : List ℕ → List ℕ → List ℕ) where
  -- `Transcript::proof`
  unfoldable pub proof : Transcript → List ℕ → List ℕ → Proof
  proof self key domain = record { bytes = hmac key (message self domain) }

  -- `Transcript::server_proof`
  unfoldable pub server_proof : Transcript → List ℕ → Proof
  unfolding proof
  server_proof self key = proof self key server_domain

  -- `Transcript::client_proof`
  unfoldable pub client_proof : Transcript → List ℕ → Proof
  unfolding proof
  client_proof self key = proof self key client_domain

  -- `Transcript::verify_server`
  unfoldable pub verify_server : Transcript → List ℕ → Proof → Bool
  unfolding server_proof
  verify_server self key presented = same_bytes (server_proof self key).bytes presented.bytes
