-- ===== src/Error.antt =====
-- rust/src/error.rs: everything that can go wrong, and the result of a fallible operation.
use manka_shreds_sdk.Common.{Option, none, some, Bool, true, false, ℕ, ◌≡◌, ◌≢◌, refl, List, String}
use manka_shreds_sdk.Protocol.Codes.{ErrorCode, Codec}
use manka_shreds_sdk.Protocol.Kinds.{FrameKind}

-- The text of `Error::Handshake`, one constructor for each place that builds one, with the values
-- that are formatted into the message.
pub data Reason : Type 0 where
  dictionary_too_large : ℕ → Reason
  frame_over_limit : FrameKind → ℕ → ℕ → Reason
  expected_challenge : FrameKind → Reason
  expected_hello_ack : FrameKind → Reason
  expected_dictionary : ℕ → FrameKind → Reason
  dictionary_mismatch : ℕ → ℕ → ℕ → Reason
  dictionary_mid_stream : Reason
  server_unproven : Reason
  fingerprint_length : ℕ → Reason
  fingerprint_not_hex : Reason
  timed_out : Reason
  transport_failed : Reason
  no_address : List ℕ → Reason

-- `Error`. The text that a library puts in `Io` and `Decompress` is not kept.
pub data Error : Type 0 where
  io : Error
  server : ErrorCode → List ℕ → Error
  truncated : String → ℕ → ℕ → Error
  frame_too_large : ℕ → Error
  bad_offset : String → ℕ → Error
  version : ℕ → ℕ → Error
  handshake : Reason → Error
  compression_required : Codec → Error
  decompress : Error
  closed : Error

-- `Result<T>`, and a third outcome: `panic` is what an index out of range or a failed `expect` does.
pub data Result {ℓ} (A : Type ℓ) : Type ℓ where
  ok : A → Result A
  err : Error → Result A
  panic : Result A

infixl 5 ◌>>=◌ ◌>>◌
abbrev pub ◌>>=◌ {ℓ κ} : {A : Type ℓ} {B : Type κ} → Result A → (A → Result B) → Result B
panic >>= f = panic
err e >>= f = err e
ok a >>= f = f a

abbrev pub ◌>>◌ {ℓ} : {B : Type ℓ} → Result (Unit {0}) → Result B → Result B
m >> k = m >>= λ _. k

-- `if test { return Err(e); }`
abbrev pub fail_if : Bool → Error → Result (Unit {0})
fail_if true e = err e
fail_if false e = ok tt

-- `test.then(|| …)` with a body that may panic
abbrev pub then_read {ℓ} : {A : Type ℓ} → Bool → Result A → Result (Option A)
then_read true r = do a ← r; ok (some a)
then_read false r = ok none

-- A bind panics only where one of its parts does.
pub >>=-ne-panic {ℓ κ} :
    {A : Type ℓ} {B : Type κ} (m : Result A) (f : A → Result B)
    → m ≢ panic
    → ((a : A) → m ≡ ok a → f a ≢ panic)
    → (m >>= f) ≢ panic
>>=-ne-panic (ok a) f h k = k a refl
>>=-ne-panic (err e) f h k = λ p. cc
>>=-ne-panic panic f h k = absurd (h refl)
