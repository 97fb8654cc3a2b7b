-- ===== src/Client/Connect/Agreed.antt =====
-- What both sides have agreed on once `connect` returns a client.
use mathlib.Core.Path.{subst}
use manka_shreds_sdk.Common.{
  ℕ, ◌+◌, ◌≡◌, ◌≢◌, ◌⊎◌, inl, inr, refl, arith, List, Option, none, some, Bool, true, false, not,
  ◌&&◌, ◌==◌, ==_iff, if◌then◌else◌,
}
use manka_shreds_sdk.Error.{
  Result, ok, err, panic, handshake, dictionary_mismatch, fail_if, ◌>>=◌, ◌>>◌,
}
use manka_shreds_sdk.Handshake.{ChannelBinding}
use manka_shreds_sdk.Protocol.Codes.{Codec, zstd}
use manka_shreds_sdk.Protocol.Kinds
use manka_shreds_sdk.Protocol.Kinds.{FrameKind}
use manka_shreds_sdk.Protocol.Header.{FrameHeader}
use manka_shreds_sdk.Protocol.HelloAck
use manka_shreds_sdk.Protocol.HelloAck.{HelloAck}
use manka_shreds_sdk.Protocol.ErrorMessage
use manka_shreds_sdk.Protocol.Dictionary
use manka_shreds_sdk.Protocol.Dictionary.{Dictionary, dictionary_id, max_dictionary_bytes}
use manka_shreds_sdk.Client.Session.{Client}
use manka_shreds_sdk.Client.Config.{Config}
use manka_shreds_sdk.Client.Connect.{
  Link, and_then, send, take_payload, receive, server_error, check_ack, read_hello_ack,
  settle_dictionary, read_dictionary, keep_held, acknowledge, authenticate, max_handshake_bytes,
  hello_frame, connect, connected,
}

-- The two parts of steps that returned
pub and_then-eq-ok {ℓ κ} :
    {A : Type ℓ} {B : Type κ} (m : Result A × Link) (f : A → Link → Result B × Link) {b : B}
    → (and_then m f).0 ≡ ok b
    → (a : A) × (m.0 ≡ ok a) × ((f a m.1).0 ≡ ok b)
and_then-eq-ok (ok a, link) f h = (a, refl, h)
and_then-eq-ok (err e, link) f h = cc
and_then-eq-ok (panic, link) f h = cc

-- The value with which a decoding that returned went on
decoded {ℓ κ} :
    {A : Type ℓ} {B : Type κ} (m : Result A) (f : A → Result B) (b : B)
    → (m >>= f) ≡ ok b
    → (a : A) × (f a ≡ ok b)
decoded panic f b h = cc
decoded (err e) f b h = cc
decoded (ok a) f b h = (a, h)

take_payload-eq-ok {ℓ} :
    {A : Type ℓ} (decode : FrameKind → List ℕ → Result A) (answer : Result FrameHeader)
    (link : Link) (a : A)
    → (take_payload decode answer link).0 ≡ ok a
    → (kind : FrameKind) × (payload : List ℕ) × (decode kind payload ≡ ok a)
unfolding take_payload
take_payload-eq-ok decode (ok header) link a h =
    let (payload, read) = decoded _ (decode header.kind) a h in (header.kind, payload, read)
take_payload-eq-ok decode (err e) link a h = cc
take_payload-eq-ok decode panic link a h = cc

pub receive-eq-ok {ℓ} :
    {A : Type ℓ} (decode : FrameKind → List ℕ → Result A) (limit : ℕ) (link : Link) (a : A)
    → (receive decode limit link).0 ≡ ok a
    → (kind : FrameKind) × (payload : List ℕ) × (decode kind payload ≡ ok a)
unfolding receive
receive-eq-ok decode limit link a h = take_payload-eq-ok decode _ _ a h

server_error-ne-ok {ℓ} : {A : Type ℓ} (payload : List ℕ) (a : A) → server_error payload ≢ ok a
unfolding server_error
server_error-ne-ok payload a h = let (e, q) = decoded (ErrorMessage.read payload) _ a h in cc

check_ack-eq-ok :
    (ack checked : HelloAck) (codec : Codec)
    → check_ack ack codec ≡ ok checked
    → (checked ≡ ack) × (codec ≡ zstd) × (ack.protocol_version ≡ 1)
unfolding check_ack
check_ack-eq-ok ack checked codec h = ground arith

read_hello_ack-eq-ok :
    (kind : FrameKind) (payload : List ℕ) (ack : HelloAck)
    → read_hello_ack kind payload ≡ ok ack
    → (ack.codec ≡ zstd) × (ack.protocol_version ≡ 1)
unfolding read_hello_ack
read_hello_ack-eq-ok Kinds.hello_ack payload ack h =
    let (got, q) = decoded (HelloAck.read payload) (λ got. check_ack got got.codec) ack h in
    let (same, codec, version) = check_ack-eq-ok got ack got.codec q in rw same (codec, version)
read_hello_ack-eq-ok Kinds.error payload ack h = absurd (server_error-ne-ok payload ack h)
read_hello_ack-eq-ok _ payload ack h = cc

pub read_dictionary-eq-ok :
    (id : ℕ) (kind : FrameKind) (payload : List ℕ) (d : Dictionary)
    → read_dictionary id kind payload ≡ ok d
    → (dictionary_id d.bytes ≡ id) × (d.id ≡ id)
unfolding read_dictionary
read_dictionary-eq-ok id Kinds.dictionary payload d h =
    let (offered, q) = decoded (Dictionary.read payload) _ d h in named offered q
  where
    named :
        (offered : Dictionary)
        → (fail_if
              (not ((offered.id == id) && (dictionary_id offered.bytes == id)))
              (handshake (dictionary_mismatch id offered.id (dictionary_id offered.bytes)))
            >> ok offered)
          ≡ ok d
        → (dictionary_id d.bytes ≡ id) × (d.id ≡ id)
    named offered q = (ground arith, ground arith)
read_dictionary-eq-ok id Kinds.error payload d h = absurd (server_error-ne-ok payload d h)
read_dictionary-eq-ok id _ payload d h = cc

-- No dictionary where none was announced, and otherwise one whose bytes hash to the id announced.
abbrev pub Agrees : ℕ → Option (List ℕ) → Type 0
Agrees id dictionary =
    ((id ≡ 0) × (dictionary ≡ none))
    ⊎ ((id ≢ 0) × ((bytes : List ℕ) × (dictionary ≡ some bytes) × (dictionary_id bytes ≡ id)))

if-eq-ok {ℓ} :
    {A : Type ℓ} (b : Bool) (x y : Result A × Link) (a : A)
    → (if b then x else y).0 ≡ ok a
    → ((b ≡ true) × (x.0 ≡ ok a)) ⊎ ((b ≡ false) × (y.0 ≡ ok a))
if-eq-ok true x y a h = inl (refl, h)
if-eq-ok false x y a h = inr (refl, h)

keep_held-eq-some :
    (held : Option (List ℕ)) (id : ℕ) (bytes : List ℕ)
    → keep_held held id ≡ some bytes
    → (id ≢ 0) × (dictionary_id bytes ≡ id)
unfolding keep_held
keep_held-eq-some none id bytes h = cc
keep_held-eq-some (some dictionary) id bytes h = ground arith

settle_dictionary-Agrees :
    (config : Config) (kept : Option (List ℕ)) (id : ℕ) (link : Link)
    (settled : Option (List ℕ) × Bool)
    → ((bytes : List ℕ) → kept ≡ some bytes → (id ≢ 0) × (dictionary_id bytes ≡ id))
    → (settle_dictionary config kept id link).0 ≡ ok settled
    → Agrees id settled.0
unfolding settle_dictionary
settle_dictionary-Agrees config (some bytes) id link settled keeps h =
    let (nonzero, hash) = keeps bytes refl in inr (nonzero, (bytes, cc, hash))
settle_dictionary-Agrees config none id link settled keeps h =
    elim (if-eq-ok (id == 0) (ok (none, false), link) _ settled h) [
      | inl (e, q) ↦ inl ((==_iff id 0).0 e, cc)
      | inr (e, q) ↦
          let (offered, got, q2) =
            and_then-eq-ok (receive (read_dictionary id) (8 + max_dictionary_bytes) link) _ q in
          let (kind, payload, read) = receive-eq-ok (read_dictionary id) _ link offered got in
          inr (
            (λ z. ground arith),
            (offered.bytes, cc, (read_dictionary-eq-ok id kind payload offered read).0),
          )
    ]

acknowledge-eq-ok :
    (config : Config) (held : Option (List ℕ)) (link : Link) (client : Client)
    → (acknowledge config held link).0 ≡ ok client
    → (client.ack.codec ≡ zstd)
      × (client.ack.protocol_version ≡ 1)
      × Agrees client.ack.dictionary_id client.dictionary
unfolding acknowledge connected
acknowledge-eq-ok config held link client h =
    let (ack, got, rest) = and_then-eq-ok (receive read_hello_ack max_handshake_bytes link) _ h in
    let after = (receive read_hello_ack max_handshake_bytes link).1 in
    let (settled, agreed, done) =
      and_then-eq-ok
        (settle_dictionary config (keep_held held ack.dictionary_id) ack.dictionary_id after)
        (λ settled link. (ok (connected config ack settled link), link)) rest in
    let (kind, payload, read) = receive-eq-ok read_hello_ack max_handshake_bytes link ack got in
    let (codec, version) = read_hello_ack-eq-ok kind payload ack read in
    let agree : Agrees ack.dictionary_id settled.0 =
      settle_dictionary-Agrees config _ ack.dictionary_id after settled
        (keep_held-eq-some held ack.dictionary_id) agreed in
    let last =
      (settle_dictionary config (keep_held held ack.dictionary_id) ack.dictionary_id after).1 in
    let same : connected config ack settled last ≡ client = cc in
    subst
      (λ (c : Client).
        (c.ack.codec ≡ zstd)
        × (c.ack.protocol_version ≡ 1)
        × Agrees c.ack.dictionary_id c.dictionary)
      same (codec, version, agree)

module _ (sha256 : List ℕ → List ℕ) (hmac : List ℕ → List ℕ → List ℕ) where
  -- If `connect` returns a client, its acknowledgement has the codec zstd and the version 1,
  -- and its dictionary is none if the acknowledgement names none, and else bytes whose id is
  -- the one that it names.
  pub connect-Agrees :
      (config : Config) (held : Option (List ℕ)) (client_nonce : List ℕ) (binding : ChannelBinding)
      (link : Link) (client : Client)
      → (connect sha256 hmac config held client_nonce binding link).0 ≡ ok client
      → (client.ack.codec ≡ zstd)
        × (client.ack.protocol_version ≡ 1)
        × Agrees client.ack.dictionary_id client.dictionary
  unfolding connect
  connect-Agrees config held client_nonce binding link client h =
      let (a, sent, rest) =
        and_then-eq-ok (send (hello_frame sha256 hmac config held client_nonce) link) _ h in
      let after = (send (hello_frame sha256 hmac config held client_nonce) link).1 in
      let (b, known, last) =
        and_then-eq-ok (authenticate sha256 hmac config client_nonce binding after) _ rest in
      acknowledge-eq-ok config held (authenticate sha256 hmac config client_nonce binding after).1
        client last
