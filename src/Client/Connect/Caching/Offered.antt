-- ===== src/Client/Connect/Caching/Offered.antt =====
-- What one connection was sent, the next one holds.
use mathlib.Core.Path.{subst}
use manka_shreds_sdk.Common.{
  ℕ, ◌+◌, ◌≡◌, refl, sym, ap, ◌∙◌, List, ◌∷◌, Option, none, some, Bool, true, false, ◌==◌,
  if◌then◌else◌,
}
use manka_shreds_sdk.Error.{Result, ok, err, panic}
use manka_shreds_sdk.Handshake.{ChannelBinding}
use manka_shreds_sdk.Protocol.Kinds.{FrameKind}
use manka_shreds_sdk.Protocol.Header.{FrameHeader}
use manka_shreds_sdk.Protocol.HelloAck.{HelloAck}
use manka_shreds_sdk.Protocol.Dictionary.{Dictionary, dictionary_id, max_dictionary_bytes}
use manka_shreds_sdk.Client.Session.{Client}
use manka_shreds_sdk.Client.Config.{Config}
use manka_shreds_sdk.Client.Connect.{
  Link, and_then, send, take_payload, receive, read_challenge, read_hello_ack, read_dictionary,
  keep_held, is_some, settle_dictionary, connected, acknowledge, hello_frame, prove, authenticate,
  connect, max_handshake_bytes, store,
}
use manka_shreds_sdk.Client.Connect.Agreed.{and_then-eq-ok, receive-eq-ok, read_dictionary-eq-ok}

take_payload-stored {ℓ} :
    {A : Type ℓ} (decode : FrameKind → List ℕ → Result A) (answer : Result FrameHeader)
    (link : Link)
    → (take_payload decode answer link).1.stored ≡ link.stored
unfolding take_payload
take_payload-stored decode (ok header) link = refl
take_payload-stored decode (err e) link = refl
take_payload-stored decode panic link = refl

receive-stored {ℓ} :
    {A : Type ℓ} (decode : FrameKind → List ℕ → Result A) (limit : ℕ) (link : Link)
    → (receive decode limit link).1.stored ≡ link.stored
unfolding receive
receive-stored decode limit link = take_payload-stored decode _ _

send-stored : (frame : List ℕ) (link : Link) → (send frame link).1.stored ≡ link.stored
unfolding send
send-stored frame link = refl

and_then-stored {ℓ κ} :
    {A : Type ℓ} {B : Type κ} (m : Result A × Link) (f : A → Link → Result B × Link)
    (held : List Dictionary)
    → m.1.stored ≡ held
    → ((a : A) → (f a m.1).1.stored ≡ held)
    → (and_then m f).1.stored ≡ held
and_then-stored (ok a, link) f held e h = h a
and_then-stored (err r, link) f held e h = e
and_then-stored (panic, link) f held e h = e

-- A dictionary that was sent was handed to the cache under its own id, and nothing else was.
abbrev pub Handed : List Dictionary → List Dictionary → Option (List ℕ) → Bool → Type 0
Handed before after dictionary false = after ≡ before
Handed before after dictionary true =
    (offered : Dictionary) × (after ≡ offered ∷ before)
    × (dictionary ≡ some offered.bytes)
    × (dictionary_id offered.bytes ≡ offered.id)

-- What `settle_dictionary` makes of a dictionary that it has received
abbrev settle_received : Config → Dictionary → Link → Result (Option (List ℕ) × Bool) × Link
settle_received config offered link = (ok (some offered.bytes, true), store config offered link)

received-Handed :
    (config : Config) (m : Result Dictionary × Link) (before : List Dictionary)
    (settled : Option (List ℕ) × Bool)
    → is_some config.dictionary_cache ≡ true
    → m.1.stored ≡ before
    → ((d : Dictionary) → m.0 ≡ ok d → dictionary_id d.bytes ≡ d.id)
    → (and_then m (settle_received config)).0 ≡ ok settled
    → Handed before (and_then m (settle_received config)).1.stored settled.0 settled.1
unfolding store
received-Handed config (ok d, link) before settled caches same named h =
    let whole : (some d.bytes, true) ≡ settled = cc in
    subst (λ s. Handed before (store config d link).stored s.0 s.1) whole
      (d, simp (caches, same), refl, named d refl)
received-Handed config (err e, link) before settled caches same named h = cc
received-Handed config (panic, link) before settled caches same named h = cc

if-Handed :
    (before : List Dictionary) (b : Bool) (x y : Result (Option (List ℕ) × Bool) × Link)
    (settled : Option (List ℕ) × Bool)
    → (x.0 ≡ ok settled → Handed before x.1.stored settled.0 settled.1)
    → (y.0 ≡ ok settled → Handed before y.1.stored settled.0 settled.1)
    → (if b then x else y).0 ≡ ok settled
    → Handed before (if b then x else y).1.stored settled.0 settled.1
if-Handed before true x y settled h k e = h e
if-Handed before false x y settled h k e = k e

nothing-Handed :
    (before : List Dictionary) (dictionary : Option (List ℕ)) (settled : Option (List ℕ) × Bool)
    → Path (Result (Option (List ℕ) × Bool)) (ok (dictionary, false)) (ok settled)
    → Handed before before settled.0 settled.1
nothing-Handed before dictionary settled h =
    let whole : (dictionary, false) ≡ settled = cc in
    subst (λ s. Handed before before s.0 s.1) whole refl

settle_dictionary-Handed :
    (config : Config) (kept : Option (List ℕ)) (id : ℕ) (link : Link)
    (settled : Option (List ℕ) × Bool)
    → is_some config.dictionary_cache ≡ true
    → (settle_dictionary config kept id link).0 ≡ ok settled
    → Handed link.stored (settle_dictionary config kept id link).1.stored settled.0 settled.1
unfolding settle_dictionary
settle_dictionary-Handed config (some bytes) id link settled caches h =
    nothing-Handed link.stored (some bytes) settled h
settle_dictionary-Handed config none id link settled caches h =
    let limit = 8 + max_dictionary_bytes in
    let m = receive (read_dictionary id) limit link in
    let own : (d : Dictionary) → m.0 ≡ ok d → dictionary_id d.bytes ≡ d.id = λ d e.
      let (kind, payload, read) = receive-eq-ok (read_dictionary id) limit link d e in
      let (hash, named) = read_dictionary-eq-ok id kind payload d read in hash ∙ sym named in
    if-Handed link.stored (id == 0) (ok (none, false), link) (and_then m (settle_received config))
      settled (nothing-Handed link.stored none settled)
      (received-Handed config m link.stored settled caches
        (receive-stored (read_dictionary id) limit link) own)
      h

-- Steps that go on are those behind.
and_then-ok {ℓ κ} :
    {A : Type ℓ} {B : Type κ} (m : Result A × Link) (f : A → Link → Result B × Link) (a : A)
    → m.0 ≡ ok a
    → and_then m f ≡ f a m.1
and_then-ok (ok b, link) f a h = let same : b ≡ a = cc in ap (λ x. f x link) same
and_then-ok (err e, link) f a h = cc
and_then-ok (panic, link) f a h = cc

acknowledge-Handed :
    (config : Config) (held : Option (List ℕ)) (link : Link) (client : Client)
    → is_some config.dictionary_cache ≡ true
    → (acknowledge config held link).0 ≡ ok client
    → Handed link.stored
        (acknowledge config held link).1.stored
        client.dictionary
        client.dictionary_was_sent
unfolding acknowledge connected
acknowledge-Handed config held link client caches h =
    let m = receive read_hello_ack max_handshake_bytes link in
    let others : HelloAck → Link → Result Client × Link = λ ack link.
      and_then (settle_dictionary config (keep_held held ack.dictionary_id) ack.dictionary_id link)
        (λ settled link. (ok (connected config ack settled link), link)) in
    let (ack, got, rest) = and_then-eq-ok m others h in
    let n = settle_dictionary config (keep_held held ack.dictionary_id) ack.dictionary_id m.1 in
    let last : Option (List ℕ) × Bool → Link → Result Client × Link =
      λ settled link. (ok (connected config ack settled link), link) in
    let (settled, agreed, done) = and_then-eq-ok n last rest in
    let same : connected config ack settled n.1 ≡ client = cc in
    let handed : Handed m.1.stored n.1.stored settled.0 settled.1 =
      settle_dictionary-Handed config (keep_held held ack.dictionary_id) ack.dictionary_id m.1
        settled caches agreed in
    rw (and_then-ok m others ack got, and_then-ok n last settled agreed)
      (subst (λ (c : Client). Handed link.stored n.1.stored c.dictionary c.dictionary_was_sent) same
        (subst (λ s. Handed s n.1.stored settled.0 settled.1)
          (receive-stored read_hello_ack max_handshake_bytes link) handed))

module _ (sha256 : List ℕ → List ℕ) (hmac : List ℕ → List ℕ → List ℕ) where
  if-stored :
      (before : List Dictionary) (b : Bool) (x y : Result (Unit {0}) × Link)
      → x.1.stored ≡ before
      → y.1.stored ≡ before
      → (if b then x else y).1.stored ≡ before
  if-stored before true x y h k = h
  if-stored before false x y h k = k

  authenticate-stored :
      (config : Config) (client_nonce : List ℕ) (binding : ChannelBinding) (link : Link)
      → (authenticate sha256 hmac config client_nonce binding link).1.stored ≡ link.stored
  unfolding authenticate prove
  authenticate-stored config client_nonce binding link =
      and_then-stored (receive read_challenge max_handshake_bytes link) _ link.stored
        (receive-stored read_challenge max_handshake_bytes link)
        (λ challenge.
          if-stored link.stored _ (send _ _) _
            (receive-stored read_challenge max_handshake_bytes link)
            (receive-stored read_challenge max_handshake_bytes link))

  pub connect-Handed :
      (config : Config) (held : Option (List ℕ)) (client_nonce : List ℕ) (binding : ChannelBinding)
      (link : Link) (client : Client)
      → is_some config.dictionary_cache ≡ true
      → (connect sha256 hmac config held client_nonce binding link).0 ≡ ok client
      → Handed link.stored
          (connect sha256 hmac config held client_nonce binding link).1.stored
          client.dictionary
          client.dictionary_was_sent
  unfolding connect
  connect-Handed config held client_nonce binding link client caches h =
      let m = send (hello_frame sha256 hmac config held client_nonce) link in
      let second : Unit {0} → Link → Result Client × Link =
        λ _ link. acknowledge config held link in
      let first : Unit {0} → Link → Result Client × Link =
        λ _ link. and_then (authenticate sha256 hmac config client_nonce binding link) second in
      let (a, sent, rest) = and_then-eq-ok m first h in
      let n = authenticate sha256 hmac config client_nonce binding m.1 in
      let (b, known, done) = and_then-eq-ok n second rest in
      rw (and_then-ok m first a sent, and_then-ok n second b known)
        (subst
          (λ s.
            Handed s (acknowledge config held n.1).1.stored client.dictionary
              client.dictionary_was_sent)
          (authenticate-stored config client_nonce binding m.1
            ∙ send-stored (hello_frame sha256 hmac config held client_nonce) link)
          (acknowledge-Handed config held n.1 client caches done))
