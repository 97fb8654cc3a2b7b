-- ===== src/Client/Connect/Returns.antt =====
-- `connect` returns a client when the server proves itself and acknowledges.
use manka_shreds_sdk.Common.{
  ℕ, ◌+◌, ◌≡◌, ◌≢◌, ◌⊎◌, inl, inr, refl, arith, List, ◌∷◌, Option, none, some, Bool, true, false,
  if◌then◌else◌, ◌==◌,
}
use manka_shreds_sdk.Error.{ok}
use manka_shreds_sdk.Bytes.{word, window}
use manka_shreds_sdk.Handshake.{ChannelBinding, verify_server}
use manka_shreds_sdk.Protocol.Header.Decode.{header_at}
use manka_shreds_sdk.Protocol.Challenge.{Challenge}
use manka_shreds_sdk.Protocol.HelloAck.{HelloAck}
use manka_shreds_sdk.Protocol.Dictionary.{Dictionary, max_dictionary_bytes}
use manka_shreds_sdk.Client.Wire.Framing.{StartsFrame}
use manka_shreds_sdk.Client.Session.{Client}
use manka_shreds_sdk.Client.Config.{Config}
use manka_shreds_sdk.Client.Connect.Carried.{Carries, behind, receive-Carries, send-Carries}
use manka_shreds_sdk.Client.Connect.{
  Link, read_challenge, read_hello_ack, settle_dictionary, keep_held, read_dictionary, store,
  is_some, connected, acknowledge, hello_frame, transcript_of, prove, prove_frame, authenticate,
  connect, max_handshake_bytes,
}

-- No dictionary has to be sent: the server uses none, or the one that is held.
abbrev pub IsSettled : Option (List ℕ) → ℕ → Type 0
IsSettled held id = (id ≡ 0) ⊎ ((bytes : List ℕ) × (keep_held held id ≡ some bytes))

-- The server uses another dictionary than the one held, and sends it.
pub record Sends (held : Option (List ℕ)) (id : ℕ) (stream : List ℕ) : Type 0 where
  pub used : id ≢ 0
  pub missing : keep_held held id ≡ none
  pub offered : Dictionary
  pub third : StartsFrame (8 + max_dictionary_bytes) stream
  pub reads_dictionary :
      read_dictionary id (header_at stream).kind (window stream 16 (word stream 0 4)) ≡ ok offered

-- The dictionary of the connection and whether it was sent, and what is behind it on the stream
abbrev pub settled_as :
    {held : Option (List ℕ)} {id : ℕ} {stream : List ℕ}
    → IsSettled held id ⊎ Sends held id stream
    → Option (List ℕ) × Bool
settled_as (inl (inl e)) = (none, false)
settled_as (inl (inr (bytes, e))) = (some bytes, false)
settled_as (inr s) = (some s.offered.bytes, true)

abbrev pub behind_settled :
    {held : Option (List ℕ)} {id : ℕ} {stream : List ℕ}
    → IsSettled held id ⊎ Sends held id stream
    → List ℕ
behind_settled {stream = stream} (inl h) = stream
behind_settled {stream = stream} (inr s) = behind stream

store-Carries :
    (config : Config) (offered : Dictionary) (link : Link) (stream : List ℕ)
    → Carries link stream
    → Carries (store config offered link) stream
unfolding store
store-Carries config offered link stream c = by_cache (is_some config.dictionary_cache)
  where
    by_cache :
        (b : Bool)
        → Carries (if b then record link { stored = offered ∷ link.stored } else link) stream
    by_cache true = record {
      pieces = c.pieces;
      full = c.full;
      cut = c.cut;
      bytes = c.bytes;
      writes = c.writes;
    }
    by_cache false = c

settle_dictionary-Carries :
    (config : Config) (held : Option (List ℕ)) (id : ℕ) (link : Link) (stream : List ℕ)
    (way : IsSettled held id ⊎ Sends held id stream)
    → Carries link stream
    → (after : Link) × (settle_dictionary config (keep_held held id) id link
        ≡ (ok (settled_as way), after))
      × Carries after (behind_settled way)
unfolding settle_dictionary keep_held
settle_dictionary-Carries config none id link stream (inl (inl e)) c = (link, rw e refl, c)
settle_dictionary-Carries config (some dictionary) id link stream (inl (inl e)) c =
    (link, rw e refl, c)
settle_dictionary-Carries config held id link stream (inl (inr (bytes, e))) c = (link, rw e refl, c)
settle_dictionary-Carries config held id link stream (inr s) c =
    let (after, hears, kept) =
      receive-Carries (read_dictionary id) (8 + max_dictionary_bytes) link stream s.offered c
        s.third s.reads_dictionary in
    let other : (id == 0) ≡ false = ground (arith, s.used) in
    (
      store config s.offered after,
      rw (s.missing, other, hears) refl,
      store-Carries config s.offered after (behind stream) kept,
    )

-- The server's side of a connection in which both prove themselves, seen from this side
pub record Answers (sha256 : List ℕ → List ℕ) (hmac : List ℕ → List ℕ → List ℕ) (config : Config)
    (held : Option (List ℕ)) (client_nonce : List ℕ) (binding : ChannelBinding) (stream : List ℕ)
    : Type 0 where
  pub challenge : Challenge
  pub first : StartsFrame max_handshake_bytes stream
  pub reads_challenge :
      read_challenge (header_at stream).kind (window stream 16 (word stream 0 4)) ≡ ok challenge
  pub proven :
      verify_server hmac
        (transcript_of sha256 hmac config client_nonce binding challenge)
        config.secret
        challenge.proof
      ≡ true
  pub ack : HelloAck
  pub second : StartsFrame max_handshake_bytes (behind stream)
  pub reads_ack :
      read_hello_ack
        (header_at (behind stream)).kind
        (window (behind stream) 16 (word (behind stream) 0 4))
      ≡ ok ack
  pub settled :
      IsSettled held ack.dictionary_id ⊎ Sends held ack.dictionary_id (behind (behind stream))

module _ (sha256 : List ℕ → List ℕ) (hmac : List ℕ → List ℕ → List ℕ) where
  -- If no write fails and the stream, in pieces of which none is empty, starts with a whole
  -- frame within the limit that is read as a challenge whose proof verifies, then one that is
  -- read as an acknowledgement, and, unless the dictionary it names is 0 or the one held, one
  -- that is read as this dictionary: `connect` returns a client that uses the dictionary and
  -- tells whether it was sent, and what it has at hand and has left to read is what is behind
  -- those frames.
  pub connect-returns :
      (config : Config) (held : Option (List ℕ)) (client_nonce : List ℕ) (binding : ChannelBinding)
      (link : Link) (stream : List ℕ)
      → Carries link stream
      → (a : Answers sha256 hmac config held client_nonce binding stream)
      → (client : Client) × (after : Link) × (connect sha256 hmac config held client_nonce binding
            link
          ≡ (ok client, after))
        × Carries after (behind_settled a.settled)
        × (client.pending ≡ after.pending)
        × (client.stream ≡ after.stream)
        × ((client.dictionary, client.dictionary_was_sent) ≡ settled_as a.settled)
  unfolding connect authenticate prove acknowledge connected
  connect-returns config held client_nonce binding link stream c a =
      let (greeted, sends, c1) =
        send-Carries (hello_frame sha256 hmac config held client_nonce) link stream c in
      let (challenged, hears, c2) =
        receive-Carries read_challenge max_handshake_bytes greeted stream a.challenge c1 a.first
          a.reads_challenge in
      let transcript = transcript_of sha256 hmac config client_nonce binding a.challenge in
      let (proved, proves, c3) =
        send-Carries (prove_frame sha256 hmac config transcript) challenged (behind stream) c2 in
      let (acked, learns, c4) =
        receive-Carries read_hello_ack max_handshake_bytes proved (behind stream) a.ack c3 a.second
          a.reads_ack in
      let (left, settles, c5) =
        settle_dictionary-Carries config held a.ack.dictionary_id acked (behind (behind stream))
          a.settled c4 in
      (
        connected config a.ack (settled_as a.settled) left,
        left,
        rw (sends, hears, a.proven, proves, learns, settles) refl,
        c5,
        refl,
        refl,
        refl,
      )
