-- ===== src/Client/Connect/Proven.antt =====
-- What a connection sends before the server has proven itself, and what an open one guarantees.
use manka_shreds_sdk.Common.{
  ℕ, ◌+◌, ◌≡◌, ◌⊎◌, inl, inr, refl, sym, ap, ◌∙◌, arith, List, ◌∷◌, ◌++◌, Option, none, some, Bool,
  true, false, ◌==◌, if◌then◌else◌,
}
use manka_shreds_sdk.Error.{Result, ok, err, panic}
use manka_shreds_sdk.Handshake.{ChannelBinding}
use manka_shreds_sdk.Protocol.Kinds.{FrameKind}
use manka_shreds_sdk.Protocol.Header.{FrameHeader}
use manka_shreds_sdk.Protocol.Challenge.{Challenge}
use manka_shreds_sdk.Protocol.Dictionary.{Dictionary, max_dictionary_bytes}
use manka_shreds_sdk.Client.Wire.{write_all}
use manka_shreds_sdk.Client.Config.{Config}
use manka_shreds_sdk.Client.Connect.{
  is_some, Link, and_then, send, take_payload, receive, read_challenge, read_hello_ack,
  settle_dictionary, read_dictionary, keep_held, store, hello_frame, transcript_of, prove_frame,
  prove, authenticate, acknowledge, max_handshake_bytes, connect,
}
use manka_shreds_sdk.Client.Connect.Authenticated.{IsProven, receive-send}

-- What holds of the link after the first step where that fails, and after the second, holds of both.
and_then-link {ℓ κ} :
    {A : Type ℓ} {B : Type κ} (P : Link → Type 0) (m : Result A × Link)
    (f : A → Link → Result B × Link)
    → P m.1
    → ((a : A) → m.0 ≡ ok a → P (f a m.1).1)
    → P (and_then m f).1
and_then-link P (ok a, link) f h k = k a refl
and_then-link P (err e, link) f h k = h
and_then-link P (panic, link) f h k = h

take_payload-sent {ℓ} :
    {A : Type ℓ} (decode : FrameKind → List ℕ → Result A) (answer : Result FrameHeader)
    (link : Link)
    → (take_payload decode answer link).1.stream.sent ≡ link.stream.sent
unfolding take_payload
take_payload-sent decode (ok header) link = refl
take_payload-sent decode (err e) link = refl
take_payload-sent decode panic link = refl

receive-sent {ℓ} :
    {A : Type ℓ} (decode : FrameKind → List ℕ → Result A) (limit : ℕ) (link : Link)
    → (receive decode limit link).1.stream.sent ≡ link.stream.sent
unfolding receive
receive-sent decode limit link = take_payload-sent decode _ _

send-sent :
    (frame : List ℕ) (link : Link)
    → ((send frame link).1.stream.sent ≡ link.stream.sent)
      ⊎ ((send frame link).1.stream.sent ≡ link.stream.sent ++ frame)
unfolding send write_all
send-sent frame link = ground arith

if-link {ℓ} :
    {A : Type ℓ} (P : Link → Type 0) (b : Bool) (x y : Result A × Link)
    → (b ≡ true → P x.1)
    → P y.1
    → P (if b then x else y).1
if-link P true x y h k = h refl
if-link P false x y h k = k

-- A write that succeeds has appended the whole frame.
send-eq-ok :
    (frame : List ℕ) (link : Link)
    → (send frame link).0 ≡ ok tt
    → (send frame link).1.stream.sent ≡ link.stream.sent ++ frame
unfolding send write_all
send-eq-ok frame link e = ground arith

settle_dictionary-sent :
    (config : Config) (held : Option (List ℕ)) (id : ℕ) (link : Link)
    → (settle_dictionary config held id link).1.stream.sent ≡ link.stream.sent
unfolding settle_dictionary store
settle_dictionary-sent config (some dictionary) id link = refl
settle_dictionary-sent config none id link =
    if-link (λ l. l.stream.sent ≡ link.stream.sent) (id == 0) (ok (none, false), link) _ (λ e. refl)
      (and_then-link (λ l. l.stream.sent ≡ link.stream.sent)
        (receive (read_dictionary id) (8 + max_dictionary_bytes) link) _
        (receive-sent (read_dictionary id) (8 + max_dictionary_bytes) link)
        (λ offered e. if-sent (is_some config.dictionary_cache) offered _ (receive-sent _ _ link)))
  where
    if-sent :
        (b : Bool) (offered : Dictionary) (after : Link)
        → after.stream.sent ≡ link.stream.sent
        → (if b then record after { stored = offered ∷ after.stored } else after).stream.sent
          ≡ link.stream.sent
    if-sent true offered after h = h
    if-sent false offered after h = h

acknowledge-sent :
    (config : Config) (held : Option (List ℕ)) (link : Link)
    → (acknowledge config held link).1.stream.sent ≡ link.stream.sent
unfolding acknowledge
acknowledge-sent config held link =
    and_then-link (λ l. l.stream.sent ≡ link.stream.sent)
      (receive read_hello_ack max_handshake_bytes link) _
      (receive-sent read_hello_ack max_handshake_bytes link)
      (λ ack e.
        let after = (receive read_hello_ack max_handshake_bytes link).1 in
        let settled =
          settle_dictionary config (keep_held held ack.dictionary_id) ack.dictionary_id after in
        let kept : settled.1.stream.sent ≡ link.stream.sent =
          settle_dictionary-sent config (keep_held held ack.dictionary_id) ack.dictionary_id after
          ∙ receive-sent read_hello_ack max_handshake_bytes link in
        and_then-link (λ l. l.stream.sent ≡ link.stream.sent) settled _ kept (λ s e. kept))

module _ (sha256 : List ℕ → List ℕ) (hmac : List ℕ → List ℕ → List ℕ) where
  module _ (config : Config) (held : Option (List ℕ)) (client_nonce : List ℕ)
      (binding : ChannelBinding) where
    -- Nothing, the greeting, or the greeting and a proof over the challenge that the link carries, where
    -- the server's proof in it was verified.
    abbrev pub SentSafely : Link → List ℕ → Type 0
    SentSafely link sent =
        (sent ≡ link.stream.sent)
        ⊎ ((sent ≡ link.stream.sent ++ hello_frame sha256 hmac config held client_nonce)
            ⊎ ((challenge : Challenge) × IsProven sha256 hmac config client_nonce binding link
                  challenge
                × (sent
                    ≡ link.stream.sent
                      ++ hello_frame sha256 hmac config held client_nonce
                      ++ prove_frame sha256 hmac config
                          (transcript_of sha256 hmac config client_nonce binding challenge))))

    proven :
        (before : Link) (challenge : Challenge) (link : Link)
        → (receive read_challenge max_handshake_bytes before).0 ≡ ok challenge
        → link.stream.sent ≡ before.stream.sent ++ hello_frame sha256 hmac config held client_nonce
        → SentSafely before
            (prove sha256 hmac config
              (transcript_of sha256 hmac config client_nonce binding challenge)
              challenge
              link).1.stream.sent
    unfolding prove
    proven before challenge link read h =
        if-link (λ l. SentSafely before l.stream.sent) _ _ _
          (λ verified. elim (send-sent _ link) [
            | inl e ↦ inr (inl (e ∙ h))
            | inr e ↦ inr (
                inr (
                  challenge,
                  (read, verified),
                  e
                      ∙ ap
                          (λ x.
                            x
                            ++ prove_frame sha256 hmac config
                                (transcript_of sha256 hmac config client_nonce binding challenge))
                          h,
                ))
          ])
          (inr (inl h))

    authenticated :
        (link : Link)
        → (send (hello_frame sha256 hmac config held client_nonce) link).0 ≡ ok tt
        → SentSafely link
            (authenticate sha256 hmac config client_nonce binding
              (send (hello_frame sha256 hmac config held client_nonce) link).1).1.stream.sent
    unfolding authenticate
    authenticated link greeted =
        let hello = hello_frame sha256 hmac config held client_nonce in
        let after = (send hello link).1 in
        let h =
          receive-sent read_challenge max_handshake_bytes after ∙ send-eq-ok hello link greeted in
        and_then-link (λ l. SentSafely link l.stream.sent)
          (receive read_challenge max_handshake_bytes after) _ (inr (inl h))
          (λ challenge e.
            proven link challenge _
              (sym (receive-send read_challenge max_handshake_bytes hello link) ∙ e) h)

    -- Whatever the server sends, and whether or not `connect` succeeds, what it has sent at
    -- its end is nothing, the greeting alone, or the greeting and the client's proof, the
    -- last only over the challenge that the stream carried, and only if the proof in this
    -- challenge was verified.
    pub connect-SentSafely :
        (link : Link)
        → SentSafely link (connect sha256 hmac config held client_nonce binding link).1.stream.sent
    unfolding connect
    connect-SentSafely link =
        let hello = hello_frame sha256 hmac config held client_nonce in
        and_then-link (λ l. SentSafely link l.stream.sent) (send hello link) _
          (elim (send-sent hello link) [ inl e ↦ inl e | inr e ↦ inr (inl e) ])
          (λ a e.
            let safe = authenticated link e in
            and_then-link (λ l. SentSafely link l.stream.sent)
              (authenticate sha256 hmac config client_nonce binding (send hello link).1) _ safe
              (λ b e. rw (acknowledge-sent config held _) safe))
