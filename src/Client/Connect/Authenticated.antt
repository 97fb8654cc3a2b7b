-- ===== src/Client/Connect/Authenticated.antt =====
-- Once `connect` returns a client, the server has proven that it holds the key.
use manka_shreds_sdk.Common.{
  ℕ, ◌≡◌, refl, sym, ◌∙◌, arith, List, Option, Bool, true, false, if◌then◌else◌,
}
use manka_shreds_sdk.Error.{Error, Result, ok, err, panic}
use manka_shreds_sdk.Handshake.{ChannelBinding, verify_server}
use manka_shreds_sdk.Protocol.Kinds.{FrameKind}
use manka_shreds_sdk.Protocol.Header.{FrameHeader}
use manka_shreds_sdk.Client.Wire.{write_all}
use manka_shreds_sdk.Protocol.Challenge.{Challenge}
use manka_shreds_sdk.Client.Session.{Client}
use manka_shreds_sdk.Client.Config.{Config}
use manka_shreds_sdk.Client.Connect.{
  Link, send, take_payload, receive, read_challenge, hello_frame, transcript_of, prove,
  authenticate, max_handshake_bytes, connect,
}
use manka_shreds_sdk.Client.Connect.Agreed.{and_then-eq-ok}

take_payload-answer {ℓ} :
    {A : Type ℓ} (decode : FrameKind → List ℕ → Result A) (answer : Result FrameHeader)
    (link link' : Link)
    → link.pending ≡ link'.pending
    → (take_payload decode answer link).0 ≡ (take_payload decode answer link').0
unfolding take_payload
take_payload-answer decode (ok header) link link' e = rw e refl
take_payload-answer decode (err e) link link' same = refl
take_payload-answer decode panic link link' e = refl

send-incoming :
    (frame : List ℕ) (link : Link) → (send frame link).1.stream.incoming ≡ link.stream.incoming
unfolding send write_all
send-incoming frame link = ground arith

-- What is received is what the stream carries, whatever is sent before.
pub receive-send {ℓ} :
    {A : Type ℓ} (decode : FrameKind → List ℕ → Result A) (limit : ℕ) (frame : List ℕ) (link : Link)
    → (receive decode limit (send frame link).1).0 ≡ (receive decode limit link).0
unfolding receive send
receive-send decode limit frame link =
    rw (send-incoming frame link) (take_payload-answer decode _ _ _ refl)

module _ (sha256 : List ℕ → List ℕ) (hmac : List ℕ → List ℕ → List ℕ) where
  -- The stream of the link carries a challenge, and the proof in it is verified over this side's nonce,
  -- the nonce in it and the binding.
  abbrev pub IsProven : Config → List ℕ → ChannelBinding → Link → Challenge → Type 0
  IsProven config client_nonce binding link challenge =
      ((receive read_challenge max_handshake_bytes link).0 ≡ ok challenge)
      × (verify_server hmac (transcript_of sha256 hmac config client_nonce binding challenge)
            config.secret challenge.proof
          ≡ true)

  prove-eq-ok :
      (config : Config) (client_nonce : List ℕ) (binding : ChannelBinding) (challenge : Challenge)
      (link : Link)
      → (prove sha256 hmac config
          (transcript_of sha256 hmac config client_nonce binding challenge)
          challenge
          link).0
        ≡ ok tt
      → verify_server hmac
          (transcript_of sha256 hmac config client_nonce binding challenge)
          config.secret
          challenge.proof
        ≡ true
  unfolding prove
  prove-eq-ok config client_nonce binding challenge link h = passed _ _ _ h
    where
      passed :
          (b : Bool) (x : Result (Unit {0}) × Link) (e : Error)
          → (if b then x else (err e, link)).0 ≡ ok tt
          → b ≡ true
      passed true x e h = refl
      passed false x e h = cc

  pub connect-IsProven :
      (config : Config) (held : Option (List ℕ)) (client_nonce : List ℕ) (binding : ChannelBinding)
      (link : Link) (client : Client)
      → (connect sha256 hmac config held client_nonce binding link).0 ≡ ok client
      → (challenge : Challenge) × IsProven config client_nonce binding link challenge
  unfolding connect authenticate
  connect-IsProven config held client_nonce binding link client h =
      let hello = hello_frame sha256 hmac config held client_nonce in
      let (a, sent, rest) = and_then-eq-ok (send hello link) _ h in
      let greeted = (send hello link).1 in
      let (b, known, last) =
        and_then-eq-ok (authenticate sha256 hmac config client_nonce binding greeted) _ rest in
      let (challenge, read, proved) =
        and_then-eq-ok (receive read_challenge max_handshake_bytes greeted) _ known in
      (
        challenge,
        (
          sym (receive-send read_challenge max_handshake_bytes hello link) ∙ read,
          prove-eq-ok config client_nonce binding challenge
              (receive read_challenge max_handshake_bytes greeted).1 proved,
        ),
      )
