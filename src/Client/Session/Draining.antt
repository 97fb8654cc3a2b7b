-- ===== src/Client/Session/Draining.antt =====
-- rust/src/lib.rs: the loop in which a caller takes events until a call fails.
use manka_shreds_sdk.Common.{
  ℕ, zero, suc, ◌*◌, ◌≤◌, ◌<◌, ◌≡◌, refl, arith, List, [], ◌∷◌, Option, none, some, length,
}
use mathlib.Core.Option
use manka_shreds_sdk.Error.{Error, Result, ok, err, panic}
use manka_shreds_sdk.Client.Session.Decoding.{next_event-ne-panic}
use manka_shreds_sdk.Client.Session.{Client, Event, next_event}
use manka_shreds_sdk.Client.Session.Progress.{bytes_left, next_event-Counts}

module _ (zstd_decompress : Option (List ℕ) → List ℕ → ℕ → Option (List ℕ)) where
  -- `loop { match client.next_event().await? { … } }`, at most `fuel` times: the events and the failure
  unfoldable pub drain : ℕ → Client → Option (List Event × Error)
  drain zero self = none
  drain (suc fuel) self =
      let rest = drain fuel (next_event zstd_decompress self).1 in
      elim (next_event zstd_decompress self).0 [
        | ok event ↦ Option.map (λ (out : List Event × Error). (event ∷ out.0, out.1)) rest
        | err e ↦ some ([], e)
        | panic ↦ none
      ]

  abbrev Ends : ℕ → Client → Type 0
  Ends fuel self =
      (events : List Event) × (e : Error) × (drain fuel self ≡ some (events, e))
      × (16 * length events ≤ bytes_left self)

  drain_step :
      (fuel : ℕ) (self : Client) (answer : Result Event)
      → (next_event zstd_decompress self).0 ≡ answer
      → bytes_left self < 16 * suc fuel
      → (bytes_left (next_event zstd_decompress self).1 < 16 * fuel
          → Ends fuel (next_event zstd_decompress self).1)
      → Ends (suc fuel) self
  unfolding drain
  drain_step fuel self (ok event) p h later =
      let (taken, some_bytes, left, counted) = next_event-Counts zstd_decompress self event p in
      let (events, e, q, few) = later (omega arith) in
      (event ∷ events, e, rw (p, q, drain) refl, omega arith)
  drain_step fuel self (err e) p h later = ([], e, rw (p, drain) refl, omega arith)
  drain_step fuel self panic p h later = absurd (next_event-ne-panic zstd_decompress self p)

  -- A caller that calls `next_event` until it fails comes to the failure if it may call more
  -- often than a sixteenth of the number of bytes at hand and to come, whatever they are, and
  -- gets at most one event for each sixteen of those bytes.
  pub drain_ends :
      (fuel : ℕ) (self : Client)
      → bytes_left self < 16 * fuel
      → (events : List Event) × (e : Error) × (drain fuel self ≡ some (events, e))
        × (16 * length events ≤ bytes_left self)
  drain_ends zero self h = absurd (omega arith)
  drain_ends (suc fuel) self h =
      drain_step fuel self _ refl h (drain_ends fuel (next_event zstd_decompress self).1)
