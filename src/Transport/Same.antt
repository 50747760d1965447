-- ===== src/Transport/Same.antt =====
-- A client is served alike over a stream and over a websocket.
use pygls.Prelude.{
  ℕ, ◌≤◌, ◌≡◌, refl, ap, ◌∙◌, Bool, List, [], ◌∷◌, ◌++◌, some, map, concat, Bool-cases, inl, inr,
}
use mathlib.Core.Option
use pygls.Framing.{Bytes, frame}
use pygls.Framing.RoundTrip.{served, AllFilled, rounds, run-frames}
use pygls.Rpc.{Protocol}
use pygls.Rpc.Send.{Env}
use pygls.Rpc.Receive.{receive}
use pygls.Rpc.OneResponse.{step, steps}
use pygls.Transport.{after_bodies, serve_stream, serve_websocket}

module _ {A : Type 0} (env : Env A) (stopped : Protocol A → Bool) where
  after_bodies-append :
      (p : Protocol A) (bodies : List Bytes) (b : Bytes)
      → after_bodies env stopped p (bodies ++ b ∷ [])
        ≡ (receive env b (after_bodies env stopped p bodies)).1
  unfolding steps step
  after_bodies-append p [] b = refl
  after_bodies-append p (c ∷ bodies) b = after_bodies-append (receive env c p).1 bodies b

  after_bodies-served :
      (p : Protocol A) (handled bodies : List Bytes)
      → after_bodies env stopped p
          (served (λ bs. stopped (after_bodies env stopped p bs)) handled bodies)
        ≡ serve_websocket env stopped bodies (after_bodies env stopped p handled)
  unfolding serve_websocket
  after_bodies-served p handled [] = refl
  after_bodies-served p handled (b ∷ bodies) =
      elim (Bool-cases (stopped (after_bodies env stopped p handled))) [
        | inl e ↦ rw e refl
        | inr e ↦ rw e (
            after_bodies-served p (handled ++ b ∷ []) bodies
            ∙ ap (λ q. serve_websocket env stopped bodies q) (after_bodies-append p handled b))
      ]

  -- On enough fuel, for bodies that are not empty: the loop over the stream that the other side writes for some bodies leaves the protocol as
  -- the loop over a websocket does that receives the bodies themselves, also where the handling of one sets the stop event.
  pub serve_stream-frames :
      (f : ℕ) (bodies : List Bytes) (p : Protocol A)
      → AllFilled bodies
      → rounds bodies ≤ f
      → serve_stream env stopped f (concat (map frame bodies)) p
        ≡ some (serve_websocket env stopped bodies p)
  unfolding serve_stream steps
  serve_stream-frames f bodies p h e =
      ap (Option.map (after_bodies env stopped p))
        (run-frames f (λ bs. stopped (after_bodies env stopped p bs)) [] bodies h e)
      ∙ ap (λ q. some q) (after_bodies-served p [] bodies)
