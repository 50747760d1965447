-- ===== src/Transport.antt =====
-- The loops of pygls/io_.py with the protocol: `run`, over a stream of bytes, and `run_websocket`, over the
-- messages of a websocket.
use pygls.Prelude.{ℕ, Bool, List, [], ◌∷◌, Option, map, if◌then◌else◌}
use mathlib.Core.Option
use pygls.Framing.{Bytes, run}
use pygls.Rpc.{Protocol}
use pygls.Rpc.Send.{Env}
use pygls.Rpc.Receive.{receive}
use pygls.Rpc.OneResponse.{arrived, steps}
pub mod Same

-- `stopped` says whether the stop event is set, which is done while a message is handled.
module _ {A : Type 0} (env : Env A) (stopped : Protocol A → Bool) where
  -- The protocol after the bodies have been handled.
  abbrev pub after_bodies : Protocol A → List Bytes → Protocol A
  after_bodies p bodies = steps env (map (λ b. arrived b) bodies) p

  -- `run` on a stream, on fuel; `none` means that the fuel ran out.
  unfoldable pub serve_stream : ℕ → Bytes → Protocol A → Option (Protocol A)
  serve_stream f stream p =
      Option.map (after_bodies p) (run f (λ bodies. stopped (after_bodies p bodies)) [] 0 stream)

  -- `run_websocket` on what is received until the connection is closed, which ends the loop.
  unfoldable pub serve_websocket : List Bytes → Protocol A → Protocol A
  serve_websocket [] p = p
  serve_websocket (message ∷ messages) p =
      let on = serve_websocket messages (receive env message p).1 in if stopped p then p else on
