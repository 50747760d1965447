-- ===== src/Tests/Lives.antt =====
-- The lives of servers, at concrete inputs.
use pygls.Prelude.{
  ℕ, zero, suc, ◌≡◌, refl, true, false, List, [], ◌∷◌, ◌++◌, Option, none, some, length,
}
use mathlib.Core.Option
use pygls.Framing.{Bytes, codes, run, readline, match_length, is_blank}
use pygls.Framing.Exact.{Agrees, IsCut, run_async, run_async-Agrees}
use pygls.Serving.{
  Exc, pool_is_down, system_exit, error, finished, raises, JsonRpcServer, init, lsp_exit,
  start_io_async, start_tcp,
}
use pygls.Serving.Ends.{exit_code}
use pygls.Serving.Again.{HasPool, start_io_async-again}
use pygls.Rpc.{str, id_eq, task, check}
use pygls.Rpc.Send.{keep, next_uuid}
use pygls.Tests.Protocol.{idle}

-- The state in which the handler of a notification runs: its future is kept under a new id.
abbrev noted : JsonRpcServer ℕ → JsonRpcServer ℕ
noted s = record s { protocol = keep (str "new") task check (next_uuid s.protocol) }

-- A body that starts with 0 is a shutdown, with 1 the exit, with 2 one whose handling fails, and any
-- other does nothing.
abbrev handle : Bytes → JsonRpcServer ℕ → Option Exc × JsonRpcServer ℕ
handle [] s = (none, s)
handle (zero ∷ rest) s = (none, record s { protocol = record s.protocol { shutdown = true } })
handle (suc zero ∷ rest) s = (some (lsp_exit (noted s).protocol), noted s)
handle (suc (suc zero) ∷ rest) s = (some (error "BrokenPipeError"), s)
handle (suc (suc (suc n)) ∷ rest) s = (none, s)

handle-HasPool : HasPool handle
handle-HasPool [] s h = h
handle-HasPool (zero ∷ rest) s h = h
handle-HasPool (suc zero ∷ rest) s h = h
handle-HasPool (suc (suc zero) ∷ rest) s h = h
handle-HasPool (suc (suc (suc n)) ∷ rest) s h = h

abbrev a_server : JsonRpcServer ℕ
a_server = init idle

exit_code_example :
    ((start_io_async handle ((0 ∷ []) ∷ (1 ∷ []) ∷ (4 ∷ []) ∷ []) a_server).0 ≡ finished)
    × ((start_tcp handle (((0 ∷ []) ∷ (1 ∷ []) ∷ (4 ∷ []) ∷ []) ∷ []) a_server).0
        ≡ raises (system_exit 0))
exit_code_example =
    exit_code handle ((0 ∷ []) ∷ []) ((4 ∷ []) ∷ []) (1 ∷ []) [] a_server
      (record { no_exception = λ s. refl; same_event = λ s. refl; same_pool = λ s. refl }, tt) noted
      (λ t. refl) (λ t. refl) refl

start_io_async-again_example :
    ((start_io_async handle ((4 ∷ []) ∷ []) (start_io_async handle ((0 ∷ []) ∷ []) a_server).1).0
      ≡ raises pool_is_down)
    × ((start_io_async handle
          ((4 ∷ []) ∷ [])
          (start_io_async handle ((0 ∷ []) ∷ []) a_server).1).1.protocol
        ≡ record (start_io_async handle ((0 ∷ []) ∷ []) a_server).1.protocol { has_writer = true })
start_io_async-again_example =
    start_io_async-again handle ((0 ∷ []) ∷ []) ((4 ∷ []) ∷ []) a_server handle-HasPool

-- A message of three bytes, of which the stream has two.
abbrev cut : Bytes
cut = codes "Content-Length: 3" ++ 13 ∷ 10 ∷ 13 ∷ 10 ∷ 65 ∷ 66 ∷ []

run_async-Agrees_example :
    (hs : List Bytes) × (run (suc (length cut)) (λ handled. false) [] 0 cut ≡ some hs)
    × Agrees
        (λ handled. false)
        []
        0
        cut
        (run_async (suc (length cut)) (λ handled. false) [] 0 cut)
        hs
    × ((before : List Bytes) (short : Bytes)
        → IsCut (λ handled. false) [] 0 cut before short
        → run_async (suc (length cut)) (λ handled. false) [] 0 cut ≡ some (false, before))
run_async-Agrees_example = run_async-Agrees (λ handled. false) cut

-- The one loop raises, and the other handles the two bytes.
cut_async : run_async 4 (λ handled. false) [] 0 cut ≡ some (false, [])
unfolding run_async readline match_length is_blank Option.bind
cut_async = refl

cut_sync : run 4 (λ handled. false) [] 0 cut ≡ some ((65 ∷ 66 ∷ []) ∷ [])
unfolding run readline match_length is_blank Option.bind
cut_sync = refl
