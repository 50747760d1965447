-- ===== src/Serving.antt =====
-- The life of a server (pygls/server.py, `JsonRPCServer`): its thread pool, its stop event, and the
-- loops it starts. `handle` is what is done with a body (the `try` in the loops of pygls/io_.py): it
-- raises what no `except Exception` catches, or what the error handler itself raises.
use pygls.Prelude.{
  ℕ, String, Bool, true, false, ◌&&◌, not, List, [], ◌∷◌, Option, none, some, if◌then◌else◌,
}
use mathlib.Core.Option
use pygls.Framing.{Bytes}
use pygls.Rpc.{Protocol}
pub mod Ends
pub mod Again

-- The exceptions that come to the one who starts a server.
pub data Exc : Type 0 where
  broken_pipe keyboard_interrupt cancelled_error not_a_coroutine pool_is_down : Exc
  system_exit : ℕ → Exc
  error : String → Exc

-- How a start ends: it returns or raises, or the server goes on waiting for connections.
pub data Ending : Type 0 where
  finished waits : Ending
  raises : Exc → Ending

-- `stop_event` says whether the event is set, `thread_pool` whether the pool takes jobs, and `server`
-- whether the server takes connections, once there are any.
pub record JsonRpcServer (A : Type 0) : Type 0 where
  pub protocol : Protocol A
  pub stop_event : Option Bool
  pub thread_pool : Option Bool
  pub server : Option Bool

-- An `Option` of a flag is that very flag, if it is there.
abbrev pub is : Option Bool → Bool
is none = false
is (some b) = b

abbrev pub pool_or_new : Option Bool → Bool
pool_or_new none = true
pool_or_new (some takes_jobs) = takes_jobs

module _ {A : Type 0} where
  abbrev pub init : Protocol A → JsonRpcServer A
  init p = record { protocol = p; stop_event = none; thread_pool = none; server = none }

  unfoldable pub shutdown : JsonRpcServer A → JsonRpcServer A
  shutdown s = record s {
    stop_event = Option.map (λ b. true) s.stop_event;
    thread_pool = Option.map (λ b. false) s.thread_pool;
    server = Option.map (λ b. false) s.server;
  }

  -- The property `thread_pool`: the pool is made when it is first asked for.
  abbrev pub with_thread_pool : JsonRpcServer A → JsonRpcServer A
  with_thread_pool s = record s { thread_pool = some (pool_or_new s.thread_pool) }

  abbrev pub set_writer : JsonRpcServer A → JsonRpcServer A
  set_writer s = record s { protocol = record s.protocol { has_writer = true } }

  -- `lsp_exit` (pygls/protocol/language_server.py) after the handler of the user, with no writer or
  -- one that closes at once: sys.exit with 0 only after a shutdown.
  abbrev pub lsp_exit : Protocol A → Exc
  lsp_exit p = system_exit (if p.shutdown then 0 else 1)

  -- The `except` clauses of `start_io`, and its `finally`.
  unfoldable pub after_io : Ending × JsonRpcServer A → Ending × JsonRpcServer A
  unfolding shutdown
  after_io (raises broken_pipe, s) = (finished, shutdown s)
  after_io (raises keyboard_interrupt, s) = (finished, shutdown s)
  after_io (raises (system_exit code), s) = (finished, shutdown s)
  after_io (ending, s) = (ending, shutdown s)

  -- asyncio.run(run(...)): `run` is no coroutine, so that its result `None` is what asyncio.run gets.
  abbrev pub run_none : Ending × JsonRpcServer A → Ending × JsonRpcServer A
  run_none (finished, s) = (raises not_a_coroutine, s)
  run_none (ending, s) = (ending, s)

  -- The pool refuses jobs.
  abbrev pub is_down : JsonRpcServer A → Bool
  is_down s = is (Option.map not s.thread_pool)

  -- The head of the loop, and what it reads.
  unfoldable pub read : Bool → Ending × JsonRpcServer A → JsonRpcServer A → Ending × JsonRpcServer A
  read pooled next s =
      if is s.stop_event
      then (finished, s)
      else if pooled && is_down s
      then (raises pool_is_down, s)
      else next

-- What the loop does after a body has been handled.
abbrev pub go_on :
    {A : Type 0}
    → (JsonRpcServer A → Ending × JsonRpcServer A)
    → Option Exc × JsonRpcServer A
    → Ending × JsonRpcServer A
go_on rest (none, s) = rest s
go_on rest (some exc, s) = (raises exc, s)

-- A connection has come to its end. If its loop ends, the server is shut down, which ends
-- `serve_forever`. If it raises, only what is no Exception ends the event loop; the event loop reports
-- anything else and waits for the next connection.
unfoldable pub after_connection :
    {A : Type 0}
    → (JsonRpcServer A → Ending × JsonRpcServer A)
    → Ending × JsonRpcServer A
    → Ending × JsonRpcServer A
unfolding shutdown
after_connection next (raises (system_exit code), s) = (raises (system_exit code), s)
after_connection next (raises keyboard_interrupt, s) = (raises keyboard_interrupt, s)
after_connection next (raises exc, s) = next s
after_connection next (ending, s) = (finished, shutdown s)

module _ {A : Type 0} (handle : Bytes → JsonRpcServer A → Option Exc × JsonRpcServer A) where
  -- The loop of `run` and `run_async` over the bodies that come until the stream ends. `pooled` says
  -- that each reading is a job for the thread pool.
  unfoldable pub run_loop : Bool → List Bytes → JsonRpcServer A → Ending × JsonRpcServer A
  run_loop pooled [] s = read pooled (finished, s) s
  run_loop pooled (body ∷ bodies) s =
      read pooled (go_on (λ t. run_loop pooled bodies t) (handle body s)) s

  unfoldable pub start_io_async : List Bytes → JsonRpcServer A → Ending × JsonRpcServer A
  unfolding run_loop after_io
  start_io_async bodies s =
      after_io (
        run_loop true bodies (set_writer (with_thread_pool (record s { stop_event = some false }))))

  unfoldable pub start_io_sync : List Bytes → JsonRpcServer A → Ending × JsonRpcServer A
  unfolding run_loop after_io
  start_io_sync bodies s =
      after_io
        (run_none (run_loop false bodies (set_writer (record s { stop_event = some false }))))

  unfoldable pub start_io : Bool → List Bytes → JsonRpcServer A → Ending × JsonRpcServer A
  unfolding start_io_async start_io_sync
  start_io is_wasm bodies s = if is_wasm then start_io_sync bodies s else start_io_async bodies s

  -- Connections one after the other, each with the bodies that come over it.
  unfoldable pub serve_forever : List (List Bytes) → JsonRpcServer A → Ending × JsonRpcServer A
  unfolding run_loop after_connection
  serve_forever [] s = (waits, s)
  serve_forever (bodies ∷ connections) s =
      after_connection (λ t. serve_forever connections t) (run_loop false bodies (set_writer s))

  unfoldable pub start_tcp : List (List Bytes) → JsonRpcServer A → Ending × JsonRpcServer A
  unfolding serve_forever
  start_tcp connections s =
      serve_forever connections (record s { stop_event = some false; server = some true })

  -- `websockets` says whether the package is there. That the connection is closed sets the stop event,
  -- as the shutdown does that follows.
  unfoldable pub start_ws : Bool → List (List Bytes) → JsonRpcServer A → Ending × JsonRpcServer A
  unfolding serve_forever
  start_ws websockets connections s =
      let served =
        serve_forever connections (record s { stop_event = some false; server = some true }) in
      if websockets then served else (raises (system_exit 1), s)

-- What argparse makes of the command line.
pub record Arguments : Type 0 where
  pub tcp : Bool
  pub ws : Bool

-- `start_server` (pygls/cli.py)
unfoldable pub start_server :
    {A : Type 0}
    → (Bytes → JsonRpcServer A → Option Exc × JsonRpcServer A)
    → Arguments
    → Bool
    → Bool
    → List (List Bytes)
    → List Bytes
    → JsonRpcServer A
    → Ending × JsonRpcServer A
unfolding start_tcp start_ws start_io
start_server handle arguments is_wasm websockets connections stdin s =
    if arguments.tcp
    then start_tcp handle connections s
    else if arguments.ws
    then start_ws handle websockets connections s
    else start_io handle is_wasm stdin s
