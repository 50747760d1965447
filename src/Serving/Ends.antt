-- ===== src/Serving/Ends.antt =====
-- How a server's life ends (pygls/server.py).
use pygls.Prelude.{
  ◌≡◌, refl, ◌∙◌, Bool, true, false, ◌&&◌, not, List, [], ◌∷◌, ◌++◌, Option, none, some,
  if◌then◌else◌,
}
use mathlib.Core.Option
use pygls.Framing.{Bytes}
use pygls.Serving.{
  Exc, system_exit, Ending, finished, raises, JsonRpcServer, is, is_down, pool_or_new,
  with_thread_pool, set_writer, lsp_exit, after_io, read, go_on, run_loop, start_io_async,
  after_connection, serve_forever, start_tcp,
}

-- A pool that is not down stays so when it is asked for.
pool-is_down : (o : Option Bool) → is (Option.map not o) ≡ false → not (pool_or_new o) ≡ false
pool-is_down none h = refl
pool-is_down (some b) h = h

go_on-none :
    {A : Type 0} (rest : JsonRpcServer A → Ending × JsonRpcServer A)
    (r : Option Exc × JsonRpcServer A)
    → r.0 ≡ none
    → go_on rest r ≡ rest r.1
go_on-none rest (none, s) h = refl
go_on-none rest (some exc, s) h = cc

module _ {A : Type 0} (handle : Bytes → JsonRpcServer A → Option Exc × JsonRpcServer A) where
  -- The server after some bodies.
  abbrev pub handled : List Bytes → JsonRpcServer A → JsonRpcServer A
  handled [] s = s
  handled (body ∷ bodies) s = handled bodies (handle body s).1

  -- Whatever the state, the body is handled without an exception, and neither stops the loop nor shuts
  -- the pool down.
  pub record Passes (body : Bytes) : Type 0 where
    pub no_exception : (s : JsonRpcServer A) → (handle body s).0 ≡ none
    pub same_event : (s : JsonRpcServer A) → (handle body s).1.stop_event ≡ s.stop_event
    pub same_pool : (s : JsonRpcServer A) → (handle body s).1.thread_pool ≡ s.thread_pool

  abbrev pub AllPass : List Bytes → Type 0
  AllPass [] = Unit
  AllPass (body ∷ bodies) = Passes body × AllPass bodies

  read-next :
      (pooled : Bool) (next : Ending × JsonRpcServer A) (s : JsonRpcServer A)
      → s.stop_event ≡ some false
      → (pooled && is_down s) ≡ false
      → read pooled next s ≡ next
  unfolding read
  read-next pooled next s e d = rw (e, d) refl

  run_loop-append :
      (pooled : Bool) (before rest : List Bytes) (s : JsonRpcServer A)
      → AllPass before
      → s.stop_event ≡ some false
      → (pooled && is_down s) ≡ false
      → run_loop handle pooled (before ++ rest) s ≡ run_loop handle pooled rest (handled before s)
  unfolding run_loop
  run_loop-append pooled [] rest s a e d = refl
  run_loop-append pooled (body ∷ before) rest s (passes, a) e d =
      let t = (handle body s).1 in
      let down : (pooled && is_down t) ≡ false = rw (passes.same_pool s) d in
      read-next pooled _ s e d
      ∙ (go_on-none (λ u. run_loop handle pooled (before ++ rest) u) (handle body s)
            (passes.no_exception s)
          ∙ run_loop-append pooled before rest t a (passes.same_event s ∙ e) down)

  handled-flags :
      (before : List Bytes) (s : JsonRpcServer A)
      → AllPass before
      → ((handled before s).stop_event ≡ s.stop_event)
        × ((handled before s).thread_pool ≡ s.thread_pool)
  handled-flags [] s a = (refl, refl)
  handled-flags (body ∷ before) s (passes, a) =
      let h = handled-flags before (handle body s).1 a in
      (h.0 ∙ passes.same_event s, h.1 ∙ passes.same_pool s)

  -- A body whose handling raises ends the loop with the exception.
  run_loop-raises :
      (pooled : Bool) (before after : List Bytes) (body : Bytes) (exc : JsonRpcServer A → Exc)
      (keeps : JsonRpcServer A → JsonRpcServer A) (s : JsonRpcServer A)
      → AllPass before
      → ((t : JsonRpcServer A) → handle body t ≡ (some (exc t), keeps t))
      → s.stop_event ≡ some false
      → (pooled && is_down s) ≡ false
      → run_loop handle pooled (before ++ body ∷ after) s
        ≡ (raises (exc (handled before s)), keeps (handled before s))
  unfolding run_loop
  run_loop-raises pooled before after body exc keeps s a h e d =
      let t = handled before s in
      let flags = handled-flags before s a in
      let down : (pooled && is_down t) ≡ false = rw (flags.1) d in
      run_loop-append pooled before (body ∷ after) s a e d
      ∙ (read-next pooled _ t (flags.0 ∙ e) down ∙ rw (h t) refl)

  -- When the exit notification comes, whose handler runs in the state with the future and the id that the
  -- protocol keeps of it, and asks that state whether it has been shut down, after bodies that are handled without an exception and stop
  -- nothing: over a stream of standard input, whose pool takes jobs, the start returns, and the code
  -- that the protocol chose is lost. Over TCP, in the first connection, the same messages end the
  -- process with that code, which is 0 exactly if the protocol has been shut down. Either way nothing
  -- that comes after the exit is read.
  pub exit_code :
      (before after : List Bytes) (exit : Bytes) (connections : List (List Bytes))
      (s : JsonRpcServer A)
      → AllPass before
      → (keeps : JsonRpcServer A → JsonRpcServer A)
      → ((t : JsonRpcServer A) → (keeps t).protocol.shutdown ≡ t.protocol.shutdown)
      → ((t : JsonRpcServer A) → handle exit t ≡ (some (lsp_exit (keeps t).protocol), keeps t))
      → is_down s ≡ false
      → ((start_io_async handle (before ++ exit ∷ after) s).0 ≡ finished)
        × ((start_tcp handle ((before ++ exit ∷ after) ∷ connections) s).0
            ≡ raises (
                system_exit (
                  if (handled before (
                    set_writer
                      (record s { stop_event = some false; server = some true }))).protocol.shutdown
                  then 0
                  else 1)))
  unfolding start_io_async start_tcp serve_forever after_io after_connection
  exit_code before after exit connections s a keeps same h d = (
    rw
        (run_loop-raises true before after exit (λ t. lsp_exit (keeps t).protocol) keeps
          (set_writer (with_thread_pool (record s { stop_event = some false }))) a h refl
          (pool-is_down s.thread_pool d))
        refl,
    rw
        (run_loop-raises false before after exit (λ t. lsp_exit (keeps t).protocol) keeps
          (set_writer (record s { stop_event = some false; server = some true })) a h refl refl)
        (rw (same _) refl),
  )
