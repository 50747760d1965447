-- ===== src/Serving/Again.antt =====
-- A server (pygls/server.py) on standard input cannot be started again.
use pygls.Prelude.{◌≡◌, refl, ap, ◌∙◌, Bool, true, false, not, List, [], ◌∷◌, Option, none, some}
use mathlib.Core.Option
use pygls.Prelude.{arith}
use pygls.Prelude.Dict.{has_some}
use pygls.Framing.{Bytes}
use pygls.Serving.{
  Exc, broken_pipe, keyboard_interrupt, cancelled_error, not_a_coroutine, error, waits,
  pool_is_down, system_exit, Ending, finished, raises, JsonRpcServer, is_down, pool_or_new,
  shutdown, with_thread_pool, set_writer, after_io, read, go_on, run_loop, start_io_async,
}

go_on-has_pool :
    {A : Type 0} (rest : JsonRpcServer A → Ending × JsonRpcServer A)
    → ((s : JsonRpcServer A)
        → has_some s.thread_pool ≡ true
        → has_some (rest s).1.thread_pool ≡ true)
    → (r : Option Exc × JsonRpcServer A) → has_some r.1.thread_pool ≡ true
    → has_some (go_on rest r).1.thread_pool ≡ true
go_on-has_pool rest h (none, s) g = h s g
go_on-has_pool rest h (some exc, s) g = g

after_io-down : {A : Type 0} (r : Ending × JsonRpcServer A) → (after_io r).1 ≡ shutdown r.1
unfolding after_io
after_io-down (finished, s) = refl
after_io-down (waits, s) = refl
after_io-down (raises broken_pipe, s) = refl
after_io-down (raises keyboard_interrupt, s) = refl
after_io-down (raises cancelled_error, s) = refl
after_io-down (raises not_a_coroutine, s) = refl
after_io-down (raises pool_is_down, s) = refl
after_io-down (raises (system_exit code), s) = refl
after_io-down (raises (error t), s) = refl

module _ {A : Type 0} (handle : Bytes → JsonRpcServer A → Option Exc × JsonRpcServer A) where
  -- The pool that a server has stays, whatever is handled.
  abbrev pub HasPool : Type 0
  HasPool =
      (body : Bytes) (s : JsonRpcServer A)
      → has_some s.thread_pool ≡ true
      → has_some (handle body s).1.thread_pool ≡ true

  HasPool-run_loop :
      (pooled : Bool) (bodies : List Bytes) (s : JsonRpcServer A)
      → HasPool
      → has_some s.thread_pool ≡ true
      → has_some (run_loop handle pooled bodies s).1.thread_pool ≡ true
  unfolding run_loop read
  HasPool-run_loop pooled [] s k h = ground arith
  HasPool-run_loop pooled (body ∷ bodies) s k h =
      let rest =
        go_on-has_pool (λ t. run_loop handle pooled bodies t)
          (λ t. HasPool-run_loop pooled bodies t k) (handle body s) (k body s h) in
      ground arith

  run_loop-down :
      (bodies : List Bytes) (s : JsonRpcServer A)
      → s.stop_event ≡ some false
      → is_down s ≡ true
      → run_loop handle true bodies s ≡ (raises pool_is_down, s)
  unfolding run_loop read
  run_loop-down [] s e d = rw (e, d) refl
  run_loop-down (body ∷ bodies) s e d = rw (e, d) refl

  start_io_async-down :
      (bodies : List Bytes) (s : JsonRpcServer A)
      → s.thread_pool ≡ some false
      → ((start_io_async handle bodies s).0 ≡ raises pool_is_down)
        × ((start_io_async handle bodies s).1.protocol ≡ record s.protocol { has_writer = true })
  unfolding start_io_async after_io shutdown
  start_io_async-down bodies s d =
      let t = set_writer (with_thread_pool (record s { stop_event = some false })) in
      let down : is_down t ≡ true = ap (λ o. not (pool_or_new o)) d in
      (rw (run_loop-down bodies t refl down) refl, rw (run_loop-down bodies t refl down) refl)

  -- A server that was started on standard input once, and comes to its end in any way, cannot be
  -- started so again, as long as handlers do not take its pool away: the pool is shut down, so that the
  -- first reading raises, and no message is handled.
  pub start_io_async-again :
      (bodies later : List Bytes) (s : JsonRpcServer A)
      → HasPool
      → ((start_io_async handle later (start_io_async handle bodies s).1).0 ≡ raises pool_is_down)
        × ((start_io_async handle later (start_io_async handle bodies s).1).1.protocol
            ≡ record (start_io_async handle bodies s).1.protocol { has_writer = true })
  unfolding start_io_async shutdown
  start_io_async-again bodies later s k =
      let r =
        run_loop handle true bodies
          (set_writer (with_thread_pool (record s { stop_event = some false }))) in
      let kept =
        HasPool-run_loop true bodies
          (set_writer (with_thread_pool (record s { stop_event = some false }))) k refl in
      start_io_async-down later (after_io r).1
        (ap (λ t. t.thread_pool) (after_io-down r) ∙ shut r.1.thread_pool kept)
    where
      shut : (o : Option Bool) → has_some o ≡ true → Option.map (λ b. false) o ≡ some false
      shut none h = cc
      shut (some b) h = refl
