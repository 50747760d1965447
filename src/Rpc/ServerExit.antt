-- ===== src/Rpc/ServerExit.antt =====
-- pygls/client.py: `_server_exit`, what a client that has started a server does once the process of
-- the server has exited.
use pygls.Prelude.{
  ℕ, String, Bool, true, false, List, [], ◌∷◌, Option, none, some, ◌==◌, if◌then◌else◌, get_elem?,
}
use pygls.Prelude.Dict
use pygls.Rpc.{
  MsgId, other, Settled, failed, FutureState, queued, running, task, awaiting, settled, Future,
  Protocol,
}
use pygls.Rpc.Send.{Env}
use pygls.Rpc.Handle.{settle_future}
use pygls.Rpc.Shutdown.{size}
pub mod Pending

pub record Client (A : Type 0) : Type 0 where
  pub protocol : Protocol A
  pub stop_event : Bool

module _ {A : Type 0} (env : Env A) (reason : String) where
  -- `if not fut.done(): fut.set_exception(RuntimeError(reason))`, which raises for a task: then the answer
  -- is `false`.
  unfoldable pub fail_found : ℕ → Future A → FutureState A → Protocol A → Bool × Protocol A
  fail_found fid f (settled s) p = (true, p)
  fail_found fid f task p = (false, p)
  fail_found fid f _ p = (true, settle_future env fid f (failed (other reason)) p)

  unfoldable pub fail_at : ℕ → Option (Future A) → Protocol A → Bool × Protocol A
  unfolding fail_found
  fail_at fid none p = (true, p)
  fail_at fid (some f) p = fail_found fid f f.state p

  unfoldable pub go_on : (Protocol A → Bool × Protocol A) → Bool × Protocol A → Bool × Protocol A
  go_on rest (true, p) = rest p
  go_on rest (false, p) = (false, p)

  -- The loop over `self.protocol._request_futures.items()`, with the entries that are left, of a dict that
  -- had `n` entries before the loop, as in `lsp_shutdown`.
  unfoldable pub fail_pending : ℕ → List (MsgId × ℕ) → Protocol A → Bool × Protocol A
  unfolding fail_at go_on
  fail_pending n [] p = (size p == n, p)
  fail_pending n ((i, fid) ∷ entries) p =
      let on = go_on (λ q. fail_pending n entries q) (fail_at fid (get_elem? p.futures fid) p) in
      if size p == n then on else (false, p)

  -- `hook` is the method `server_exit` of the user, whose exceptions are logged.
  unfoldable pub after_loop :
      (Protocol A → Protocol A) → Client A → Bool × Protocol A → Bool × Client A
  after_loop hook c (true, p) = (true, record { protocol = hook p; stop_event = true })
  after_loop hook c (false, p) = (false, record c { protocol = p })

  unfoldable pub server_exit : (Protocol A → Protocol A) → Client A → Bool × Client A
  unfolding fail_pending after_loop
  server_exit hook c =
      after_loop hook c
        (fail_pending (size c.protocol) c.protocol.request_futures.entries c.protocol)
