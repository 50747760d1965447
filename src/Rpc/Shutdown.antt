-- ===== src/Rpc/Shutdown.antt =====
-- pygls/protocol/language_server.py: `lsp_shutdown` after the handler of the user.
-- `current` is `self.msg_id`, the id of the request that is handled in this context, if there is one.
use pygls.Prelude.{
  ℕ, Bool, true, false, List, [], ◌∷◌, Option, none, some, ◌==◌, if◌then◌else◌, length, get_elem?,
}
use pygls.Prelude.Dict
use pygls.Rpc.{MsgId, eq_id, id_eq, other, Protocol, Done, returned, raised}
use pygls.Rpc.Send.{Env}
use pygls.Rpc.Handle.{cancel_at}
pub mod Waiting
pub mod Dropped

-- msg_id == current_id
abbrev pub is_current : Option MsgId → MsgId → Bool
is_current none i = false
is_current (some c) i = eq_id i c

abbrev pub size : {A : Type 0} → Protocol A → ℕ
size p = length p.request_futures.entries

module _ {A : Type 0} (env : Env A) where
  -- The loop over `self._request_futures.items()`, with the entries that are left; the dict had `n`
  -- entries before the loop. Taking the next entry, or ending the loop, raises a RuntimeError if the
  -- dict has another size by then: the answer is `false`. A future that is done is not cancelled, and
  -- `future.cancel()` does nothing to it.
  unfoldable pub cancel_others :
      Option MsgId → ℕ → List (MsgId × ℕ) → Protocol A → Bool × Protocol A
  cancel_others current n [] p = (size p == n, p)
  cancel_others current n ((i, fid) ∷ entries) p =
      let passed = cancel_others current n entries p in
      let on = cancel_others current n entries (cancel_at env fid (get_elem? p.futures fid) p) in
      if size p == n then (if is_current current i then passed else on) else (false, p)

  unfoldable pub set_shutdown : A → Bool × Protocol A → Done A × Protocol A
  set_shutdown nothing (true, p) = (returned nothing, record p { shutdown = true })
  set_shutdown nothing (false, p) =
      (raised (other "RuntimeError: dictionary changed size during iteration"), p)

  unfoldable pub lsp_shutdown : Option MsgId → A → Protocol A → Done A × Protocol A
  unfolding cancel_others set_shutdown
  lsp_shutdown current nothing p =
      set_shutdown nothing (cancel_others current (size p) p.request_futures.entries p)
