-- ===== src/Rpc/Generator.antt =====
-- pygls/protocol/json_rpc.py: `_execute_handler` and `_run_generator`, and the callback that runs a
-- generator on. A Boolean answer says that no exception is raised to the caller.
use pygls.Prelude.{
  ℕ, zero, suc, Bool, true, false, Option, none, some, if◌then◌else◌, length, get_elem?,
}
use pygls.Rpc.{
  MsgId, str, id_eq, other, Settled, result, failed, cancelled, FutureState, queued, running, task,
  awaiting, settled, Callback, respond, check, sender, resume, Future, Protocol, Turn, yields,
  stops, Handler, sync, coroutine, thread, Feature, plain, generator,
}
use pygls.Rpc.Send.{Env, set_future, keep, outcome_of, next_uuid, call_end}

-- result_future.cancelled()
abbrev pub is_cancelled : {A : Type 0} → Option (Future A) → Bool
is_cancelled none = false
is_cancelled (some f) = elim f.state [
  | queued ↦ false
  | running ↦ false
  | task ↦ false
  | awaiting ↦ false
  | settled s ↦ (elim s [ result v ↦ false | failed e ↦ false | cancelled ↦ true ])
]

module _ {A : Type 0} (env : Env A) where
  -- result_future.set_result, result_future.set_exception: they raise if the future has ended. The
  -- callback of a result future is never that of a generator.
  unfoldable pub resolve_state :
      ℕ → Future A → FutureState A → Settled A → Protocol A → Bool × Protocol A
  unfolding set_future
  resolve_state fid f awaiting outcome p = (
    true,
    call_end env f.callback outcome
        (record p { futures = set_future p.futures fid (record f { state = settled outcome }) }),
  )
  resolve_state fid f _ outcome p = (false, p)

  unfoldable pub resolve_at : ℕ → Option (Future A) → Settled A → Protocol A → Bool × Protocol A
  unfolding resolve_state
  resolve_at fid none outcome p = (false, p)
  resolve_at fid (some f) outcome p = resolve_state fid f f.state outcome p

  unfoldable pub resolve : ℕ → Settled A → Protocol A → Bool × Protocol A
  unfolding resolve_at
  resolve fid outcome p = resolve_at fid (get_elem? p.futures fid) outcome p

  -- `_run_generator` with the outcome of the handler before, if there is one; `run` is what `gen.send`
  -- and the rest of the function do with its result. The cancellation of a task is no `Exception`: it
  -- is raised to the event loop.
  unfoldable pub given :
      (Option A → Protocol A → Bool × Protocol A)
      → ℕ
      → Bool
      → Option (Settled A)
      → Protocol A
      → Bool × Protocol A
  unfolding resolve
  given run fid of_task none p = run none p
  given run fid of_task (some (result value)) p = run (some value) p
  given run fid of_task (some (failed exc)) p = resolve fid (failed exc) p
  given run fid true (some cancelled) p = (true, p)
  given run fid false (some cancelled) p = resolve fid (failed (other "CancelledError")) p

  unfoldable pub run_generator :
      (Option A → Protocol A → Bool × Protocol A)
      → ℕ
      → Bool
      → Option (Settled A)
      → Protocol A
      → Bool × Protocol A
  unfolding given
  run_generator run fid of_task previous p =
      if is_cancelled (get_elem? p.futures fid) then (true, p) else given run fid of_task previous p

  -- The execution of the handler that a generator yields to, with `_run_generator` as its callback,
  -- whose exceptions are not raised to the caller.
  unfoldable pub yield_to :
      (Option A → Protocol A → Bool × Protocol A)
      → Callback
      → ℕ
      → Handler A
      → A
      → Protocol A
      → Protocol A
  unfolding run_generator
  yield_to run callback fid (sync call) params p =
      let (done, p') = call params (next_uuid p) in
      (run_generator run fid false (some (outcome_of done)) p').1
  yield_to run callback fid coroutine params p =
      keep (str (env.uuid p.uuids)) task callback (next_uuid p)
  yield_to run callback fid thread params p =
      keep (str (env.uuid p.uuids)) queued callback (next_uuid p)

  unfoldable pub take_turn :
      (ℕ → Option A → Protocol A → Bool × Protocol A)
      → ℕ
      → ℕ
      → Turn A
      → Protocol A
      → Bool × Protocol A
  unfolding resolve yield_to
  take_turn run left fid (stops done) p = resolve fid (outcome_of done) p
  take_turn run left fid (yields h params code) p =
      (true, yield_to (run code) (resume left code fid) fid h params p)

  -- gen.send(value), and what follows. A generator yields at most `left` more times.
  unfoldable pub advance : ℕ → ℕ → ℕ → Option A → Protocol A → Bool × Protocol A
  unfolding take_turn resolve
  advance zero fid code value p =
      let (done, p') = env.end_generator code fid value p in resolve fid (outcome_of done) p'
  advance (suc left) fid code value p =
      let (turn, p') = env.send_generator code fid value p in
      take_turn (λ c v q. advance left fid c v q) left fid turn p'

  -- The callback of a future that has ended, a task's or another.
  unfoldable pub call_back : Bool → Callback → Settled A → Protocol A → Protocol A
  unfolding call_end run_generator advance
  call_back of_task (resume left code fid) outcome p =
      (run_generator (advance left fid code) fid of_task (some outcome) p).1
  call_back of_task (respond msg_id) outcome p = call_end env (respond msg_id) outcome p
  call_back of_task check outcome p = call_end env check outcome p
  call_back of_task sender outcome p = call_end env sender outcome p

  -- `_execute_handler`
  unfoldable pub execute_handler : MsgId → Handler A → Callback → A → Protocol A → Protocol A
  unfolding call_back
  execute_handler msg_id (sync call) callback params p =
      let (done, p') = call params p in call_back false callback (outcome_of done) p'
  execute_handler msg_id coroutine callback params p = keep msg_id task callback p
  execute_handler msg_id thread callback params p = keep msg_id queued callback p

  unfoldable pub execute_feature : MsgId → Feature A → Callback → A → Protocol A → Bool × Protocol A
  unfolding execute_handler run_generator advance
  execute_feature msg_id (plain h) callback params p =
      (true, execute_handler msg_id h callback params p)
  execute_feature msg_id (generator left start) callback params p =
      let fid = length p.futures in
      run_generator (advance left fid (start params)) fid false none
        (keep msg_id awaiting callback p)
