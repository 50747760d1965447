-- ===== src/Rpc/Handle.antt =====
-- pygls/protocol/json_rpc.py: the operations of `JsonRPCProtocol`.
use pygls.Prelude.{
  Bool, true, false, ℕ, String, Option, none, some, if◌then◌else◌, length, get_elem?,
}
use text.Mathlib.Text.{◌==◌ as str_eq}
use pygls.Prelude.Eq.{string_eq}
use pygls.Prelude.Dict
use pygls.Prelude.Dict.{Dict}
use pygls.Errors.{of, to_response_error, exceptions, from_error, method_not_found}
use pygls.Rpc.{
  MsgId, str, id_eq, rpc, Settled, result, failed, cancelled, FutureState, queued, running, task,
  awaiting, settled, respond, check, sender, Future, notification, request, feature_request,
  feature_notification, Feature, Protocol, Incoming, in_request, in_notification, in_response,
  in_error,
}
use pygls.Rpc.Send.{
  Env, set_future, report, keep, next_uuid, accepts, send_data, send_error, internal_of,
}
use pygls.Rpc.Generator.{call_back, execute_feature}

abbrev pub is_task : {A : Type 0} → FutureState A → Bool
is_task task = true
is_task _ = false

module _ {A : Type 0} (env : Env A) where
  -- `none` is the exception JsonRpcMethodNotFound.
  unfoldable pub get_handler : String → Option (Feature A)
  get_handler name = elim (Dict.get env.builtin_features name) [
    | some h ↦ some h
    | none ↦ Dict.get env.features name
  ]

  -- The end of a future that has not ended yet, and its callback.
  unfoldable pub settle_future : ℕ → Future A → Settled A → Protocol A → Protocol A
  settle_future fid f outcome p =
      call_back env (is_task f.state) f.callback outcome
        (record p { futures = set_future p.futures fid (record f { state = settled outcome }) })

  -- future.cancel(): it ends a job that has not started and a future that is settled by hand; a task is
  -- only asked to end.
  unfoldable pub cancel_found : ℕ → Future A → FutureState A → Protocol A → Protocol A
  unfolding settle_future
  cancel_found fid f queued p = settle_future fid f cancelled p
  cancel_found fid f awaiting p = settle_future fid f cancelled p
  cancel_found fid f _ p = p

  unfoldable pub cancel_at : ℕ → Option (Future A) → Protocol A → Protocol A
  unfolding cancel_found
  cancel_at fid none p = p
  cancel_at fid (some f) p = cancel_found fid f f.state p

  unfoldable pub cancel_popped : Option ℕ → Protocol A → Protocol A
  unfolding cancel_at
  cancel_popped none p = p
  cancel_popped (some fid) p = cancel_at fid (get_elem? p.futures fid) p

  unfoldable pub handle_cancel_notification : MsgId → Protocol A → Protocol A
  unfolding cancel_popped
  handle_cancel_notification msg_id p =
      cancel_popped (Dict.get p.request_futures msg_id)
        (record p { request_futures = Dict.remove p.request_futures msg_id })

  -- A notification for an unknown method is ignored. An exception of `_execute_handler`, which only a
  -- generator's result future that has ended can raise, is reported.
  unfoldable pub notify_done : Bool × Protocol A → Protocol A
  notify_done (true, p) = p
  notify_done (false, p) = report feature_notification p

  unfoldable pub notify_handler : Option (Feature A) → A → Protocol A → Protocol A
  unfolding execute_feature notify_done
  notify_handler none params p = p
  notify_handler (some h) params p =
      notify_done (execute_feature env (str (env.uuid p.uuids)) h check params (next_uuid p))

  unfoldable pub handle_notification : String → A → Protocol A → Protocol A
  unfolding handle_cancel_notification notify_handler
  handle_notification method params p =
      if str_eq method "$/cancelRequest"
      then handle_cancel_notification (env.cancel_id params) p
      else notify_handler (get_handler method) params p

  unfoldable pub request_done : MsgId → Bool × Protocol A → Protocol A
  request_done msg_id (true, p) = p
  request_done msg_id (false, p) =
      report feature_request (send_error env msg_id (internal_of env "InvalidStateError") p)

  unfoldable pub request_handler : Option (Feature A) → MsgId → String → A → Protocol A → Protocol A
  unfolding execute_feature request_done
  request_handler none msg_id method params p =
      report feature_request
        (send_error env msg_id (to_response_error (of method_not_found method)) p)
  request_handler (some h) msg_id method params p =
      request_done msg_id (execute_feature env msg_id h (respond msg_id) params p)

  unfoldable pub handle_request : MsgId → String → A → Protocol A → Protocol A
  unfolding request_handler
  handle_request msg_id method params p =
      request_handler (get_handler method) msg_id method params p

  -- future.set_result, future.set_exception: on a task and on a future that has ended they raise,
  -- and nothing is changed.
  unfoldable pub set_outcome : ℕ → Future A → FutureState A → Settled A → Protocol A → Protocol A
  unfolding settle_future
  set_outcome fid f task outcome p = p
  set_outcome fid f (settled s) outcome p = p
  set_outcome fid f _ outcome p = settle_future fid f outcome p

  unfoldable pub set_outcome_at : ℕ → Option (Future A) → Settled A → Protocol A → Protocol A
  unfolding set_outcome
  set_outcome_at fid none outcome p = p
  set_outcome_at fid (some f) outcome p = set_outcome fid f f.state outcome p

  unfoldable pub set_popped : Option ℕ → Settled A → Protocol A → Protocol A
  unfolding set_outcome_at
  set_popped none outcome p = p
  set_popped (some fid) outcome p = set_outcome_at fid (get_elem? p.futures fid) outcome p

  unfoldable pub handle_response : MsgId → Settled A → Protocol A → Protocol A
  unfolding set_popped
  handle_response msg_id outcome p =
      set_popped (Dict.get p.request_futures msg_id) outcome
        (record p { request_futures = Dict.remove p.request_futures msg_id })

  unfoldable pub dispatch : Incoming A → Protocol A → Protocol A
  unfolding handle_request handle_notification handle_response
  dispatch (in_request msg_id method params) p = handle_request msg_id method params p
  dispatch (in_notification method params) p = handle_notification method params p
  dispatch (in_response msg_id value) p = handle_response msg_id (result value) p
  dispatch (in_error msg_id error) p =
      handle_response msg_id (failed (rpc (from_error exceptions error))) p

  unfoldable pub handle_message : String → Incoming A → Protocol A → Protocol A
  unfolding dispatch
  handle_message jsonrpc message p = if accepts jsonrpc message p then dispatch message p else p

  unfoldable pub notify : String → A → Protocol A → Protocol A
  unfolding send_data
  notify method params p = send_data env (notification method params) p

  -- Under the id given, or a new one; the answer is the future.
  unfoldable pub send_request_as : MsgId → String → A → Protocol A → ℕ × Protocol A
  unfolding send_data
  send_request_as msg_id method params p = (
    length p.futures,
    send_data env (request msg_id method params) (record (keep msg_id awaiting sender p) {
      result_types = Dict.put p.result_types msg_id (env.result_type method);
    }),
  )

  unfoldable pub send_request : String → A → Option MsgId → Protocol A → ℕ × Protocol A
  unfolding send_request_as
  send_request method params (some msg_id) p = send_request_as msg_id method params p
  send_request method params none p =
      send_request_as (str (env.uuid p.uuids)) method params (next_uuid p)

  -- The end of a job or of a task, which comes when the pool or the event loop has run it.
  unfoldable pub finish_state : ℕ → Future A → FutureState A → Settled A → Protocol A → Protocol A
  unfolding settle_future
  finish_state fid f (settled s) outcome p = p
  finish_state fid f awaiting outcome p = p
  finish_state fid f _ outcome p = settle_future fid f outcome p

  unfoldable pub finish_at : ℕ → Option (Future A) → Settled A → Protocol A → Protocol A
  unfolding finish_state
  finish_at fid none outcome p = p
  finish_at fid (some f) outcome p = finish_state fid f f.state outcome p

  unfoldable pub finish : ℕ → Settled A → Protocol A → Protocol A
  unfolding finish_at
  finish fid outcome p = finish_at fid (get_elem? p.futures fid) outcome p

  -- A job of the pool starts, and can no longer be cancelled.
  unfoldable pub start_state : ℕ → Future A → FutureState A → Protocol A → Protocol A
  unfolding set_future
  start_state fid f queued p = record p {
    futures = set_future p.futures fid (record f { state = running });
  }
  start_state fid f _ p = p

  unfoldable pub start_at : ℕ → Option (Future A) → Protocol A → Protocol A
  unfolding start_state
  start_at fid none p = p
  start_at fid (some f) p = start_state fid f f.state p

  unfoldable pub start : ℕ → Protocol A → Protocol A
  unfolding start_at
  start fid p = start_at fid (get_elem? p.futures fid) p
