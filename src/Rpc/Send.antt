-- ===== src/Rpc/Send.antt =====
-- pygls/protocol/json_rpc.py: what `JsonRPCProtocol` sends, and the callbacks that send it.
use pygls.Prelude.{
  ℕ, zero, suc, ◌+◌, String, Bool, true, false, not, ◌&&◌, List, [], ◌∷◌, ◌++◌, Option, none, some,
  if◌then◌else◌, length,
}
use text.Mathlib.Text.{◌==◌ as str_eq}
use Prim.Native.String.{◌++◌ as ◌++s◌}
use pygls.Prelude.Eq.{string_eq}
use pygls.Prelude.Dict
use pygls.Prelude.Dict.{Dict}
use pygls.Errors.{ResponseError, exception, to_response_error, internal_error, request_cancelled}
use pygls.Rpc.Values.{Value, Fields, Shape, Converted}
use pygls.Rpc.{
  MsgId, id_eq, Raised, rpc, other, Settled, result, failed, cancelled, FutureState, Callback,
  respond, check, sender, resume, Future, Turn, Feature, Message, response, error_response, Source,
  feature_request, feature_notification, internal, Protocol, Done, returned, raised, Incoming,
  in_request, in_notification,
}

module _ {A : Type 0} where
  -- futures[i] = f, on the heap
  unfoldable pub set_future : List (Future A) → ℕ → Future A → List (Future A)
  set_future [] i f = []
  set_future (g ∷ gs) zero f = f ∷ gs
  set_future (g ∷ gs) (suc i) f = g ∷ set_future gs i f

  abbrev pub report : Source → Protocol A → Protocol A
  report s p = record p { reports = p.reports ++ s ∷ [] }

  -- A future that is created by the protocol and kept under an id.
  abbrev pub keep : MsgId → FutureState A → Callback → Protocol A → Protocol A
  keep msg_id state callback p = record p {
    futures = p.futures ++ record { state = state; callback = callback } ∷ [];
    request_futures = Dict.put p.request_futures msg_id (length p.futures);
  }

  abbrev pub outcome_of : Done A → Settled A
  outcome_of (returned value) = result value
  outcome_of (raised exc) = failed exc

  abbrev pub next_uuid : Protocol A → Protocol A
  next_uuid p = record p { uuids = p.uuids + 1 }

  -- getattr(message, "method", "")
  abbrev pub method_of : Incoming A → String
  method_of (in_request msg_id method params) = method
  method_of (in_notification method params) = method
  method_of _ = ""

  -- Whether `handle_message` passes a message on.
  abbrev pub accepts : String → Incoming A → Protocol A → Bool
  accepts jsonrpc message p =
      str_eq jsonrpc "2.0" && not (p.shutdown && not (str_eq (method_of message) "exit"))

-- The exception of calling `None`.
abbrev pub none_called : {A : Type 0} → Raised A
none_called = other "TypeError: 'NoneType' object is not callable"

-- What the protocol takes from elsewhere: whether `json.dumps` and the writer accept a message, the
-- traceback of an exception as data, the types that lsprotocol gives to results, the texts of
-- uuids, the text of an id, the id in the params of `$/cancelRequest`, the registered handlers, and the
-- bodies of generators: `gen.send` in a state, of the run with a result future, where the generator may
-- yield again, and where it yields no more. For what comes in: `json.loads` without its hook, the type
-- that lsprotocol gives to the messages of a method, the converter, and the id to which a Boolean, null
-- or a number with a fraction is equal.
pub record Env (A : Type 0) : Type 0 where
  pub writes : Message A → Bool
  pub traceback : String → Option A
  pub result_type : String → Option String
  pub uuid : ℕ → String
  pub show_id : MsgId → String
  pub cancel_id : A → MsgId
  pub builtin_features : Dict String (Feature A)
  pub features : Dict String (Feature A)
  pub send_generator : ℕ → ℕ → Option A → Protocol A → Turn A × Protocol A
  pub parse : List ℕ → Option (Value A)
  pub message_type : String → Option String
  pub convert : Shape → Fields A → Converted A
  pub equal_id : A → Option MsgId
  pub end_generator : ℕ → ℕ → Option A → Protocol A → Done A × Protocol A

module _ {A : Type 0} (env : Env A) where
  -- The exceptions that `_send_data` catches are those of `json.dumps` and of the writer.
  unfoldable pub send_data : Message A → Protocol A → Protocol A
  send_data m p =
      if p.has_writer
      then (if env.writes m then record p { sent = p.sent ++ m ∷ [] } else report internal p)
      else p

  abbrev pub send_error : MsgId → ResponseError A → Protocol A → Protocol A
  send_error msg_id error p = send_data (error_response msg_id error) p

  -- `_send_response` with a result. The type that is popped may be `None`, whose call raises a
  -- TypeError: then nothing is sent, and the answer is `false`.
  unfoldable pub send_typed : Option (Option String) → MsgId → A → Protocol A → Bool × Protocol A
  send_typed (some none) msg_id value p = (false, p)
  send_typed _ msg_id value p = (true, send_data (response msg_id value) p)

  unfoldable pub send_result : MsgId → A → Protocol A → Bool × Protocol A
  unfolding send_typed
  send_result msg_id value p =
      send_typed (Dict.get p.result_types msg_id) msg_id value
        (record p { result_types = Dict.remove p.result_types msg_id })

  -- JsonRpcInternalError.of(sys.exc_info())
  abbrev pub internal_of : String → ResponseError A
  internal_of t = to_response_error (exception internal_error (some t) none (env.traceback t))

  -- The `except` clauses of `_send_handler_result`.
  unfoldable pub send_failure : MsgId → Raised A → Protocol A → Protocol A
  send_failure msg_id (rpc exc) p =
      report feature_request (send_error msg_id (to_response_error exc) p)
  send_failure msg_id (other t) p = report feature_request (send_error msg_id (internal_of t) p)

  unfoldable pub recover : MsgId → Bool × Protocol A → Protocol A
  unfolding send_failure
  recover msg_id (true, p) = p
  recover msg_id (false, p) = send_failure msg_id none_called p

  unfoldable pub send_settled : MsgId → Settled A → Protocol A → Protocol A
  unfolding recover send_failure
  send_settled msg_id (result value) p = recover msg_id (send_result msg_id value p)
  send_settled msg_id (failed exc) p = send_failure msg_id exc p
  send_settled msg_id cancelled p =
      send_error msg_id
        (to_response_error (
          exception request_cancelled
            (some ("Request with id \"" ++s (env.show_id msg_id ++s "\" is canceled"))) none none))
        p

  unfoldable pub send_handler_result : MsgId → Settled A → Protocol A → Protocol A
  unfolding send_settled
  send_handler_result msg_id outcome p =
      send_settled msg_id outcome
        (record p { request_futures = Dict.remove p.request_futures msg_id })

  unfoldable pub check_handler_result : Settled A → Protocol A → Protocol A
  check_handler_result (failed exc) p = report feature_notification p
  check_handler_result _ p = p

  -- The callbacks other than `_run_generator`.
  unfoldable pub call_end : Callback → Settled A → Protocol A → Protocol A
  unfolding send_handler_result check_handler_result
  call_end (respond msg_id) outcome p = send_handler_result msg_id outcome p
  call_end check outcome p = check_handler_result outcome p
  call_end sender outcome p = p
  call_end (resume left code fid) outcome p = p
