-- ===== src/Tests/Replies.antt =====
-- A request of one's own and the replies to it, at concrete inputs.
use pygls.Prelude.{ℕ, ◌≡◌, refl, true, List, [], ◌∷◌, Option, some, get_elem?}
use text.Mathlib.Text.{◌==◌ as str_eq}
use pygls.Prelude.Dict
use pygls.Prelude.Eq.{string_eq}
use pygls.Prelude.Int.{pos}
use pygls.Rpc.{
  MsgId, int, id_eq, Protocol, result, awaiting, in_request, in_notification, in_response,
  rpc_exception,
}
use pygls.Rpc.Send.{send_data, send_result}
use pygls.Rpc.Handle.{get_handler, send_request, handle_message, finish, start}
use pygls.Rpc.Receive.{decode, receive}
use pygls.Rpc.Shutdown.Dropped.{OnlyReports, after_shutdown}
use pygls.Rpc.OneResponse.{arrived, Event, received, started, finished, requested, steps}
use pygls.Rpc.Replies.{own, first_reply}
use pygls.Tests.Protocol.{an_env, idle}

abbrev its_id : MsgId
its_id = int (pos 7)

asking : Protocol ℕ
asking = (send_request an_env "window/showDocument" 3 (some its_id) idle).1

-- While the request waits, one of the other side is served by a thread, one by a generator that yields to
-- a job, another of one's own is sent,
-- and a response comes for an id that nobody knows. Of the two responses that come then, and the
-- cancellation, the first counts.
abbrev events : List (Event ℕ)
events =
    received "2.0" (in_request (int (pos 1)) "slow" 5)
    ∷ started 1
    ∷ received "2.0" (in_request (int (pos 3)) "twice" 3)
    ∷ finished 3 (result 4)
    ∷ requested "workspace/configuration" 4 (some (int (pos 8)))
    ∷ received "2.0" (in_response (int (pos 9)) 0)
    ∷ finished 1 (result 6)
    ∷ received "2.0" (in_response its_id 42)
    ∷ received "2.0" (in_response its_id 99)
    ∷ received "2.0" (in_notification "$/cancelRequest" 7)
    ∷ []

its_first_reply : first_reply an_env its_id events asking ≡ some (result 42)
unfolding asking send_request steps handle_message finish start get_handler Dict.get Dict.put
    Dict.remove send_data send_result
its_first_reply = refl

-- A request of the other side with the same id takes the entry: the response to one's own request ends
-- the future of the other, and one's own waits on.
clash :
    get_elem?
      (steps an_env
        (received "2.0" (in_request its_id "slow" 5) ∷ received "2.0" (in_response its_id 42) ∷ [])
        asking).futures
      0
    ≡ some (own awaiting)
unfolding asking send_request steps handle_message finish start get_handler Dict.get Dict.put
    Dict.remove send_data send_result
clash = refl

abbrev shut : Protocol ℕ
shut = record idle { shutdown = true }

-- A request as a body, a body that is no JSON, another request that has been structured, and a response.
abbrev late : List (Event ℕ)
late =
    arrived (1 ∷ [])
    ∷ arrived []
    ∷ received "2.0" (in_request (int (pos 2)) "slow" 5)
    ∷ received "2.0" (in_response its_id 42)
    ∷ []

after_shutdown_example : OnlyReports an_env (rpc_exception ∷ []) shut (steps an_env late shut)
unfolding decode receive steps handle_message
after_shutdown_example = after_shutdown an_env late shut refl (refl, (tt, (refl, (refl, tt))))
