-- ===== src/Rpc/Answers.antt =====
-- The end of a request (pygls/protocol/json_rpc.py) is its answer.
use pygls.Prelude.{
  ℕ, ◌+◌, ◌≡◌, ◌⊎◌, sym, ap, inl, inr, true, Option, none, some, arith, String, get_elem?,
}
use mathlib.Core.Path.{subst}
use pygls.Prelude.Dict
use pygls.Rpc.{
  MsgId, eq_id, id_eq, rpc, other, Settled, result, failed, cancelled, FutureState, queued, running,
  task, awaiting, settled, respond, Future, Protocol, Raised, Message, response, error_response,
}
use pygls.Rpc.Send.{
  Env, set_future, send_data, send_typed, send_result, send_failure, recover, send_settled,
  send_handler_result, call_end, none_called,
}
use pygls.Rpc.Generator.{call_back}
use pygls.Rpc.Handle.{
  is_task, settle_future, finish, finish_at, finish_state, cancel_found, cancel_at, cancel_popped,
  handle_cancel_notification,
}
use pygls.Rpc.Tally.{IsTrusted, responses, owed, one_if, Adds-call_end}

module _ {A : Type 0} (env : Env A) where
  futures-send_data : (m : Message A) (p : Protocol A) → (send_data env m p).futures ≡ p.futures
  unfolding send_data
  futures-send_data m p = ground arith

  futures-send_failure :
      (i : MsgId) (exc : Raised A) (p : Protocol A) → (send_failure env i exc p).futures ≡ p.futures
  unfolding send_failure
  futures-send_failure i (rpc exc) p = futures-send_data (error_response i _) p
  futures-send_failure i (other t) p = futures-send_data (error_response i _) p

  futures-recover :
      (i : MsgId) (ty : Option (Option String)) (value : A) (p : Protocol A)
      → (recover env i (send_typed env ty i value p)).futures ≡ p.futures
  unfolding recover send_typed
  futures-recover i (some none) value p = futures-send_failure i none_called p
  futures-recover i (some (some t)) value p = futures-send_data (response i value) p
  futures-recover i none value p = futures-send_data (response i value) p

  futures-send_settled :
      (i : MsgId) (outcome : Settled A) (p : Protocol A)
      → (send_settled env i outcome p).futures ≡ p.futures
  unfolding send_settled send_result
  futures-send_settled i (result value) p =
      futures-recover i (Dict.get p.result_types i) value
        (record p { result_types = Dict.remove p.result_types i })
  futures-send_settled i (failed exc) p = futures-send_failure i exc p
  futures-send_settled i cancelled p = futures-send_data (error_response i _) p

-- The response for `i` is sent, and no other.
abbrev pub Answers : {A : Type 0} → MsgId → Protocol A → Protocol A → Type 0
Answers i p q = (id : MsgId) → responses id q.sent ≡ responses id p.sent + one_if (eq_id i id)

module _ {A : Type 0} (env : Env A) (trusted : IsTrusted env) where
  call_end-Answers :
      (i : MsgId) (outcome : Settled A) (p : Protocol A)
      → p.has_writer ≡ true
      → Answers i p (call_end env (respond i) outcome p)
  unfolding call_end send_handler_result
  call_end-Answers i outcome p w id =
      let q = record p { request_futures = Dict.remove p.request_futures i } in
      let grown = (Adds-call_end env trusted id (respond i) outcome p w).grows in
      let kept = ap (λ fs. owed id fs) (futures-send_settled env i outcome q) in
      omega (arith, grown, kept)

  settle_future-Answers :
      (fid : ℕ) (f : Future A) (i : MsgId) (outcome : Settled A) (p : Protocol A)
      → p.has_writer ≡ true
      → f.callback ≡ respond i
      → Answers i p (settle_future env fid f outcome p)
  unfolding settle_future call_back
  settle_future-Answers fid f i outcome p w c =
      let g = record f { state = settled outcome } in
      let q = record p { futures = set_future p.futures fid g } in
      subst (λ b. Answers i p (call_back env (is_task f.state) b outcome q)) (sym c)
        (call_end-Answers i outcome q w)

  -- In trusted surroundings and with a writer: the end of a job or a task that serves a request
  -- sends one response to the request, and no other response.
  pub finish-Answers :
      (fid : ℕ) (f : Future A) (i : MsgId) (outcome : Settled A) (p : Protocol A)
      → p.has_writer ≡ true
      → get_elem? p.futures fid ≡ some f
      → f.callback ≡ respond i
      → (f.state ≡ queued) ⊎ ((f.state ≡ running) ⊎ (f.state ≡ task))
      → Answers i p (finish env fid outcome p)
  unfolding finish finish_at finish_state
  finish-Answers fid f i outcome p w here c open_ = rw here (elim open_ [
    | inl s ↦ subst Ends (sym s) ends
    | inr (inl s) ↦ subst Ends (sym s) ends
    | inr (inr s) ↦ subst Ends (sym s) ends
  ])
    where
      Ends : FutureState A → Type 0
      Ends s = Answers i p (finish_state env fid f s outcome p)

      ends : Answers i p (settle_future env fid f outcome p)
      ends = settle_future-Answers fid f i outcome p w c

  -- In trusted surroundings and with a writer: the notification that cancels a request that has not
  -- started, or that a generator serves, sends one response to the request, and no other response.
  pub cancel-Answers :
      (fid : ℕ) (f : Future A) (i : MsgId) (p : Protocol A)
      → p.has_writer ≡ true
      → Dict.get p.request_futures i ≡ some fid
      → get_elem? p.futures fid ≡ some f
      → f.callback ≡ respond i
      → (f.state ≡ queued) ⊎ (f.state ≡ awaiting)
      → Answers i p (handle_cancel_notification env i p)
  unfolding handle_cancel_notification cancel_popped cancel_at cancel_found
  cancel-Answers fid f i p w kept here c open_ =
      rw (kept, here)
        (elim open_ [ inl s ↦ subst Ends (sym s) ends | inr s ↦ subst Ends (sym s) ends ])
    where
      q : Protocol A
      q = record p { request_futures = Dict.remove p.request_futures i }

      Ends : FutureState A → Type 0
      Ends s = Answers i p (cancel_found env fid f s q)

      ends : Answers i p (settle_future env fid f cancelled q)
      ends = settle_future-Answers fid f i cancelled q w c
