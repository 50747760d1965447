-- ===== src/Tests/Session.antt =====
-- The end of a session and of its requests (pygls/protocol/json_rpc.py and language_server.py) at
-- concrete inputs.
use pygls.Prelude.{ℕ, ◌≡◌, refl, true, false, [], ◌∷◌, some, inl, inr}
use pygls.Prelude.Dict
use pygls.Prelude.Int.{pos}
use pygls.Rpc.{
  MsgId, int, id_eq, Protocol, raised, other, result, Future, queued, running, awaiting, respond,
}
use pygls.Rpc.Handle.{finish, handle_cancel_notification}
use pygls.Rpc.Shutdown.{lsp_shutdown}
use pygls.Rpc.Shutdown.Waiting.{lsp_shutdown-waiting}
use pygls.Rpc.Answers.{Answers, finish-Answers, cancel-Answers}
use pygls.Rpc.{in_request}
use pygls.Rpc.Values.{field, end, object, loads, structured}
use pygls.Rpc.Receive.{decode, structure_message}
use pygls.Rpc.{sender}
use pygls.Rpc.ServerExit.{Client, server_exit}
use pygls.Rpc.ServerExit.Pending.{AllEnded, server_exit-AllEnded}
use pygls.Prelude.{map, concat, arith}
use pygls.Framing.{frame}
use pygls.Transport.{serve_stream, serve_websocket}
use pygls.Transport.Same.{serve_stream-frames}
use pygls.Tests.Protocol.{request_object, an_env, an_env-IsTrusted, idle}

abbrev one : MsgId
one = int (pos 1)

abbrev nine : MsgId
nine = int (pos 9)

-- The shutdown itself, under the id 9, and another request.
abbrev shutting_down : Future ℕ
shutting_down = record { state = awaiting; callback = respond nine }

abbrev with_request : Future ℕ → Protocol ℕ
with_request f = record idle {
  futures = shutting_down ∷ f ∷ [];
  request_futures = record { entries = (nine, 0) ∷ (one, 1) ∷ [] };
}

abbrev started_job : Future ℕ
started_job = record { state = running; callback = respond one }

abbrev queued_job : Future ℕ
queued_job = record { state = queued; callback = respond one }

abbrev Started : Future ℕ → Type 0
Started f = (f.state ≡ queued → ⊥) × (f.state ≡ awaiting → ⊥)

lsp_shutdown-waiting_example :
    ((lsp_shutdown an_env (some nine) 0 (with_request queued_job)).0
      ≡ raised (other "RuntimeError: dictionary changed size during iteration"))
    × ((lsp_shutdown an_env (some nine) 0 (with_request queued_job)).1.shutdown ≡ false)
unfolding Dict.get
lsp_shutdown-waiting_example =
    lsp_shutdown-waiting an_env (some nine) 0 (with_request queued_job) ((nine, 0) ∷ []) [] one 1
      refl (λ e. absurd cc, tt) refl (queued_job, refl, inl refl, refl, refl)

finish-Answers_example :
    Answers one (with_request started_job) (finish an_env 1 (result 5) (with_request started_job))
finish-Answers_example =
    finish-Answers an_env an_env-IsTrusted 1 started_job one (result 5) (with_request started_job)
      refl refl refl (inr (inl refl))

cancel-Answers_example :
    Answers one
      (with_request queued_job)
      (handle_cancel_notification an_env one (with_request queued_job))
unfolding Dict.get
cancel-Answers_example =
    cancel-Answers an_env an_env-IsTrusted 1 queued_job one (with_request queued_job) refl refl refl
      refl (inl refl)

-- An inner object with a version is taken for a message: here the params of a request, which themselves
-- look like one.
nested_message : decode an_env (object (field "params" (object (request_object 3)) end)) idle ≡ (
  loads (object (field "params" (structured "2.0" (in_request (int (pos 3)) "slow" 5)) end)),
  idle,
)
unfolding decode structure_message
nested_message = refl

-- A client that waits for one response.
abbrev own_request : Future ℕ
own_request = record { state = awaiting; callback = sender }

abbrev waiting_client : Client ℕ
waiting_client = record {
  protocol = record idle {
    futures = own_request ∷ [];
    request_futures = record { entries = (one, 0) ∷ [] };
  };
  stop_event = false;
}

server_exit-AllEnded_example :
    (q : Protocol ℕ) × (server_exit an_env "exited" (λ p. p) waiting_client
      ≡ (true, record { protocol = q; stop_event = true }))
    × (q ≡ record (waiting_client.protocol) { futures = q.futures })
    × AllEnded q.futures ((one, 0) ∷ [])
server_exit-AllEnded_example =
    server_exit-AllEnded an_env "exited" (λ p. p) waiting_client
      (inr (own_request, refl, refl, refl), tt)

-- A request that is handled, and one whose params do not fit.
serve_stream-frames_example :
    serve_stream an_env (λ p. p.shutdown) 8 (concat (map frame ((1 ∷ []) ∷ (9 ∷ []) ∷ []))) idle
    ≡ some (serve_websocket an_env (λ p. p.shutdown) ((1 ∷ []) ∷ (9 ∷ []) ∷ []) idle)
serve_stream-frames_example =
    serve_stream-frames an_env (λ p. p.shutdown) 8 ((1 ∷ []) ∷ (9 ∷ []) ∷ []) idle
      ((λ e. cc), ((λ e. cc), tt)) (omega arith)
