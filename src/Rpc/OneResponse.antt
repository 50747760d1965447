-- ===== src/Rpc/OneResponse.antt =====
-- Every request that is accepted is answered once: in any run of the protocol the responses sent for
-- an id, and those still owed by running handlers, are as many as the requests accepted with it.
use pygls.Prelude.{
  ◌↔◌, ℕ, ◌+◌, ◌≤◌, ◌≡◌, refl, ap, ◌∙◌, String, true, List, [], ◌∷◌, Option, none, some, arith,
  if◌then◌else◌, get_elem?, Bool-cases, inl, inr,
}
use pygls.Rpc.{
  MsgId, id_eq, Settled, FutureState, queued, running, task, awaiting, settled, sender, Future,
  Message, Protocol, Incoming, rpc_exception,
}
use pygls.Rpc.Handle.{
  handle_message, notify, send_request, send_request_as, finish, start, start_at, start_state,
}
use pygls.Rpc.Send.{Env, accepts, next_uuid, report}
use pygls.Rpc.Tally.{
  tally, responses, owed, owed_in, owed_by, IsTrusted, Adds, Adds-send_data, Adds-keep,
  owed-set_future,
}
use pygls.Rpc.Runs.{nothing}
use pygls.Rpc.Dispatch.{asks, Adds-dispatch, Adds-finish}
use pygls.Rpc.Values.{Load, loads, fails, Value, structured, string, number, scalar, array, object}
use pygls.Rpc.Receive.{decode, handle_loaded, receive_value, receive}
use pygls.Rpc.Receive.Kept.{OnlyTypes, decode-OnlyTypes}

-- What happens to the protocol, in any order: the body of a message comes in, or a message that has
-- been structured, the thread pool starts a job, a
-- job or a task ends, and the server sends a notification or a request of its own.
pub data Event (A : Type 0) : Type 0 where
  arrived : List ℕ → Event A
  received : String → Incoming A → Event A
  started : ℕ → Event A
  finished : ℕ → Settled A → Event A
  notified : String → A → Event A
  requested : String → A → Option MsgId → Event A

module _ {A : Type 0} (env : Env A) where
  unfoldable pub step : Event A → Protocol A → Protocol A
  step (arrived body) p = (receive env body p).1
  step (received jsonrpc message) p = handle_message env jsonrpc message p
  step (started fid) p = start env fid p
  step (finished fid outcome) p = finish env fid outcome p
  step (notified method params) p = notify env method params p
  step (requested method params msg_id) p = (send_request env method params msg_id p).1

  unfoldable pub steps : List (Event A) → Protocol A → Protocol A
  unfolding step
  steps [] p = p
  steps (e ∷ es) p = steps es (step e p)

  abbrev pub asks_accepted : MsgId → String → Incoming A → Protocol A → ℕ
  asks_accepted id jsonrpc message p = if accepts jsonrpc message p then asks id message else 0

  abbrev pub asks_loaded : MsgId → Load (Value A) × Protocol A → ℕ
  asks_loaded id (loads (structured jsonrpc message), p) = asks_accepted id jsonrpc message p
  asks_loaded id (_, p) = 0

  abbrev pub asks_value : MsgId → Option (Value A) → Protocol A → ℕ
  asks_value id none p = 0
  asks_value id (some v) p = asks_loaded id (decode env v p)

  -- The requests with the id that are accepted by an event, and in a run.
  abbrev pub asked_by : MsgId → Event A → Protocol A → ℕ
  asked_by id (arrived body) p = asks_value id (env.parse body) p
  asked_by id (received jsonrpc message) p = asks_accepted id jsonrpc message p
  asked_by id _ p = 0

  abbrev pub asked : MsgId → List (Event A) → Protocol A → ℕ
  asked id [] p = 0
  asked id (e ∷ es) p = asked_by id e p + asked id es (step e p)

  module _ (trusted : IsTrusted env) (id : MsgId) where
    Adds-start : (fid : ℕ) (p : Protocol A) → p.has_writer ≡ true → Adds id 0 p (start env fid p)
    unfolding start start_at start_state
    Adds-start fid p w = found (get_elem? p.futures fid) refl
      where
        by_state :
            (f : Future A)
            → get_elem? p.futures fid ≡ some f
            → (s : FutureState A) → f.state ≡ s
            → Adds id 0 p (start_state env fid f s p)
        by_state f e queued q = record {
          writer = w;
          grows =
              (let g = record f { state = running } in
                let before : owed_in id f.state f.callback ≡ owed_by id f.callback = rw q refl in
                omega (arith, before, owed-set_future id p.futures fid f g e));
        }
        by_state f e running q = nothing env trusted id p w
        by_state f e task q = nothing env trusted id p w
        by_state f e awaiting q = nothing env trusted id p w
        by_state f e (settled x) q = nothing env trusted id p w

        found :
            (o : Option (Future A))
            → get_elem? p.futures fid ≡ o
            → Adds id 0 p (start_at env fid o p)
        found none e = nothing env trusted id p w
        found (some f) e = by_state f e f.state refl

    Adds-send_request_as :
        (i : MsgId) (method : String) (params : A) (p : Protocol A)
        → p.has_writer ≡ true
        → Adds id 0 p (send_request_as env i method params p).1
    unfolding send_request_as
    Adds-send_request_as i method params p w =
        let k = Adds-keep env trusted id i awaiting sender p w in
        let s = Adds-send_data env trusted id (Message.request i method params) _ k.writer in
        record { writer = s.writer; grows = omega (arith, s.grows, k.grows) }

    Adds-handle_message :
        (jsonrpc : String) (message : Incoming A) (p : Protocol A)
        → p.has_writer ≡ true
        → Adds id (asks_accepted id jsonrpc message p) p (handle_message env jsonrpc message p)
    unfolding handle_message
    Adds-handle_message jsonrpc message p w = elim (Bool-cases (accepts jsonrpc message p)) [
      | inl e ↦ rw e (Adds-dispatch env trusted id message p w)
      | inr e ↦ rw e (nothing env trusted id p w)
    ]

    Adds-OnlyTypes : (p q : Protocol A) → OnlyTypes p q → p.has_writer ≡ true → Adds id 0 p q
    Adds-OnlyTypes p q h w = record {
      writer = ap (λ s. s.has_writer) h ∙ w;
      grows = omega (arith, ap (λ s. tally id s) h);
    }

    Adds-receive :
        (body : List ℕ) (p : Protocol A)
        → p.has_writer ≡ true
        → Adds id (asks_value id (env.parse body) p) p (receive env body p).1
    unfolding receive receive_value handle_loaded
    Adds-receive body p w = by_value (env.parse body)
      where
        refused : (q : Protocol A) → Adds id 0 p q → Adds id 0 p (report rpc_exception q)
        refused q k = record { writer = k.writer; grows = k.grows }

        loaded :
            (r : Load (Value A) × Protocol A)
            → Adds id 0 p r.1
            → Adds id (asks_loaded id r) p (handle_loaded env r).1
        loaded (fails e, q) k = refused q k
        loaded (loads (structured jsonrpc message), q) k =
            let s = Adds-handle_message jsonrpc message q k.writer in
            record { writer = s.writer; grows = omega (arith, s.grows, k.grows) }
        loaded (loads (array items), q) k = refused q k
        loaded (loads (object obj), q) k = refused q k
        loaded (loads (string s), q) k = refused q k
        loaded (loads (number n), q) k = refused q k
        loaded (loads (scalar a), q) k = refused q k

        by_value : (o : Option (Value A)) → Adds id (asks_value id o p) p (receive_value env o p).1
        by_value none = refused p (nothing env trusted id p w)
        by_value (some v) =
            loaded (decode env v p)
              (Adds-OnlyTypes p (decode env v p).1 (decode-OnlyTypes env v p) w)

    Adds-step :
        (e : Event A) (p : Protocol A)
        → p.has_writer ≡ true
        → Adds id (asked_by id e p) p (step e p)
    unfolding step notify send_request
    Adds-step (arrived body) p w = Adds-receive body p w
    Adds-step (received jsonrpc message) p w = Adds-handle_message jsonrpc message p w
    Adds-step (started fid) p w = Adds-start fid p w
    Adds-step (finished fid outcome) p w = Adds-finish env trusted id fid outcome p w
    Adds-step (notified method params) p w =
        Adds-send_data env trusted id (Message.notification method params) p w
    Adds-step (requested method params (some i)) p w = Adds-send_request_as i method params p w
    Adds-step (requested method params none) p w =
        let s = Adds-send_request_as _ method params (next_uuid p) w in
        record { writer = s.writer; grows = s.grows }

    -- In trusted surroundings and with a writer: whatever happens, in whatever order, the responses
    -- sent for an id and those still owed for it grow by exactly the number of requests accepted with
    -- that id.
    pub tally-steps :
        (es : List (Event A)) (p : Protocol A)
        → p.has_writer ≡ true
        → tally id (steps es p) ≡ tally id p + asked id es p
    unfolding steps
    tally-steps [] p w = omega arith
    tally-steps (e ∷ es) p w =
        let s = Adds-step e p w in omega (arith, s.grows, tally-steps es (step e p) s.writer)

    -- In trusted surroundings, with a writer, and for an id for which nothing has been sent or is owed:
    -- a client that uses the id once is never answered twice, and it has been answered exactly if
    -- nothing is owed for the id any more.
    pub one_response :
        (es : List (Event A)) (p : Protocol A)
        → p.has_writer ≡ true
        → tally id p ≡ 0
        → asked id es p ≡ 1
        → (responses id (steps es p).sent ≤ 1)
          × ((owed id (steps es p).futures ≡ 0) ↔ (responses id (steps es p).sent ≡ 1))
    one_response es p w fresh once =
        let t = tally-steps es p w in
        (omega (arith, t), (λ h. omega (arith, t), λ h. omega (arith, t)))
