-- ===== src/Rpc/Tally.antt =====
-- The responses that have been sent for an id, and those that are still owed: what each operation
-- of the protocol adds to the two together.
use pygls.Prelude.{
  ℕ, zero, suc, ◌+◌, ◌≡◌, String, Bool, true, false, List, [], ◌∷◌, ◌++◌, Option, none, some, arith,
  get_elem?,
}
use pygls.Prelude.Dict
use pygls.Prelude.Dict.{Dict}
use mathlib.Core.Option.{some-injective}
use pygls.Rpc.{
  resume, Turn, yields, stops, Feature, plain, generator, awaiting, MsgId, eq_id, id_eq, Raised,
  rpc, other, Settled, result, failed, cancelled, FutureState, settled, Callback, respond, check,
  sender, Future, Message, response, error_response, notification, request, Source, Protocol,
  Handler, sync, coroutine, thread,
}
use pygls.Rpc.Handle.{get_handler}
use pygls.Rpc.Send.{
  Env, none_called, report, send_data, send_typed, send_result, send_failure, recover, send_settled,
  send_handler_result, check_handler_result, call_end, keep, set_future,
}

abbrev pub one_if : Bool → ℕ
one_if true = 1
one_if false = 0

module _ {A : Type 0} (id : MsgId) where
  abbrev pub answers : Message A → ℕ
  answers (response i value) = one_if (eq_id i id)
  answers (error_response i error) = one_if (eq_id i id)
  answers (notification method params) = 0
  answers (request i method params) = 0

  -- The responses for the id among the messages.
  abbrev pub responses : List (Message A) → ℕ
  responses [] = 0
  responses (m ∷ ms) = answers m + responses ms

abbrev pub owed_by : MsgId → Callback → ℕ
owed_by id (respond i) = one_if (eq_id i id)
owed_by id check = 0
owed_by id sender = 0
owed_by id (resume left code fid) = 0

module _ {A : Type 0} where
  -- What a future will still send: a response, if it is a request's and has not ended.
  abbrev pub owed_in : MsgId → FutureState A → Callback → ℕ
  owed_in id (settled s) callback = 0
  owed_in id _ callback = owed_by id callback

  abbrev pub owed : MsgId → List (Future A) → ℕ
  owed id [] = 0
  owed id (f ∷ fs) = owed_in id f.state f.callback + owed id fs

  abbrev pub tally : MsgId → Protocol A → ℕ
  tally id p = responses id p.sent + owed id p.futures

  responses-append :
      (id : MsgId) (ms : List (Message A)) (m : Message A)
      → responses id (ms ++ m ∷ []) ≡ responses id ms + answers id m
  responses-append id [] m = omega arith
  responses-append id (n ∷ ms) m = omega (arith, responses-append id ms m)

  owed-append :
      (id : MsgId) (fs : List (Future A)) (f : Future A)
      → owed id (fs ++ f ∷ []) ≡ owed id fs + owed_in id f.state f.callback
  owed-append id [] f = omega arith
  owed-append id (g ∷ fs) f = omega (arith, owed-append id fs f)

  pub owed-set_future :
      (id : MsgId) (fs : List (Future A)) (i : ℕ) (f g : Future A)
      → get_elem? fs i ≡ some f
      → owed id (set_future fs i g) + owed_in id f.state f.callback
        ≡ owed id fs + owed_in id g.state g.callback
  unfolding set_future
  owed-set_future id [] i f g h = cc
  owed-set_future id (k ∷ fs) zero f g h =
      let e : k ≡ f = some-injective k f h in rw e (omega arith)
  owed-set_future id (k ∷ fs) (suc i) f g h = omega (arith, owed-set_future id fs i f g h)

-- From one state to the next the writer stays, and so does what is sent or owed for every id.
pub record Quiet {A : Type 0} (p q : Protocol A) : Type 0 where
  pub writer : q.has_writer ≡ true
  pub same : (id : MsgId) → tally id q ≡ tally id p

abbrev pub QuietHandler : {A : Type 0} → Handler A → Type 0
QuietHandler (sync call) =
    (params : _) (p : Protocol _) → p.has_writer ≡ true → Quiet p (call params p).1
QuietHandler coroutine = Unit
QuietHandler thread = Unit

abbrev pub QuietFeature : {A : Type 0} → Feature A → Type 0
QuietFeature (plain h) = QuietHandler h
QuietFeature (generator left start) = Unit

abbrev pub QuietTurn : {A : Type 0} → Turn A → Type 0
QuietTurn (yields h params code) = QuietHandler h
QuietTurn (stops done) = Unit

-- The future is still to be settled by hand.
abbrev pub IsAwaiting : {A : Type 0} → ℕ → Protocol A → Type 0
IsAwaiting {A} fid p = (f : Future A) × (get_elem? p.futures fid ≡ some f) × (f.state ≡ awaiting)

-- What is assumed of the surroundings: every message can be written; a synchronous handler, one that is
-- registered or one that a generator yields to, leaves the writer in place, and neither sends a
-- response nor ends a future of a request; the same holds of the body of a generator, which also does
-- not end its own result future.
pub record IsTrusted {A : Type 0} (env : Env A) : Type 0 where
  pub written : (m : Message A) → env.writes m ≡ true
  pub registered :
      (method : String) (f : Feature A) → get_handler env method ≡ some f → QuietFeature f
  pub yielded :
      (code fid : ℕ) (value : Option A) (p : Protocol A)
      → QuietTurn (env.send_generator code fid value p).0
  pub sends :
      (code fid : ℕ) (value : Option A) (p : Protocol A)
      → p.has_writer ≡ true
      → Quiet p (env.send_generator code fid value p).1
  pub ends :
      (code fid : ℕ) (value : Option A) (p : Protocol A)
      → p.has_writer ≡ true
      → Quiet p (env.end_generator code fid value p).1
  pub sends_on :
      (code fid : ℕ) (value : Option A) (p : Protocol A)
      → IsAwaiting fid p
      → IsAwaiting fid (env.send_generator code fid value p).1
  pub ends_on :
      (code fid : ℕ) (value : Option A) (p : Protocol A)
      → IsAwaiting fid p
      → IsAwaiting fid (env.end_generator code fid value p).1

-- From one state to the next the writer stays, and what is sent or owed for `id` grows by `n`.
pub record Adds {A : Type 0} (id : MsgId) (n : ℕ) (p q : Protocol A) : Type 0 where
  pub writer : q.has_writer ≡ true
  pub grows : tally id q ≡ tally id p + n

module _ {A : Type 0} (env : Env A) (trusted : IsTrusted env) (id : MsgId) where
  pub Adds-send_data :
      (m : Message A) (p : Protocol A)
      → p.has_writer ≡ true
      → Adds id (answers id m) p (send_data env m p)
  unfolding send_data
  Adds-send_data m p w = record {
    writer = ground (arith, trusted.written m);
    grows = rw (w, trusted.written m) (omega (arith, responses-append id p.sent m));
  }

  Adds-report : (s : Source) (p : Protocol A) → p.has_writer ≡ true → Adds id 0 p (report s p)
  Adds-report s p w = record { writer = w; grows = omega arith }

  Adds-send_failure :
      (i : MsgId) (exc : Raised A) (p : Protocol A)
      → p.has_writer ≡ true
      → Adds id (one_if (eq_id i id)) p (send_failure env i exc p)
  unfolding send_failure
  Adds-send_failure i (rpc exc) p w =
      let s = Adds-send_data (error_response i _) p w in
      record { writer = s.writer; grows = s.grows }
  Adds-send_failure i (other t) p w =
      let s = Adds-send_data (error_response i _) p w in
      record { writer = s.writer; grows = s.grows }

  -- Whether or not the type of the result is missing, one response is sent.
  Adds-recover :
      (i : MsgId) (ty : Option (Option String)) (value : A) (p : Protocol A)
      → p.has_writer ≡ true
      → Adds id (one_if (eq_id i id)) p (recover env i (send_typed env ty i value p))
  unfolding recover send_typed
  Adds-recover i (some none) value p w = Adds-send_failure i none_called p w
  Adds-recover i (some (some t)) value p w = Adds-send_data (response i value) p w
  Adds-recover i none value p w = Adds-send_data (response i value) p w

  Adds-send_settled :
      (i : MsgId) (outcome : Settled A) (p : Protocol A)
      → p.has_writer ≡ true
      → Adds id (one_if (eq_id i id)) p (send_settled env i outcome p)
  unfolding send_settled send_result
  Adds-send_settled i (result value) p w =
      let s = Adds-recover i (Dict.get p.result_types i) value _ w in
      record { writer = s.writer; grows = s.grows }
  Adds-send_settled i (failed exc) p w = Adds-send_failure i exc p w
  Adds-send_settled i cancelled p w = Adds-send_data (error_response i _) p w

  pub Adds-call_end :
      (callback : Callback) (outcome : Settled A) (p : Protocol A)
      → p.has_writer ≡ true
      → Adds id (owed_by id callback) p (call_end env callback outcome p)
  unfolding call_end send_handler_result check_handler_result
  Adds-call_end (respond i) outcome p w =
      let q = record p { request_futures = Dict.remove p.request_futures i } in
      let s = Adds-send_settled i outcome q w in record { writer = s.writer; grows = s.grows }
  Adds-call_end check (failed exc) p w = record { writer = w; grows = omega arith }
  Adds-call_end check (result value) p w = record { writer = w; grows = omega arith }
  Adds-call_end check cancelled p w = record { writer = w; grows = omega arith }
  Adds-call_end sender outcome p w = record { writer = w; grows = omega arith }
  Adds-call_end (resume left code fid) outcome p w = record { writer = w; grows = omega arith }

  pub Adds-keep :
      (i : MsgId) (state : FutureState A) (callback : Callback) (p : Protocol A)
      → p.has_writer ≡ true
      → Adds id (owed_in id state callback) p (keep i state callback p)
  Adds-keep i state callback p w = record {
    writer = w;
    grows = omega (arith, owed-append id p.futures (record { state = state; callback = callback }));
  }
