-- ===== src/Rpc/Runs.antt =====
-- What the execution of a handler adds to the responses sent and owed, for a generator too, however
-- often it yields.
use pygls.Prelude.{
  ℕ, zero, suc, ◌≡◌, refl, String, Bool, true, false, Option, none, some, arith, get_elem?, length,
  Bool-cases, inl, inr,
}
use pygls.Rpc.{
  MsgId, str, id_eq, Settled, result, failed, cancelled, FutureState, queued, running, task,
  awaiting, settled, Callback, respond, check, sender, resume, Future, Protocol, Turn, yields,
  stops, Handler, sync, coroutine, thread, Feature, plain, generator,
}
use pygls.Rpc.Send.{Env, set_future, keep, outcome_of, next_uuid, call_end}
use pygls.Rpc.Generator.{
  resolve_state, resolve_at, resolve, is_cancelled, given, run_generator, yield_to, take_turn,
  advance, call_back, execute_handler, execute_feature,
}
use pygls.Rpc.Handle.{get_handler, settle_future, is_task}
use pygls.Rpc.Tally.{
  owed_in, owed_by, IsTrusted, QuietHandler, QuietTurn, Adds, Adds-call_end, Adds-keep,
  owed-set_future,
}

module _ {A : Type 0} (env : Env A) (trusted : IsTrusted env) (id : MsgId) where
  pub nothing : (p : Protocol A) → p.has_writer ≡ true → Adds id 0 p p
  nothing p w = record { writer = w; grows = omega arith }

  -- A future that ends sends what it owed.
  Adds-end :
      (fid : ℕ) (f : Future A) (outcome : Settled A) (p : Protocol A)
      → p.has_writer ≡ true
      → get_elem? p.futures fid ≡ some f
      → owed_in id f.state f.callback ≡ owed_by id f.callback
      → Adds id 0 p (
          call_end env f.callback outcome (record p {
            futures = set_future p.futures fid (record f { state = settled outcome });
          }))
  Adds-end fid f outcome p w here open_ =
      let g = record f { state = settled outcome } in
      let q = record p { futures = set_future p.futures fid g } in
      let s = Adds-call_end env trusted id f.callback outcome q w in
      record {
        writer = s.writer;
        grows = omega (arith, s.grows, owed-set_future id p.futures fid f g here);
      }

  Adds-resolve :
      (fid : ℕ) (outcome : Settled A) (p : Protocol A)
      → p.has_writer ≡ true
      → Adds id 0 p (resolve env fid outcome p).1
  unfolding resolve resolve_at resolve_state
  Adds-resolve fid outcome p w = at (get_elem? p.futures fid) refl
    where
      by_state :
          (f : Future A)
          → get_elem? p.futures fid ≡ some f
          → (s : FutureState A) → f.state ≡ s
          → Adds id 0 p (resolve_state env fid f s outcome p).1
      by_state f e awaiting q = Adds-end fid f outcome p w e (rw q refl)
      by_state f e queued q = nothing p w
      by_state f e running q = nothing p w
      by_state f e task q = nothing p w
      by_state f e (settled x) q = nothing p w

      at :
          (o : Option (Future A))
          → get_elem? p.futures fid ≡ o
          → Adds id 0 p (resolve_at env fid o outcome p).1
      at none e = nothing p w
      at (some f) e = by_state f e f.state refl

  -- What runs a generator adds nothing of its own.
  abbrev AddsNothing : (Option A → Protocol A → Bool × Protocol A) → Type 0
  AddsNothing run =
      (value : Option A) (p : Protocol A) → p.has_writer ≡ true → Adds id 0 p (run value p).1

  Adds-run_generator :
      (run : Option A → Protocol A → Bool × Protocol A) (fid : ℕ) (of_task : Bool)
      (previous : Option (Settled A)) (p : Protocol A)
      → AddsNothing run
      → p.has_writer ≡ true
      → Adds id 0 p (run_generator env run fid of_task previous p).1
  unfolding run_generator given
  Adds-run_generator run fid of_task previous p h w =
      elim (Bool-cases (is_cancelled (get_elem? p.futures fid))) [
        | inl e ↦ rw e (nothing p w)
        | inr e ↦ rw e (on of_task previous)
      ]
    where
      on : (b : Bool) (o : Option (Settled A)) → Adds id 0 p (given env run fid b o p).1
      on b none = h none p w
      on b (some (result value)) = h (some value) p w
      on b (some (failed exc)) = Adds-resolve fid (failed exc) p w
      on true (some cancelled) = nothing p w
      on false (some cancelled) = Adds-resolve fid _ p w

  Adds-yield_to :
      (run : Option A → Protocol A → Bool × Protocol A) (left code fid : ℕ) (h : Handler A)
      (params : A) (p : Protocol A)
      → AddsNothing run
      → QuietHandler h
      → p.has_writer ≡ true
      → Adds id 0 p (yield_to env run (resume left code fid) fid h params p)
  unfolding yield_to
  Adds-yield_to run left code fid (sync call) params p h quiet w =
      let k = quiet params (next_uuid p) w in
      let (done, p') = call params (next_uuid p) in
      let s = Adds-run_generator run fid false (some (outcome_of done)) p' h k.writer in
      record { writer = s.writer; grows = omega (arith, s.grows, k.same id) }
  Adds-yield_to run left code fid coroutine params p h quiet w =
      let s =
        Adds-keep env trusted id (str (env.uuid p.uuids)) task (resume left code fid) (next_uuid p)
          w in
      record { writer = s.writer; grows = s.grows }
  Adds-yield_to run left code fid thread params p h quiet w =
      let s =
        Adds-keep env trusted id (str (env.uuid p.uuids)) queued (resume left code fid)
          (next_uuid p) w in
      record { writer = s.writer; grows = s.grows }

  Adds-advance : (left fid code : ℕ) → AddsNothing (advance env left fid code)
  unfolding advance take_turn
  Adds-advance zero fid code value p w =
      let k = trusted.ends code fid value p w in
      let (done, p') = env.end_generator code fid value p in
      let s = Adds-resolve fid (outcome_of done) p' k.writer in
      record { writer = s.writer; grows = omega (arith, s.grows, k.same id) }
  Adds-advance (suc left) fid code value p w =
      let k = trusted.sends code fid value p w in
      let s =
        on (λ c. Adds-advance left fid c) (env.send_generator code fid value p).0
          (trusted.yielded code fid value p) (env.send_generator code fid value p).1 k.writer in
      record { writer = s.writer; grows = omega (arith, s.grows, k.same id) }
    where
      on :
          ((c : ℕ) → AddsNothing (advance env left fid c))
          → (t : Turn A) → QuietTurn t
          → (q : Protocol A) → q.has_writer ≡ true
          → Adds id 0 q (take_turn env (λ c v r. advance env left fid c v r) left fid t q).1
      on run (stops done) quiet q wq = Adds-resolve fid (outcome_of done) q wq
      on run (yields h params c) quiet q wq =
          Adds-yield_to (advance env left fid c) left c fid h params q (run c) quiet wq

  pub Adds-call_back :
      (of_task : Bool) (callback : Callback) (outcome : Settled A) (p : Protocol A)
      → p.has_writer ≡ true
      → Adds id (owed_by id callback) p (call_back env of_task callback outcome p)
  unfolding call_back
  Adds-call_back of_task (resume left code fid) outcome p w =
      Adds-run_generator (advance env left fid code) fid of_task (some outcome) p
        (Adds-advance left fid code) w
  Adds-call_back of_task (respond i) outcome p w =
      Adds-call_end env trusted id (respond i) outcome p w
  Adds-call_back of_task check outcome p w = Adds-call_end env trusted id check outcome p w
  Adds-call_back of_task sender outcome p w = Adds-call_end env trusted id sender outcome p w

  -- A future that ends sends what it owed.
  pub Adds-settle_future :
      (fid : ℕ) (f : Future A) (outcome : Settled A) (p : Protocol A)
      → p.has_writer ≡ true
      → get_elem? p.futures fid ≡ some f
      → owed_in id f.state f.callback ≡ owed_by id f.callback
      → Adds id 0 p (settle_future env fid f outcome p)
  unfolding settle_future
  Adds-settle_future fid f outcome p w here open_ =
      let g = record f { state = settled outcome } in
      let q = record p { futures = set_future p.futures fid g } in
      let s = Adds-call_back (is_task f.state) f.callback outcome q w in
      record {
        writer = s.writer;
        grows = omega (arith, s.grows, owed-set_future id p.futures fid f g here);
      }

  Adds-execute_handler :
      (i : MsgId) (h : Handler A) (callback : Callback) (params : A) (p : Protocol A)
      → QuietHandler h
      → p.has_writer ≡ true
      → Adds id (owed_by id callback) p (execute_handler env i h callback params p)
  unfolding execute_handler
  Adds-execute_handler i (sync call) callback params p quiet w =
      let k = quiet params p w in
      let s =
        Adds-call_back false callback (outcome_of (call params p).0) (call params p).1 k.writer in
      record { writer = s.writer; grows = omega (arith, s.grows, k.same id) }
  Adds-execute_handler i coroutine callback params p quiet w =
      Adds-keep env trusted id i task callback p w
  Adds-execute_handler i thread callback params p quiet w =
      Adds-keep env trusted id i queued callback p w

  -- A handler that is executed sends the response that its callback owes, or keeps a future that does.
  pub Adds-execute_feature :
      (i : MsgId) (method : String) (f : Feature A) (callback : Callback) (params : A)
      (p : Protocol A)
      → get_handler env method ≡ some f
      → p.has_writer ≡ true
      → Adds id (owed_by id callback) p (execute_feature env i f callback params p).1
  unfolding execute_feature
  Adds-execute_feature i method (plain h) callback params p e w =
      Adds-execute_handler i h callback params p (trusted.registered method (plain h) e) w
  Adds-execute_feature i method (generator left start) callback params p e w =
      let k = Adds-keep env trusted id i awaiting callback p w in
      let fid = length p.futures in
      let s =
        Adds-run_generator (advance env left fid (start params)) fid false none
          (keep i awaiting callback p) (Adds-advance left fid (start params)) k.writer in
      record { writer = s.writer; grows = omega (arith, s.grows, k.grows) }
