-- ===== src/Rpc/Replies/Generators.antt =====
-- Generators that are run on (pygls/protocol/json_rpc.py, `_run_generator`) leave a request of one's own as
-- it is.
use pygls.Prelude.{
  ℕ, zero, suc, ◌≡◌, ◌≢◌, refl, Bool, true, false, Option, none, some, arith, get_elem?, length,
  lt-length_of_get_elem?, Bool-cases, inl, inr,
}
use pygls.Rpc.{
  MsgId, eq_id, id_eq, Handler, sync, coroutine, thread, Turn, yields, stops, Settled, result,
  failed, cancelled, other, FutureState, queued, running, task, awaiting, settled, Callback,
  respond, check, sender, resume, Future, Protocol,
}
use pygls.Prelude.Dict
use pygls.Rpc.Send.{
  Env, keep, next_uuid, outcome_of, send_handler_result, check_handler_result, call_end,
}
use pygls.Rpc.Generator.{
  is_cancelled, resolve_state, resolve_at, resolve, given, run_generator, yield_to, take_turn,
  advance, call_back,
}
use pygls.Rpc.Handle.{settle_future}
use pygls.Rpc.Replies.{IsOther, Waits, HandlerSpares, TurnSpares, IsCareful}
use pygls.Rpc.Replies.Others.{
  Same-send_settled, Waits-Same, Waits-remove, Waits-keep, Waits-set_future, IsOther-get_elem?,
}

module _ {A : Type 0} (env : Env A) (id : MsgId) (fid uuids : ℕ) where
  Waits-call_end :
      (s : Option (Settled A)) (callback : Callback) (outcome : Settled A) (p : Protocol A)
      → IsOther id fid callback
      → Waits id fid uuids s p
      → Waits id fid uuids s (call_end env callback outcome p)
  unfolding call_end send_handler_result check_handler_result
  Waits-call_end s (respond i) outcome p o w =
      let q = record p { request_futures = Dict.remove p.request_futures i } in
      Waits-Same env id fid uuids s q _ (Same-send_settled env i outcome q)
        (Waits-remove env id fid uuids s i p o w)
  Waits-call_end s check (result v) p o w = w
  Waits-call_end s check (failed exc) p o w =
      Waits-Same env id fid uuids s p _ (record { futures = refl; entries = refl; uuids = refl }) w
  Waits-call_end s check cancelled p o w = w
  Waits-call_end s sender outcome p o w = w
  Waits-call_end s (resume left code r) outcome p o w = w

  pub Waits-next_uuid :
      (s : Option (Settled A)) (p : Protocol A)
      → Waits id fid uuids s p
      → Waits id fid uuids s (next_uuid p)
  Waits-next_uuid s p w = record {
    here = w.here;
    linked = w.linked;
    only = w.only;
    others = w.others;
    drawn = omega (arith, w.drawn);
  }

  module _ (s : Option (Settled A)) (r : ℕ) (apart : r ≢ fid) where
    Waits-resolve :
        (outcome : Settled A) (p : Protocol A)
        → Waits id fid uuids s p
        → Waits id fid uuids s (resolve env r outcome p).1
    unfolding resolve resolve_at resolve_state
    Waits-resolve outcome p w = found (get_elem? p.futures r) refl
      where
        by_state :
            (f : Future A)
            → get_elem? p.futures r ≡ some f
            → (t : FutureState A) → Waits id fid uuids s (resolve_state env r f t outcome p).1
        by_state f e awaiting =
            let o = IsOther-get_elem? id fid p.futures r w.others e in
            Waits-call_end s f.callback outcome _ o (
              Waits-set_future env id fid uuids s r (record f { state = settled outcome }) p apart o
                w)
        by_state f e queued = w
        by_state f e running = w
        by_state f e task = w
        by_state f e (settled x) = w

        found :
            (o : Option (Future A))
            → get_elem? p.futures r ≡ o
            → Waits id fid uuids s (resolve_at env r o outcome p).1
        found none e = w
        found (some f) e = by_state f e f.state

    Waits-run_generator :
        (run : Option A → Protocol A → Bool × Protocol A)
        → ((v : Option A) (p : Protocol A)
            → Waits id fid uuids s p
            → Waits id fid uuids s (run v p).1)
        → (of_task : Bool) (previous : Option (Settled A)) (p : Protocol A) → Waits id fid uuids s p
        → Waits id fid uuids s (run_generator env run r of_task previous p).1
    unfolding run_generator given
    Waits-run_generator run k t previous p w =
        elim (Bool-cases (is_cancelled (get_elem? p.futures r))) [
          | inl e ↦ rw e w
          | inr e ↦ rw e (goes t previous)
        ]
      where
        goes :
            (t : Bool) (previous : Option (Settled A))
            → Waits id fid uuids s (given env run r t previous p).1
        goes t none = k none p w
        goes t (some (result v)) = k (some v) p w
        goes t (some (failed exc)) = Waits-resolve (failed exc) p w
        goes true (some cancelled) = w
        goes false (some cancelled) = Waits-resolve (failed (other "CancelledError")) p w

    module _ (careful : IsCareful id fid uuids env) where
      Waits-yield_to :
          (run : Option A → Protocol A → Bool × Protocol A)
          → ((v : Option A) (p : Protocol A)
              → Waits id fid uuids s p
              → Waits id fid uuids s (run v p).1)
          → (callback : Callback) (h : Handler A) (params : A) (p : Protocol A)
          → IsOther id fid callback
          → HandlerSpares {A = A} id fid uuids h
          → Waits id fid uuids s p
          → Waits id fid uuids s (yield_to env run callback r h params p)
      unfolding yield_to
      Waits-yield_to run k callback (sync call) params p o c w =
          Waits-run_generator run k false (some (outcome_of (call params (next_uuid p)).0))
            (call params (next_uuid p)).1 (c s params (next_uuid p) (Waits-next_uuid s p w))
      Waits-yield_to run k callback coroutine params p o c w =
          Waits-keep env id fid uuids s _ task callback (next_uuid p)
            (careful.fresh p.uuids w.drawn) o (Waits-next_uuid s p w)
      Waits-yield_to run k callback thread params p o c w =
          Waits-keep env id fid uuids s _ queued callback (next_uuid p)
            (careful.fresh p.uuids w.drawn) o (Waits-next_uuid s p w)

      Waits-take_turn :
          (run : ℕ → Option A → Protocol A → Bool × Protocol A)
          → ((c : ℕ) (v : Option A) (p : Protocol A)
              → Waits id fid uuids s p
              → Waits id fid uuids s (run c v p).1)
          → (left : ℕ) (t : Turn A) → TurnSpares {A = A} id fid uuids t
          → (q : Protocol A) → Waits id fid uuids s q
          → Waits id fid uuids s (take_turn env run left r t q).1
      unfolding take_turn
      Waits-take_turn run k left (stops done) c q v = Waits-resolve (outcome_of done) q v
      Waits-take_turn run k left (yields h params next) c q v =
          Waits-yield_to (run next) (k next) (resume left next r) h params q apart c v

      pub Waits-advance :
          (left code : ℕ) (value : Option A) (p : Protocol A)
          → Waits id fid uuids s p
          → Waits id fid uuids s (advance env left r code value p).1
      unfolding advance
      Waits-advance zero code value p w = Waits-resolve _ _ (careful.ends code r value s p w)
      Waits-advance (suc left) code value p w =
          Waits-take_turn (λ c v z. advance env left r c v z)
            (λ c v z k. Waits-advance left c v z k) left (env.send_generator code r value p).0
            (careful.yielded code r value p) (env.send_generator code r value p).1
            (careful.sends code r value s p w)

  module _ (careful : IsCareful id fid uuids env) where
    pub Waits-call_back :
        (s : Option (Settled A)) (of_task : Bool) (callback : Callback) (outcome : Settled A)
        (p : Protocol A)
        → IsOther id fid callback
        → Waits id fid uuids s p
        → Waits id fid uuids s (call_back env of_task callback outcome p)
    unfolding call_back
    Waits-call_back s t (respond i) outcome p o w = Waits-call_end s (respond i) outcome p o w
    Waits-call_back s t check outcome p o w = Waits-call_end s check outcome p o w
    Waits-call_back s t sender outcome p o w = w
    Waits-call_back s t (resume left code r) outcome p o w =
        Waits-run_generator s r o (advance env left r code)
          (λ v q k. Waits-advance s r o careful left code v q k) t (some outcome) p w

    pub Waits-settle_future :
        (s : Option (Settled A)) (i : ℕ) (f : Future A) (outcome : Settled A) (p : Protocol A)
        → i ≢ fid
        → IsOther id fid f.callback
        → Waits id fid uuids s p
        → Waits id fid uuids s (settle_future env i f outcome p)
    unfolding settle_future
    Waits-settle_future s i f outcome p n o w =
        Waits-call_back s _ f.callback outcome _ o (Waits-set_future env id fid uuids s i _ p n o w)

    -- A generator that starts gets a future of its own.
    pub Waits-generator :
        (s : Option (Settled A)) (i : MsgId) (callback : Callback) (left code : ℕ) (p : Protocol A)
        → eq_id i id ≡ false
        → IsOther id fid callback
        → Waits id fid uuids s p
        → Waits id fid uuids s
            (run_generator env
              (advance env left (length p.futures) code)
              (length p.futures)
              false
              none
              (keep i awaiting callback p)).1
    Waits-generator s i callback left code p n o w =
        let new : length p.futures ≢ fid =
          λ e. absurd (omega (arith, e, lt-length_of_get_elem? p.futures fid w.here)) in
        Waits-run_generator s (length p.futures) new (advance env left (length p.futures) code)
          (λ v q k. Waits-advance s (length p.futures) new careful left code v q k) false none _
          (Waits-keep env id fid uuids s i awaiting callback p n o w)
