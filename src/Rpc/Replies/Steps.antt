-- ===== src/Rpc/Replies/Steps.antt =====
-- A request of one's own through the events of a run (pygls/protocol/json_rpc.py).
use pygls.Prelude.{
  ℕ, ◌≡◌, ◌≢◌, refl, sym, ap, ◌∙◌, String, Bool, true, false, List, [], ◌∷◌, Option, none, some,
  arith, get_elem?,
}
use mathlib.Core.Path.{subst}
use mathlib.Core.Option.{some-injective}
use pygls.Prelude.Dict
use pygls.Rpc.{
  MsgId, eq_id, id_eq, Settled, FutureState, queued, running, task, awaiting, settled, sender,
  Future, Protocol, request, notification,
}
use pygls.Rpc.Send.{Env, keep, next_uuid}
use pygls.Rpc.Handle.{
  finish, finish_at, finish_state, start, start_at, start_state, notify, send_request,
  send_request_as,
}
use pygls.Rpc.OneResponse.{
  Event, arrived, received, started, finished, notified, requested, step, steps, asked_by, asked,
}
use pygls.Rpc.Replies.{own, or_else, state_of, Waits, IsCareful, reply_by, first_reply, sent_as}
use pygls.Rpc.Replies.Others.{
  Same-send_data, Waits-Same, Waits-keep, Waits-set_future, IsOther-get_elem?,
}
use pygls.Rpc.Replies.Events.{or_else-none, Waits-elsewhere}
use pygls.Rpc.Replies.Messages.{Waits-handle_message, Waits-receive}
use pygls.Rpc.Replies.Generators.{Waits-next_uuid}
use pygls.Rpc.Handle.{settle_future}

-- The work of a handler, which the pool or the event loop does.
abbrev is_work : {A : Type 0} → FutureState A → Bool
is_work queued = true
is_work running = true
is_work task = true
is_work _ = false

is_work-state_of : {A : Type 0} (s : Option (Settled A)) → is_work (state_of s) ≡ false
is_work-state_of none = refl
is_work-state_of (some x) = refl

-- The protocol when the message of a request is sent.
abbrev pub asking : {A : Type 0} → Env A → MsgId → String → Protocol A → Protocol A
asking env id method p = record (keep id awaiting sender p) {
  result_types = Dict.put p.result_types id (env.result_type method);
}

module _ {A : Type 0} (env : Env A) (id : MsgId) (fid uuids : ℕ)
    (careful : IsCareful id fid uuids env) where
  -- A future that stands for work is not that of the request.
  apart :
      (s : Option (Settled A)) (i : ℕ) (f : Future A) (p : Protocol A)
      → Waits id fid uuids s p
      → get_elem? p.futures i ≡ some f
      → is_work f.state ≡ true
      → i ≢ fid
  apart s i f p w e j same =
      let found : some (own (state_of s)) ≡ some f =
        sym w.here ∙ (ap (λ k. get_elem? p.futures k) (sym same) ∙ e) in
      let state = ap (λ g. is_work g.state) (some-injective (own (state_of s)) f found) in
      cc (sym (is_work-state_of s) ∙ (state ∙ j))

  Waits-start :
      (s : Option (Settled A)) (i : ℕ) (p : Protocol A)
      → Waits id fid uuids s p
      → Waits id fid uuids s (start env i p)
  unfolding start start_at start_state
  Waits-start s i p w = found (get_elem? p.futures i) refl
    where
      by_state :
          (f : Future A)
          → get_elem? p.futures i ≡ some f
          → (t : FutureState A) → f.state ≡ t
          → Waits id fid uuids s (start_state env i f t p)
      by_state f e queued q =
          Waits-set_future env id fid uuids s i _ p (apart s i f p w e (ap is_work q))
            (IsOther-get_elem? id fid p.futures i w.others e) w
      by_state f e running q = w
      by_state f e task q = w
      by_state f e awaiting q = w
      by_state f e (settled x) q = w

      found :
          (o : Option (Future A))
          → get_elem? p.futures i ≡ o
          → Waits id fid uuids s (start_at env i o p)
      found none e = w
      found (some f) e = by_state f e f.state refl

  Waits-finish :
      (s : Option (Settled A)) (i : ℕ) (outcome : Settled A) (p : Protocol A)
      → Waits id fid uuids s p
      → Waits id fid uuids s (finish env i outcome p)
  unfolding finish finish_at finish_state
  Waits-finish s i outcome p w = found (get_elem? p.futures i) refl
    where
      ends :
          (f : Future A)
          → get_elem? p.futures i ≡ some f
          → i ≢ fid
          → Waits id fid uuids s (settle_future env i f outcome p)
      ends f e n = Waits-elsewhere env id fid uuids careful s i f outcome p n e w

      by_state :
          (f : Future A)
          → get_elem? p.futures i ≡ some f
          → (t : FutureState A) → f.state ≡ t
          → Waits id fid uuids s (finish_state env i f t outcome p)
      by_state f e queued q = ends f e (apart s i f p w e (ap is_work q))
      by_state f e running q = ends f e (apart s i f p w e (ap is_work q))
      by_state f e task q = ends f e (apart s i f p w e (ap is_work q))
      by_state f e awaiting q = w
      by_state f e (settled x) q = w

      found :
          (o : Option (Future A))
          → get_elem? p.futures i ≡ o
          → Waits id fid uuids s (finish_at env i o outcome p)
      found none e = w
      found (some f) e = by_state f e f.state refl

  -- A request of one's own under another id.
  Waits-send_request_as :
      (s : Option (Settled A)) (i : MsgId) (method : String) (params : A) (p : Protocol A)
      → eq_id i id ≡ false
      → Waits id fid uuids s p
      → Waits id fid uuids s (send_request_as env i method params p).1
  unfolding send_request_as
  Waits-send_request_as s i method params p n w =
      let k = Waits-keep env id fid uuids s i awaiting sender p n tt w in
      Waits-Same env id fid uuids s (asking env i method p) _
        (Same-send_data env (request i method params) _)
        (record {
          here = k.here;
          linked = k.linked;
          only = k.only;
          others = k.others;
          drawn = k.drawn;
        })

  Waits-step :
      (s : Option (Settled A)) (e : Event A) (es : List (Event A)) (p : Protocol A)
      → asked_by env id e p ≡ 0
      → sent_as id (e ∷ es) ≡ 0
      → Waits id fid uuids s p
      → Waits id fid uuids (or_else s (reply_by env id e p)) (step env e p)
  unfolding step notify send_request
  Waits-step s (arrived body) es p a n w = Waits-receive env id fid uuids careful s body p a w
  Waits-step s (received jsonrpc message) es p a n w =
      Waits-handle_message env id fid uuids careful s jsonrpc message p a w
  Waits-step s (started i) es p a n w = rw (or_else-none s) (Waits-start s i p w)
  Waits-step s (finished i outcome) es p a n w = rw (or_else-none s) (Waits-finish s i outcome p w)
  Waits-step s (notified method params) es p a n w =
      rw (or_else-none s)
        (Waits-Same env id fid uuids s p _ (Same-send_data env (notification method params) p) w)
  Waits-step s (requested method params (some i)) es p a n w =
      rw (or_else-none s) (Waits-send_request_as s i method params p (ground arith) w)
  Waits-step s (requested method params none) es p a n w = rw (or_else-none s) (
      Waits-send_request_as s _ method params (next_uuid p) (careful.fresh p.uuids w.drawn)
        (Waits-next_uuid env id fid uuids s p w))

  or_else_assoc : (a b c : Option (Settled A)) → or_else (or_else a b) c ≡ or_else a (or_else b c)
  or_else_assoc none b c = refl
  or_else_assoc (some x) b c = refl

  sent_as-tail : (e : Event A) (es : List (Event A)) → sent_as id (e ∷ es) ≡ 0 → sent_as id es ≡ 0
  sent_as-tail (requested method params (some i)) es h = omega (arith, h)
  sent_as-tail (requested method params none) es h = h
  sent_as-tail (arrived body) es h = h
  sent_as-tail (received jsonrpc message) es h = h
  sent_as-tail (started i) es h = h
  sent_as-tail (finished i outcome) es h = h
  sent_as-tail (notified method params) es h = h

  pub Waits-steps :
      (es : List (Event A)) (s : Option (Settled A)) (p : Protocol A)
      → asked env id es p ≡ 0
      → sent_as id es ≡ 0
      → Waits id fid uuids s p
      → Waits id fid uuids (or_else s (first_reply env id es p)) (steps env es p)
  unfolding steps
  Waits-steps [] s p a n w = rw (or_else-none s) w
  Waits-steps (e ∷ es) s p a n w =
      subst (λ o. Waits id fid uuids o (steps env es (step env e p)))
        (or_else_assoc s (reply_by env id e p) _)
        (Waits-steps es _ (step env e p) (omega (arith, a)) (sent_as-tail e es n)
          (Waits-step s e es p (omega (arith, a)) n w))
