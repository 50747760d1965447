-- ===== src/Rpc/Replies/Events.antt =====
-- A reply to a request of one's own (pygls/protocol/json_rpc.py) ends its future, and no other reply does.
use pygls.Prelude.{
  ℕ, ◌≡◌, ◌≢◌, refl, sym, ap, ◌∙◌, false, Option, none, some, if◌then◌else◌, get_elem?, Bool-cases,
  inl, inr,
}
use mathlib.Core.Path.{subst}
use pygls.Prelude.Dict
use pygls.Rpc.{
  MsgId, eq_id, eq_id_iff, id_eq, Settled, cancelled, FutureState, queued, running, task, awaiting,
  settled, Future, Protocol,
}
use pygls.Rpc.Send.{Env, call_end}
use pygls.Rpc.Heap.{get_elem?-set_future}
use pygls.Rpc.Generator.{call_back}
use pygls.Rpc.Handle.{
  settle_future, cancel_found, cancel_at, cancel_popped, handle_cancel_notification, set_outcome,
  set_outcome_at, set_popped, handle_response,
}
use pygls.Rpc.Replies.{own, or_else, Linked, Waits, IsCareful}
use pygls.Rpc.Replies.Generators.{Waits-settle_future}
use pygls.Rpc.Replies.Others.{Waits-remove, IsOther-get_elem?, AllOther-set_future, ne_of_eq_id}

pub or_else-none : {A : Type 0} (s : Option (Settled A)) → or_else s none ≡ s
or_else-none none = refl
or_else-none (some x) = refl

module _ {A : Type 0} (env : Env A) (id : MsgId) (fid uuids : ℕ)
    (careful : IsCareful id fid uuids env) where
  Waits-gone :
      (s : Option (Settled A)) (p : Protocol A)
      → Linked {A = A} id fid uuids s none
      → Waits id fid uuids s p
      → Waits id fid uuids s (record p { request_futures = Dict.remove p.request_futures id })
  Waits-gone s p k w = record {
    here = w.here;
    linked =
        subst (Linked {A = A} id fid uuids s) (sym (Dict.get-remove_self p.request_futures id)) k;
    only = λ j h. w.only j (Dict.get-remove_cases p.request_futures id j h);
    others = w.others;
    drawn = w.drawn;
  }

  -- The future of the request ends, and its entry is gone.
  Waits-ends :
      (outcome : Settled A) (p : Protocol A)
      → Waits id fid uuids none p
      → Waits id fid uuids (some outcome) (
          settle_future env fid
            (own awaiting)
            outcome
            (record p { request_futures = Dict.remove p.request_futures id }))
  unfolding settle_future call_back call_end
  Waits-ends outcome p w = record {
    here = get_elem?-set_future p.futures fid (own awaiting) (own (settled outcome)) w.here;
    linked = Dict.get-remove_self p.request_futures id;
    only = λ j h. w.only j (Dict.get-remove_cases p.request_futures id j h);
    others = AllOther-set_future id fid p.futures fid (own (settled outcome)) w.others tt;
    drawn = w.drawn;
  }

  -- Another future that is found has another number, and another callback.
  pub Waits-elsewhere :
      (s : Option (Settled A)) (i : ℕ) (f : Future A) (outcome : Settled A) (p : Protocol A)
      → i ≢ fid
      → get_elem? p.futures i ≡ some f
      → Waits id fid uuids s p
      → Waits id fid uuids s (settle_future env i f outcome p)
  Waits-elsewhere s i f outcome p n e w =
      Waits-settle_future env id fid uuids careful s i f outcome p n
        (IsOther-get_elem? id fid p.futures i w.others e) w

  Waits-cancel_at :
      (s : Option (Settled A)) (i : ℕ) (o : Option (Future A)) (p : Protocol A)
      → i ≢ fid
      → get_elem? p.futures i ≡ o
      → Waits id fid uuids s p
      → Waits id fid uuids s (cancel_at env i o p)
  unfolding cancel_at cancel_found
  Waits-cancel_at s i none p n e w = w
  Waits-cancel_at s i (some f) p n e w = by_state f.state
    where
      by_state : (t : FutureState A) → Waits id fid uuids s (cancel_found env i f t p)
      by_state queued = Waits-elsewhere s i f cancelled p n e w
      by_state awaiting = Waits-elsewhere s i f cancelled p n e w
      by_state running = w
      by_state task = w
      by_state (settled x) = w

  Waits-set_outcome_at :
      (s : Option (Settled A)) (i : ℕ) (o : Option (Future A)) (outcome : Settled A)
      (p : Protocol A)
      → i ≢ fid
      → get_elem? p.futures i ≡ o
      → Waits id fid uuids s p
      → Waits id fid uuids s (set_outcome_at env i o outcome p)
  unfolding set_outcome_at set_outcome
  Waits-set_outcome_at s i none outcome p n e w = w
  Waits-set_outcome_at s i (some f) outcome p n e w = by_state f.state
    where
      by_state : (t : FutureState A) → Waits id fid uuids s (set_outcome env i f t outcome p)
      by_state task = w
      by_state (settled x) = w
      by_state queued = Waits-elsewhere s i f outcome p n e w
      by_state running = Waits-elsewhere s i f outcome p n e w
      by_state awaiting = Waits-elsewhere s i f outcome p n e w

  -- An id that is popped: that of the request, which ends it, or another one.
  Waits-popped :
      (end : Option ℕ → Protocol A → Protocol A) (outcome : Settled A)
      → ((q : Protocol A) → end none q ≡ q)
      → ((s : Option (Settled A)) (i : ℕ) (q : Protocol A)
          → i ≢ fid
          → Waits id fid uuids s q
          → Waits id fid uuids s (end (some i) q))
      → ((q : Protocol A)
          → get_elem? q.futures fid ≡ some (own awaiting)
          → end (some fid) q ≡ settle_future env fid (own awaiting) outcome q)
      → (s : Option (Settled A)) (i : MsgId) (p : Protocol A) → Waits id fid uuids s p
      → Waits id fid uuids (or_else s (if eq_id i id then some outcome else none)) (
          end
            (Dict.get p.request_futures i)
            (record p { request_futures = Dict.remove p.request_futures i }))
  Waits-popped end outcome nothing elsewhere here s i p w = elim (Bool-cases (eq_id i id)) [
    | inl e ↦ rw (e, (eq_id_iff i id).0 e) (its s w)
    | inr e ↦ rw (e, or_else-none s) (another (Dict.get p.request_futures i) refl e)
  ]
    where
      removed : MsgId → Protocol A
      removed j = record p { request_futures = Dict.remove p.request_futures j }

      its :
          (t : Option (Settled A))
          → Waits id fid uuids t p
          → Waits id fid uuids
              (or_else t (some outcome))
              (end (Dict.get p.request_futures id) (removed id))
      its none v = rw (v.linked, here (removed id) v.here) (Waits-ends outcome p v)
      its (some x) v = rw (v.linked, nothing (removed id)) (Waits-gone (some x) p refl v)

      another :
          (o : Option ℕ)
          → Dict.get p.request_futures i ≡ o
          → eq_id i id ≡ false
          → Waits id fid uuids s (end o (removed i))
      another none q e = rw (nothing (removed i)) (Waits-remove env id fid uuids s i p e w)
      another (some k) q e =
          elsewhere s k (removed i) (λ same. ne_of_eq_id i id e (w.only i (q ∙ ap some same)))
            (Waits-remove env id fid uuids s i p e w)

  pub Waits-cancel :
      (s : Option (Settled A)) (i : MsgId) (p : Protocol A)
      → Waits id fid uuids s p
      → Waits id fid uuids
          (or_else s (if eq_id i id then some cancelled else none))
          (handle_cancel_notification env i p)
  unfolding handle_cancel_notification cancel_popped cancel_at cancel_found
  Waits-cancel =
      Waits-popped (λ o q. cancel_popped env o q) cancelled (λ q. refl)
        (λ s i q n w. Waits-cancel_at s i _ q n refl w) (λ q h. rw h refl)

  pub Waits-response :
      (outcome : Settled A) (s : Option (Settled A)) (i : MsgId) (p : Protocol A)
      → Waits id fid uuids s p
      → Waits id fid uuids
          (or_else s (if eq_id i id then some outcome else none))
          (handle_response env i outcome p)
  unfolding handle_response set_popped set_outcome_at set_outcome
  Waits-response outcome =
      Waits-popped (λ o q. set_popped env o outcome q) outcome (λ q. refl)
        (λ s i q n w. Waits-set_outcome_at s i _ outcome q n refl w) (λ q h. rw h refl)
