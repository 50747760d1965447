-- ===== src/Rpc/Dispatch.antt =====
-- What the handling of a message adds to the responses sent and owed: one, for a request.
use pygls.Prelude.{
  ℕ, ◌≡◌, refl, String, Bool, true, false, Option, none, some, arith, get_elem?, Bool-cases, inl,
  inr,
}
use pygls.Prelude.Dict
use text.Mathlib.Text.{◌==◌ as str_eq}
use pygls.Rpc.{
  Feature, MsgId, eq_id, id_eq, Settled, result, cancelled, FutureState, queued, running, task,
  awaiting, settled, respond, check, Future, Protocol, Incoming, in_request, in_notification,
  in_response, in_error,
}
use pygls.Rpc.Handle.{
  get_handler, cancel_found, cancel_at, cancel_popped, handle_cancel_notification, notify_handler,
  notify_done, request_done, handle_notification, request_handler, handle_request, set_outcome,
  set_outcome_at, set_popped, handle_response, dispatch, finish, finish_at, finish_state,
}
use pygls.Rpc.Send.{Env, next_uuid}
use pygls.Rpc.Tally.{one_if, IsTrusted, Adds, Adds-send_data}
use pygls.Rpc.Raises.{execute_feature-ok}
use pygls.Rpc.Runs.{nothing, Adds-settle_future, Adds-execute_feature}
use pygls.Rpc.Generator.{execute_feature}

-- The requests with the id that a message makes.
abbrev pub asks : {A : Type 0} → MsgId → Incoming A → ℕ
asks id (in_request i method params) = one_if (eq_id i id)
asks id _ = 0

module _ {A : Type 0} (env : Env A) (trusted : IsTrusted env) (id : MsgId) where
  Adds-cancel_at :
      (fid : ℕ) (o : Option (Future A)) (p : Protocol A)
      → get_elem? p.futures fid ≡ o
      → p.has_writer ≡ true
      → Adds id 0 p (cancel_at env fid o p)
  unfolding cancel_at cancel_found
  Adds-cancel_at fid none p e w = nothing env trusted id p w
  Adds-cancel_at fid (some f) p e w = by_state f.state refl
    where
      by_state : (s : FutureState A) → f.state ≡ s → Adds id 0 p (cancel_found env fid f s p)
      by_state queued q = Adds-settle_future env trusted id fid f cancelled p w e (rw q refl)
      by_state running q = nothing env trusted id p w
      by_state task q = nothing env trusted id p w
      by_state awaiting q = Adds-settle_future env trusted id fid f cancelled p w e (rw q refl)
      by_state (settled x) q = nothing env trusted id p w

  Adds-cancel :
      (i : MsgId) (p : Protocol A)
      → p.has_writer ≡ true
      → Adds id 0 p (handle_cancel_notification env i p)
  unfolding handle_cancel_notification cancel_popped
  Adds-cancel i p w = popped (Dict.get p.request_futures i)
    where
      q : Protocol A
      q = record p { request_futures = Dict.remove p.request_futures i }

      popped : (o : Option ℕ) → Adds id 0 p (cancel_popped env o q)
      popped none = record { writer = w; grows = omega arith }
      popped (some fid) =
          let s = Adds-cancel_at fid (get_elem? p.futures fid) q refl w in
          record { writer = s.writer; grows = s.grows }

  Adds-set_outcome_at :
      (fid : ℕ) (o : Option (Future A)) (outcome : Settled A) (p : Protocol A)
      → get_elem? p.futures fid ≡ o
      → p.has_writer ≡ true
      → Adds id 0 p (set_outcome_at env fid o outcome p)
  unfolding set_outcome_at set_outcome
  Adds-set_outcome_at fid none outcome p e w = nothing env trusted id p w
  Adds-set_outcome_at fid (some f) outcome p e w = by_state f.state refl
    where
      by_state : (s : FutureState A) → f.state ≡ s → Adds id 0 p (set_outcome env fid f s outcome p)
      by_state task q = nothing env trusted id p w
      by_state (settled x) q = nothing env trusted id p w
      by_state queued q = Adds-settle_future env trusted id fid f outcome p w e (rw q refl)
      by_state running q = Adds-settle_future env trusted id fid f outcome p w e (rw q refl)
      by_state awaiting q = Adds-settle_future env trusted id fid f outcome p w e (rw q refl)

  Adds-handle_response :
      (i : MsgId) (outcome : Settled A) (p : Protocol A)
      → p.has_writer ≡ true
      → Adds id 0 p (handle_response env i outcome p)
  unfolding handle_response set_popped
  Adds-handle_response i outcome p w = popped (Dict.get p.request_futures i)
    where
      q : Protocol A
      q = record p { request_futures = Dict.remove p.request_futures i }

      popped : (o : Option ℕ) → Adds id 0 p (set_popped env o outcome q)
      popped none = record { writer = w; grows = omega arith }
      popped (some fid) =
          let s = Adds-set_outcome_at fid (get_elem? p.futures fid) outcome q refl w in
          record { writer = s.writer; grows = s.grows }

  pub Adds-finish :
      (fid : ℕ) (outcome : Settled A) (p : Protocol A)
      → p.has_writer ≡ true
      → Adds id 0 p (finish env fid outcome p)
  unfolding finish finish_at finish_state
  Adds-finish fid outcome p w = found (get_elem? p.futures fid) refl
    where
      by_state :
          (f : Future A)
          → get_elem? p.futures fid ≡ some f
          → (s : FutureState A) → f.state ≡ s
          → Adds id 0 p (finish_state env fid f s outcome p)
      by_state f e (settled x) q = nothing env trusted id p w
      by_state f e awaiting q = nothing env trusted id p w
      by_state f e task q = Adds-settle_future env trusted id fid f outcome p w e (rw q refl)
      by_state f e queued q = Adds-settle_future env trusted id fid f outcome p w e (rw q refl)
      by_state f e running q = Adds-settle_future env trusted id fid f outcome p w e (rw q refl)

      found :
          (o : Option (Future A))
          → get_elem? p.futures fid ≡ o
          → Adds id 0 p (finish_at env fid o outcome p)
      found none e = nothing env trusted id p w
      found (some f) e = by_state f e f.state refl

  Adds-request_handler :
      (o : Option (Feature A)) (i : MsgId) (method : String) (params : A) (p : Protocol A)
      → get_handler env method ≡ o
      → p.has_writer ≡ true
      → Adds id (one_if (eq_id i id)) p (request_handler env o i method params p)
  unfolding request_handler request_done
  Adds-request_handler none i method params p e w =
      let s = Adds-send_data env trusted id _ p w in record { writer = s.writer; grows = s.grows }
  Adds-request_handler (some f) i method params p e w =
      let r = execute_feature env i f (respond i) params p in
      ap_done r (execute_feature-ok env trusted i f (respond i) params p)
        (Adds-execute_feature env trusted id i method f (respond i) params p e w)
    where
      ap_done :
          (r : Bool × Protocol A)
          → r.0 ≡ true
          → Adds id (one_if (eq_id i id)) p r.1
          → Adds id (one_if (eq_id i id)) p (request_done env i r)
      ap_done (true, q) ok s = s
      ap_done (false, q) ok s = cc

  Adds-notify_handler :
      (o : Option (Feature A)) (method : String) (params : A) (p : Protocol A)
      → get_handler env method ≡ o
      → p.has_writer ≡ true
      → Adds id 0 p (notify_handler env o params p)
  unfolding notify_handler notify_done
  Adds-notify_handler none method params p e w = nothing env trusted id p w
  Adds-notify_handler (some f) method params p e w =
      let r = execute_feature env _ f check params (next_uuid p) in
      let s = Adds-execute_feature env trusted id _ method f check params (next_uuid p) e w in
      ap_done r (execute_feature-ok env trusted _ f check params (next_uuid p))
        (record { writer = s.writer; grows = s.grows })
    where
      ap_done :
          (r : Bool × Protocol A) → r.0 ≡ true → Adds id 0 p r.1 → Adds id 0 p (notify_done env r)
      ap_done (true, q) ok s = s
      ap_done (false, q) ok s = cc

  pub Adds-dispatch :
      (message : Incoming A) (p : Protocol A)
      → p.has_writer ≡ true
      → Adds id (asks id message) p (dispatch env message p)
  unfolding dispatch handle_request handle_notification
  Adds-dispatch (in_request i method params) p w =
      Adds-request_handler (get_handler env method) i method params p refl w
  Adds-dispatch (in_notification method params) p w =
      elim (Bool-cases (str_eq method "$/cancelRequest")) [
        | inl e ↦ rw e (Adds-cancel (env.cancel_id params) p w)
        | inr e ↦ rw e (Adds-notify_handler (get_handler env method) method params p refl w)
      ]
  Adds-dispatch (in_response i value) p w = Adds-handle_response i (result value) p w
  Adds-dispatch (in_error i error) p w = Adds-handle_response i _ p w
