-- ===== src/Rpc/Replies/Messages.antt =====
-- What each event (pygls/protocol/json_rpc.py) does to a request of one's own.
use pygls.Prelude.{
  ℕ, ◌≡◌, refl, ap, String, Bool, true, false, List, Option, none, some, arith, if◌then◌else◌,
  Bool-cases, inl, inr,
}
use mathlib.Core.Path.{subst}
use text.Mathlib.Text.{◌==◌ as str_eq}
use pygls.Errors.{ResponseError}
use pygls.Rpc.{
  Source, rpc_exception, feature_request, error_response, MsgId, eq_id, id_eq, Settled, result,
  queued, task, Callback, respond, check, Protocol, Feature, plain, generator, sync, coroutine,
  thread, Incoming, in_request, in_notification, in_response, in_error,
}
use pygls.Rpc.Send.{Env, next_uuid, outcome_of, accepts, report, send_error}
use pygls.Rpc.Generator.{execute_handler, execute_feature}
use pygls.Rpc.Handle.{
  get_handler, notify_handler, notify_done, request_done, handle_notification, request_handler,
  handle_request, dispatch, start, handle_message,
}
use pygls.Rpc.Dispatch.{asks}
use pygls.Rpc.Values.{Load, loads, fails, Value, structured, string, number, scalar, array, object}
use pygls.Rpc.Receive.{decode, handle_loaded, receive_value, receive}
use pygls.Rpc.Receive.Kept.{OnlyTypes, decode-OnlyTypes}
use pygls.Rpc.OneResponse.{asks_accepted, asks_loaded, asks_value}
use pygls.Rpc.Replies.{
  or_else, IsOther, Waits, IsCareful, SparesRequest, reply_in, reply_accepted, reply_loaded,
  reply_value,
}
use pygls.Rpc.Replies.Others.{Same, Same-send_data, Waits-Same, Waits-keep}
use pygls.Rpc.Replies.Generators.{Waits-next_uuid, Waits-call_back, Waits-generator}
use pygls.Rpc.Replies.Events.{or_else-none, Waits-cancel, Waits-response}

Same-report : {A : Type 0} (source : Source) (p : Protocol A) → Same p (report source p)
Same-report source p = record { futures = refl; entries = refl; uuids = refl }

Same-send_error :
    {A : Type 0} (env : Env A) (i : MsgId) (error : ResponseError A) (p : Protocol A)
    → Same p (report feature_request (send_error env i error p))
Same-send_error env i error p =
    let s = Same-send_data env (error_response i error) p in
    record { futures = s.futures; entries = s.entries; uuids = s.uuids }

module _ {A : Type 0} (env : Env A) (id : MsgId) (fid uuids : ℕ)
    (careful : IsCareful id fid uuids env) where
  Waits-execute_feature :
      (s : Option (Settled A)) (i : MsgId) (h : Feature A) (callback : Callback) (params : A)
      (p : Protocol A)
      → SparesRequest {A = A} id fid uuids h
      → eq_id i id ≡ false
      → IsOther id fid callback
      → Waits id fid uuids s p
      → Waits id fid uuids s (execute_feature env i h callback params p).1
  unfolding execute_feature execute_handler
  Waits-execute_feature s i (plain (sync call)) callback params p c n o w =
      Waits-call_back env id fid uuids careful s false callback (outcome_of (call params p).0)
        (call params p).1 o (c s params p w)
  Waits-execute_feature s i (plain coroutine) callback params p c n o w =
      Waits-keep env id fid uuids s i task callback p n o w
  Waits-execute_feature s i (plain thread) callback params p c n o w =
      Waits-keep env id fid uuids s i queued callback p n o w
  Waits-execute_feature s i (generator left start) callback params p c n o w =
      Waits-generator env id fid uuids careful s i callback left (start params) p n o w

  Waits-notify_handler :
      (s : Option (Settled A)) (o : Option (Feature A)) (method : String) (params : A)
      (p : Protocol A)
      → get_handler env method ≡ o
      → Waits id fid uuids s p
      → Waits id fid uuids s (notify_handler env o params p)
  unfolding notify_handler notify_done
  Waits-notify_handler s none method params p e w = w
  Waits-notify_handler s (some h) method params p e w =
      done (execute_feature env (MsgId.str (env.uuid p.uuids)) h check params (next_uuid p)) (
        Waits-execute_feature s (MsgId.str (env.uuid p.uuids)) h check params (next_uuid p)
          (careful.spares method h e) (careful.fresh p.uuids w.drawn) tt
          (Waits-next_uuid env id fid uuids s p w))
    where
      done :
          (r : Bool × Protocol A)
          → Waits id fid uuids s r.1
          → Waits id fid uuids s (notify_done env r)
      done (true, q) v = v
      done (false, q) v = Waits-Same env id fid uuids s q _ (Same-report _ q) v

  Waits-request_handler :
      (s : Option (Settled A)) (o : Option (Feature A)) (i : MsgId) (method : String) (params : A)
      (p : Protocol A)
      → get_handler env method ≡ o
      → eq_id i id ≡ false
      → Waits id fid uuids s p
      → Waits id fid uuids s (request_handler env o i method params p)
  unfolding request_handler request_done
  Waits-request_handler s none i method params p e n w =
      Waits-Same env id fid uuids s p _ (Same-send_error env i _ p) w
  Waits-request_handler s (some h) i method params p e n w =
      done (execute_feature env i h (respond i) params p)
        (Waits-execute_feature s i h (respond i) params p (careful.spares method h e) n n w)
    where
      done :
          (r : Bool × Protocol A)
          → Waits id fid uuids s r.1
          → Waits id fid uuids s (request_done env i r)
      done (true, q) v = v
      done (false, q) v = Waits-Same env id fid uuids s q _ (Same-send_error env i _ q) v

  Waits-dispatch :
      (s : Option (Settled A)) (message : Incoming A) (p : Protocol A)
      → asks id message ≡ 0
      → Waits id fid uuids s p
      → Waits id fid uuids (or_else s (reply_in env id message)) (dispatch env message p)
  unfolding dispatch handle_request handle_notification
  Waits-dispatch s (in_request i method params) p a w =
      rw (or_else-none s)
        (Waits-request_handler s (get_handler env method) i method params p refl (ground arith) w)
  Waits-dispatch s (in_notification method params) p a w =
      elim (Bool-cases (str_eq method "$/cancelRequest")) [
        | inl e ↦ rw e (Waits-cancel env id fid uuids careful s (env.cancel_id params) p w)
        | inr e ↦
            rw (e, or_else-none s)
              (Waits-notify_handler s (get_handler env method) method params p refl w)
      ]
  Waits-dispatch s (in_response i value) p a w =
      Waits-response env id fid uuids careful (result value) s i p w
  Waits-dispatch s (in_error i error) p a w = Waits-response env id fid uuids careful _ s i p w

  pub Waits-handle_message :
      (s : Option (Settled A)) (jsonrpc : String) (message : Incoming A) (p : Protocol A)
      → asks_accepted env id jsonrpc message p ≡ 0
      → Waits id fid uuids s p
      → Waits id fid uuids
          (or_else s (reply_accepted env id jsonrpc message p))
          (handle_message env jsonrpc message p)
  unfolding handle_message
  Waits-handle_message s jsonrpc message p a w = elim (Bool-cases (accepts jsonrpc message p)) [
    | inl e ↦
        rw e
          (Waits-dispatch s message p (subst (λ b. (if b then asks id message else 0) ≡ 0) e a) w)
    | inr e ↦ rw (e, or_else-none s) w
  ]

  Waits-OnlyTypes :
      (s : Option (Settled A)) (p q : Protocol A)
      → OnlyTypes p q
      → Waits id fid uuids s p
      → Waits id fid uuids s q
  Waits-OnlyTypes s p q h w =
      Waits-Same env id fid uuids s p q
        (record {
          futures = ap (λ x. x.futures) h;
          entries = ap (λ x. x.request_futures) h;
          uuids = ap (λ x. x.uuids) h;
        })
        w

  pub Waits-receive :
      (s : Option (Settled A)) (body : List ℕ) (p : Protocol A)
      → asks_value env id (env.parse body) p ≡ 0
      → Waits id fid uuids s p
      → Waits id fid uuids
          (or_else s (reply_value env id (env.parse body) p))
          (receive env body p).1
  unfolding receive receive_value handle_loaded
  Waits-receive s body p a w = by_value (env.parse body) a
    where
      refused :
          (q : Protocol A)
          → Waits id fid uuids s q
          → Waits id fid uuids (or_else s none) (report rpc_exception q)
      refused q k =
          rw (or_else-none s) (Waits-Same env id fid uuids s q _ (Same-report rpc_exception q) k)

      loaded :
          (r : Load (Value A) × Protocol A)
          → asks_loaded env id r ≡ 0
          → Waits id fid uuids s r.1
          → Waits id fid uuids (or_else s (reply_loaded env id r)) (handle_loaded env r).1
      loaded (loads (structured jsonrpc message), q) z k =
          Waits-handle_message s jsonrpc message q z k
      loaded (fails e, q) z k = refused q k
      loaded (loads (array items), q) z k = refused q k
      loaded (loads (object obj), q) z k = refused q k
      loaded (loads (string t), q) z k = refused q k
      loaded (loads (number n), q) z k = refused q k
      loaded (loads (scalar b), q) z k = refused q k

      by_value :
          (o : Option (Value A))
          → asks_value env id o p ≡ 0
          → Waits id fid uuids (or_else s (reply_value env id o p)) (receive_value env o p).1
      by_value none z = refused p w
      by_value (some v) z =
          loaded (decode env v p) z
            (Waits-OnlyTypes s p (decode env v p).1 (decode-OnlyTypes env v p) w)
