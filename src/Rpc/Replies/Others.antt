-- ===== src/Rpc/Replies/Others.antt =====
-- What leaves a request of one's own (pygls/protocol/json_rpc.py) as it is: what is sent, and what
-- becomes of other futures.
use pygls.Prelude.{
  ℕ, zero, suc, ◌≡◌, ◌≢◌, refl, sym, ap, ◌∙◌, String, false, List, [], ◌∷◌, ◌++◌, Option, none,
  some, arith, get_elem?, length, lt-length_of_get_elem?, inl, inr,
}
use mathlib.Core.Path.{subst}
use mathlib.Core.Option.{some-injective}
use pygls.Prelude.Dict
use pygls.Rpc.{
  MsgId, eq_id, eq_id_iff, id_eq, rpc, other, Raised, Settled, result, failed, cancelled,
  FutureState, Callback, Future, Protocol, Message, response, error_response,
}
use pygls.Rpc.Send.{
  Env, set_future, keep, send_data, send_typed, send_result, send_failure, recover, send_settled,
  none_called,
}
use pygls.Rpc.Heap.{get_elem?-set_future_ne, get_elem?-append}
use pygls.Rpc.Replies.{Linked, IsOther, AllOther, Waits}

pub ne_of_eq_id : (i j : MsgId) → eq_id i j ≡ false → i ≢ j
ne_of_eq_id i j h = ground (arith, eq_id_iff i j)

-- The futures, the entries and the count of uuids are the same.
pub record Same {A : Type 0} (p q : Protocol A) : Type 0 where
  pub futures : q.futures ≡ p.futures
  pub entries : q.request_futures ≡ p.request_futures
  pub uuids : q.uuids ≡ p.uuids

module _ {A : Type 0} where
  Same-refl : (p : Protocol A) → Same p p
  Same-refl p = record { futures = refl; entries = refl; uuids = refl }

  Same-trans : (p q r : Protocol A) → Same p q → Same q r → Same p r
  Same-trans p q r h k = record {
    futures = k.futures ∙ h.futures;
    entries = k.entries ∙ h.entries;
    uuids = k.uuids ∙ h.uuids;
  }

  pub AllOther-append :
      (id : MsgId) (fid : ℕ) (fs : List (Future A)) (f : Future A)
      → AllOther id fid fs
      → IsOther id fid f.callback
      → AllOther id fid (fs ++ f ∷ [])
  AllOther-append id fid [] f h k = (k, tt)
  AllOther-append id fid (g ∷ fs) f (o, h) k = (o, AllOther-append id fid fs f h k)

  pub AllOther-set_future :
      (id : MsgId) (fid : ℕ) (fs : List (Future A)) (i : ℕ) (g : Future A)
      → AllOther id fid fs
      → IsOther id fid g.callback
      → AllOther id fid (set_future fs i g)
  unfolding set_future
  AllOther-set_future id fid [] i g h k = tt
  AllOther-set_future id fid (f ∷ fs) zero g (o, h) k = (k, h)
  AllOther-set_future id fid (f ∷ fs) (suc i) g (o, h) k =
      (o, AllOther-set_future id fid fs i g h k)

  pub IsOther-get_elem? :
      (id : MsgId) (fid : ℕ) (fs : List (Future A)) (i : ℕ) {f : Future A}
      → AllOther id fid fs
      → get_elem? fs i ≡ some f
      → IsOther id fid f.callback
  IsOther-get_elem? id fid [] i h e = cc
  IsOther-get_elem? id fid (g ∷ fs) zero (o, h) e =
      subst (λ x. IsOther id fid x.callback) (some-injective g _ e) o
  IsOther-get_elem? id fid (g ∷ fs) (suc i) (o, h) e = IsOther-get_elem? id fid fs i h e

module _ {A : Type 0} (env : Env A) where
  pub Same-send_data : (m : Message A) (p : Protocol A) → Same p (send_data env m p)
  unfolding send_data
  Same-send_data m p = record {
    futures = ground arith;
    entries = ground arith;
    uuids = ground arith;
  }

  pub Same-send_failure :
      (i : MsgId) (exc : Raised A) (p : Protocol A) → Same p (send_failure env i exc p)
  unfolding send_failure
  Same-send_failure i (rpc exc) p =
      let s = Same-send_data (error_response i _) p in
      record { futures = s.futures; entries = s.entries; uuids = s.uuids }
  Same-send_failure i (other t) p =
      let s = Same-send_data (error_response i _) p in
      record { futures = s.futures; entries = s.entries; uuids = s.uuids }

  Same-recover :
      (i : MsgId) (ty : Option (Option String)) (value : A) (p : Protocol A)
      → Same p (recover env i (send_typed env ty i value p))
  unfolding recover send_typed
  Same-recover i (some none) value p = Same-send_failure i none_called p
  Same-recover i (some (some t)) value p = Same-send_data (response i value) p
  Same-recover i none value p = Same-send_data (response i value) p

  pub Same-send_settled :
      (i : MsgId) (outcome : Settled A) (p : Protocol A) → Same p (send_settled env i outcome p)
  unfolding send_settled send_result
  Same-send_settled i (result value) p =
      let s =
        Same-recover i (Dict.get p.result_types i) value
          (record p { result_types = Dict.remove p.result_types i }) in
      record { futures = s.futures; entries = s.entries; uuids = s.uuids }
  Same-send_settled i (failed exc) p = Same-send_failure i exc p
  Same-send_settled i cancelled p = Same-send_data (error_response i _) p

module _ {A : Type 0} (env : Env A) (id : MsgId) (fid uuids : ℕ) where
  pub Waits-Same :
      (s : Option (Settled A)) (p q : Protocol A)
      → Same p q
      → Waits id fid uuids s p
      → Waits id fid uuids s q
  Waits-Same s p q same w = record {
    here = ap (λ fs. get_elem? fs fid) same.futures ∙ w.here;
    linked = subst (λ d. Linked id fid uuids s (Dict.get d id)) (sym same.entries) w.linked;
    only = λ i h. w.only i (sym (ap (λ d. Dict.get d i) same.entries) ∙ h);
    others = subst (λ fs. AllOther id fid fs) (sym same.futures) w.others;
    drawn = omega (arith, same.uuids, w.drawn);
  }

  pub Waits-remove :
      (s : Option (Settled A)) (i : MsgId) (p : Protocol A)
      → eq_id i id ≡ false
      → Waits id fid uuids s p
      → Waits id fid uuids s (record p { request_futures = Dict.remove p.request_futures i })
  Waits-remove s i p n w = record {
    here = w.here;
    linked =
        subst (λ o. Linked id fid uuids s o)
          (sym (Dict.get-remove_ne p.request_futures i id (ne_of_eq_id i id n))) w.linked;
    only = λ j h. w.only j (Dict.get-remove_cases p.request_futures i j h);
    others = w.others;
    drawn = w.drawn;
  }

  pub Waits-keep :
      (s : Option (Settled A)) (i : MsgId) (state : FutureState A) (callback : Callback)
      (p : Protocol A)
      → eq_id i id ≡ false
      → IsOther id fid callback
      → Waits id fid uuids s p
      → Waits id fid uuids s (keep i state callback p)
  Waits-keep s i state callback p n o w = record {
    here = get_elem?-append p.futures _ fid w.here;
    linked =
        subst (λ e. Linked id fid uuids s e)
          (sym (Dict.get-put_ne p.request_futures i id (length p.futures) (ne_of_eq_id i id n)))
          w.linked;
    only = λ j h. elim (Dict.get-put_cases p.request_futures i j (length p.futures) h) [
      | inl (same, at) ↦ absurd (omega (arith, at, lt-length_of_get_elem? p.futures fid w.here))
      | inr old ↦ w.only j old
    ];
    others = AllOther-append id fid p.futures _ w.others o;
    drawn = w.drawn;
  }

  pub Waits-set_future :
      (s : Option (Settled A)) (i : ℕ) (g : Future A) (p : Protocol A)
      → i ≢ fid
      → IsOther id fid g.callback
      → Waits id fid uuids s p
      → Waits id fid uuids s (record p { futures = set_future p.futures i g })
  Waits-set_future s i g p n o w = record {
    here = get_elem?-set_future_ne p.futures i fid g n ∙ w.here;
    linked = w.linked;
    only = w.only;
    others = AllOther-set_future id fid p.futures i g w.others o;
    drawn = w.drawn;
  }
