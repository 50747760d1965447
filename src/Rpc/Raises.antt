-- ===== src/Rpc/Raises.antt =====
-- The execution of a handler raises nothing to its caller, for a generator too.
use pygls.Prelude.{
  ℕ, zero, suc, ◌≡◌, refl, true, List, [], ◌∷◌, ◌++◌, Option, none, some, get_elem?, length,
}
use pygls.Rpc.{
  MsgId, id_eq, Settled, awaiting, Callback, Protocol, Turn, yields, stops, Feature, plain,
  generator,
}
use pygls.Rpc.Send.{Env, keep, outcome_of}
use pygls.Rpc.Generator.{
  resolve_state, resolve_at, resolve, given, run_generator, take_turn, advance, execute_feature,
}
use pygls.Rpc.Tally.{IsTrusted, IsAwaiting}

resolve-ok :
    {A : Type 0} (env : Env A) (fid : ℕ) (outcome : Settled A) (p : Protocol A)
    → IsAwaiting fid p
    → (resolve env fid outcome p).0 ≡ true
unfolding resolve resolve_at resolve_state
resolve-ok env fid outcome p (f, e, q) = rw (e, q) refl

get_elem?-last : {A : Type 0} (l : List A) (a : A) → get_elem? (l ++ a ∷ []) (length l) ≡ some a
get_elem?-last [] a = refl
get_elem?-last (b ∷ l) a = get_elem?-last l a

module _ {A : Type 0} (env : Env A) (trusted : IsTrusted env) where
  advance-ok :
      (left fid code : ℕ) (value : Option A) (p : Protocol A)
      → IsAwaiting fid p
      → (advance env left fid code value p).0 ≡ true
  unfolding advance take_turn
  advance-ok zero fid code value p h = resolve-ok env fid _ _ (trusted.ends_on code fid value p h)
  advance-ok (suc left) fid code value p h =
      on (env.send_generator code fid value p).0 (env.send_generator code fid value p).1
        (trusted.sends_on code fid value p h)
    where
      on :
          (t : Turn A) (q : Protocol A)
          → IsAwaiting fid q
          → (take_turn env (λ c v r. advance env left fid c v r) left fid t q).0 ≡ true
      on (stops done) q k = resolve-ok env fid (outcome_of done) q k
      on (yields f params c) q k = refl

  -- The execution of a handler raises no exception to its caller.
  pub execute_feature-ok :
      (i : MsgId) (f : Feature A) (callback : Callback) (params : A) (p : Protocol A)
      → (execute_feature env i f callback params p).0 ≡ true
  unfolding execute_feature run_generator given
  execute_feature-ok i (plain h) callback params p = refl
  execute_feature-ok i (generator left start) callback params p =
      let here = get_elem?-last p.futures (record { state = awaiting; callback = callback }) in
      rw here (
        advance-ok left (length p.futures) (start params) none (keep i awaiting callback p)
          (_, here, refl))
