-- ===== src/Rpc/ServerExit/Pending.antt =====
-- When the server exits, no request of the client stays pending.
use pygls.Prelude.{
  ℕ, ◌≡◌, ◌⊎◌, inl, inr, refl, sym, ap, ◌∙◌, String, true, List, [], ◌∷◌, some, arith, ◌==◌,
  get_elem?, Bool-cases,
}
use mathlib.Core.Path.{subst}
use pygls.Rpc.{MsgId, other, Settled, failed, awaiting, settled, sender, Future, Protocol}
use pygls.Rpc.Send.{Env, set_future, call_end}
use pygls.Rpc.Heap.{get_elem?-set_future, get_elem?-set_future_ne}
use pygls.Rpc.Generator.{call_back}
use pygls.Rpc.Handle.{settle_future, is_task}
use pygls.Rpc.Shutdown.{size}
use pygls.Rpc.Shutdown.Waiting.{same_size}
use pygls.Rpc.ServerExit.{Client, fail_found, fail_at, go_on, fail_pending, after_loop, server_exit}

module _ {A : Type 0} where
  -- The future has ended.
  abbrev pub IsEnded : List (Future A) → ℕ → Type 0
  IsEnded fs fid =
      (f : Future A) × (s : Settled A) × (get_elem? fs fid ≡ some f) × (f.state ≡ settled s)

  -- The future is that of a request of the client's own, which waits for its response.
  abbrev pub IsPending : List (Future A) → ℕ → Type 0
  IsPending fs fid =
      (f : Future A) × (get_elem? fs fid ≡ some f) × (f.state ≡ awaiting) × (f.callback ≡ sender)

  abbrev pub AllOwn : List (Future A) → List (MsgId × ℕ) → Type 0
  AllOwn fs [] = Unit
  AllOwn fs ((i, fid) ∷ entries) = (IsEnded fs fid ⊎ IsPending fs fid) × AllOwn fs entries

  abbrev pub AllEnded : List (Future A) → List (MsgId × ℕ) → Type 0
  AllEnded fs [] = Unit
  AllEnded fs ((i, fid) ∷ entries) = IsEnded fs fid × AllEnded fs entries

  -- After a future has been ended, it and each future for which `P` held keeps `P`, which an end gives.
  after_end :
      (P : List (Future A) → ℕ → Type 0) (fs : List (Future A)) (i j : ℕ) (g : Future A)
      → ((l : List (Future A)) → get_elem? l j ≡ get_elem? fs j → P fs j → P l j)
      → (i ≡ j → P (set_future fs i g) j)
      → P fs j
      → P (set_future fs i g) j
  after_end P fs i j g local here h = elim (Bool-cases (i == j)) [
    | inl e ↦ here (ground arith)
    | inr e ↦ local (set_future fs i g) (get_elem?-set_future_ne fs i j g (ground arith)) h
  ]

  abbrev ended : Future A → Settled A → Future A
  ended f s = record f { state = settled s }

  IsEnded-set_future :
      (fs : List (Future A)) (i : ℕ) (f : Future A) (s : Settled A)
      → get_elem? fs i ≡ some f
      → IsEnded (set_future fs i (ended f s)) i
  IsEnded-set_future fs i f s here =
      (ended f s, s, get_elem?-set_future fs i f (ended f s) here, refl)

  IsEnded-stays :
      (fs : List (Future A)) (i j : ℕ) (f : Future A) (s : Settled A)
      → get_elem? fs i ≡ some f
      → IsEnded fs j
      → IsEnded (set_future fs i (ended f s)) j
  IsEnded-stays fs i j f s here =
      after_end IsEnded fs i j (ended f s) (λ l same (g, x, e, q). (g, x, same ∙ e, q))
        (λ e. subst (IsEnded (set_future fs i (ended f s))) e (IsEnded-set_future fs i f s here))

  AllOwn-stays :
      (fs : List (Future A)) (i : ℕ) (f : Future A) (s : Settled A) (entries : List (MsgId × ℕ))
      → get_elem? fs i ≡ some f
      → AllOwn fs entries
      → AllOwn (set_future fs i (ended f s)) entries
  AllOwn-stays fs i f s [] here h = tt
  AllOwn-stays fs i f s ((k, j) ∷ entries) here h = (
    after_end (λ l m. IsEnded l m ⊎ IsPending l m) fs i j (ended f s) local
        (λ e.
          inl (subst (IsEnded (set_future fs i (ended f s))) e (IsEnded-set_future fs i f s here)))
        h.0,
    AllOwn-stays fs i f s entries here h.1,
  )
    where
      local :
          (l : List (Future A))
          → get_elem? l j ≡ get_elem? fs j
          → IsEnded fs j ⊎ IsPending fs j
          → IsEnded l j ⊎ IsPending l j
      local l same (inl (g, x, e, q)) = inl (g, x, same ∙ e, q)
      local l same (inr (g, e, q, c)) = inr (g, same ∙ e, q, c)

-- What the loop does to the protocol: only futures change, the given ones have ended, and those that had
-- ended before have.
record Fails {A : Type 0} (entries : List (MsgId × ℕ)) (p q : Protocol A) : Type 0 where
  only : q ≡ record p { futures = q.futures }
  all : AllEnded q.futures entries
  stays : (fid : ℕ) → IsEnded p.futures fid → IsEnded q.futures fid

abbrev with_futures : {A : Type 0} → Protocol A → Protocol A → Protocol A
with_futures r p = record p { futures = r.futures }

module _ {A : Type 0} (env : Env A) (reason : String) where
  settle_sender :
      (fid : ℕ) (f : Future A) (s : Settled A) (p : Protocol A)
      → f.callback ≡ sender
      → settle_future env fid f s p ≡ record p { futures = set_future p.futures fid (ended f s) }
  unfolding settle_future call_back call_end
  settle_sender fid f s p c =
      let q = record p { futures = set_future p.futures fid (ended f s) } in
      subst (λ b. call_back env (is_task f.state) b s q ≡ q) (sym c) refl

  -- One future of the loop.
  record Step (fid : ℕ) (p q : Protocol A) : Type 0 where
    goes : fail_at env reason fid (get_elem? p.futures fid) p ≡ (true, q)
    only : q ≡ record p { futures = q.futures }
    here : IsEnded q.futures fid
    stays : (j : ℕ) → IsEnded p.futures j → IsEnded q.futures j
    owns : (entries : List (MsgId × ℕ)) → AllOwn p.futures entries → AllOwn q.futures entries

  step :
      (fid : ℕ) (p : Protocol A)
      → IsEnded p.futures fid ⊎ IsPending p.futures fid
      → (q : Protocol A) × Step fid p q
  unfolding fail_at fail_found
  step fid p (inl (f, s, e, done)) = (
    p,
    record {
      goes = rw e (subst (λ x. fail_found env reason fid f x p ≡ (true, p)) (sym done) refl);
      only = refl;
      here = (f, s, e, done);
      stays = λ j k. k;
      owns = λ entries k. k;
    },
  )
  step fid p (inr (f, e, waits, c)) =
      let s = failed (other reason) in
      (
        record p { futures = set_future p.futures fid (ended f s) },
        record {
          goes = rw e (
              subst
                (λ x.
                  fail_found env reason fid f x p
                  ≡ (true, record p { futures = set_future p.futures fid (ended f s) }))
                (sym waits) (ap (λ r. (true, r)) (settle_sender fid f s p c)));
          only = refl;
          here = IsEnded-set_future p.futures fid f s e;
          stays = λ j k. IsEnded-stays p.futures fid j f s e k;
          owns = λ entries k. AllOwn-stays p.futures fid f s entries e k;
        },
      )

  fail_pending-Fails :
      (entries : List (MsgId × ℕ)) (n : ℕ) (p : Protocol A)
      → size p ≡ n
      → AllOwn p.futures entries
      → (q : Protocol A) × (fail_pending env reason n entries p ≡ (true, q)) × Fails entries p q
  unfolding fail_pending go_on
  fail_pending-Fails [] n p e h = (
    p,
    rw (← e) (ap (λ b. (b, p)) (same_size p)),
    record { only = refl; all = tt; stays = λ fid k. k },
  )
  fail_pending-Fails ((i, fid) ∷ entries) n p e h =
      let (q, k) = step fid p h.0 in
      let same : size q ≡ n = ap (λ r. size r) k.only ∙ e in
      let (r, goes, t) = fail_pending-Fails entries n q same (k.owns entries h.1) in
      let here : (size p == n) ≡ true = ground (arith, e) in
      (
        r,
        rw (here, k.goes) goes,
        record {
          only = t.only ∙ ap (with_futures r) k.only;
          all = (t.stays fid k.here, t.all);
          stays = λ j x. t.stays j (k.stays j x);
        },
      )

  -- When every entry of the dict of requests has ended or is a request of the client's own that waits
  -- for its response, the exit of the server's process ends them all and stops the client; of the
  -- protocol, nothing but futures is changed before the hook of the user is called.
  pub server_exit-AllEnded :
      (hook : Protocol A → Protocol A) (c : Client A)
      → AllOwn c.protocol.futures c.protocol.request_futures.entries
      → (q : Protocol A) × (server_exit env reason hook c
          ≡ (true, record { protocol = hook q; stop_event = true }))
        × (q ≡ record (c.protocol) { futures = q.futures })
        × AllEnded q.futures c.protocol.request_futures.entries
  unfolding server_exit after_loop
  server_exit-AllEnded hook c h =
      let (q, goes, t) =
        fail_pending-Fails c.protocol.request_futures.entries (size c.protocol) c.protocol refl h in
      (q, rw goes refl, t.only, t.all)
