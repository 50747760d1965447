-- ===== src/Rpc/Shutdown/Waiting.antt =====
-- The shutdown with requests that are still waiting, and without.
use pygls.Prelude.{
  ℕ, ◌≡◌, refl, ap, sym, ◌≢◌, ◌⊎◌, true, false, List, [], ◌∷◌, ◌++◌, Option, none, some, arith, ◌<◌,
  ◌==◌, length, get_elem?, Bool-cases, inl, inr,
}
use pygls.Prelude.Dict
use pygls.Prelude.Dict.{length-remove}
use pygls.Rpc.{
  MsgId, other, cancelled, id_eq, Protocol, returned, raised, FutureState, queued, running, task,
  awaiting, settled, Future, respond,
}
use mathlib.Core.Path.{subst}
use pygls.Rpc.Send.{Env, call_end, send_handler_result, send_settled, send_data}
use pygls.Rpc.Generator.{call_back}
use pygls.Rpc.Handle.{cancel_at, cancel_found, settle_future}
use pygls.Rpc.Shutdown.{is_current, size, cancel_others, set_shutdown, lsp_shutdown}

-- Nothing waits at the entry that `future.cancel()` would end at once.
abbrev pub NotWaiting : {A : Type 0} → Protocol A → ℕ → Type 0
NotWaiting p fid =
    (f : Future _)
    → get_elem? p.futures fid ≡ some f
    → (f.state ≡ queued → ⊥) × (f.state ≡ awaiting → ⊥)

-- Only the current request waits.
abbrev pub AllStarted : {A : Type 0} → Option MsgId → Protocol A → List (MsgId × ℕ) → Type 0
AllStarted current p [] = Unit
AllStarted current p ((i, fid) ∷ entries) =
    (is_current current i ≡ false → NotWaiting p fid) × AllStarted current p entries

pub same_size : {A : Type 0} (p : Protocol A) → (size p == size p) ≡ true
same_size p = ground arith

module _ {A : Type 0} (env : Env A) (current : Option MsgId) where
  cancel_at-started :
      (fid : ℕ) (p : Protocol A)
      → NotWaiting p fid
      → cancel_at env fid (get_elem? p.futures fid) p ≡ p
  unfolding cancel_at cancel_found
  cancel_at-started fid p h = at (get_elem? p.futures fid) refl
    where
      by_state :
          (f : Future A) (s : FutureState A)
          → (f.state ≡ queued → ⊥) × (f.state ≡ awaiting → ⊥)
          → f.state ≡ s
          → cancel_found env fid f s p ≡ p
      by_state f queued k e = absurd (k.0 e)
      by_state f awaiting k e = absurd (k.1 e)
      by_state f running k e = refl
      by_state f task k e = refl
      by_state f (settled s) k e = refl

      at : (o : Option (Future A)) → get_elem? p.futures fid ≡ o → cancel_at env fid o p ≡ p
      at none e = refl
      at (some f) e = by_state f f.state (h f e) refl

  cancel_others-started :
      (entries : List (MsgId × ℕ)) (p : Protocol A)
      → AllStarted current p entries
      → cancel_others env current (size p) entries p ≡ (true, p)
  unfolding cancel_others
  cancel_others-started [] p h = ap (λ b. (b, p)) (same_size p)
  cancel_others-started ((i, fid) ∷ entries) p h =
      rw (same_size p) (elim (Bool-cases (is_current current i)) [
        | inl e ↦ rw e (cancel_others-started entries p h.1)
        | inr e ↦ rw (e, cancel_at-started fid p (h.0 e)) (cancel_others-started entries p h.1)
      ])

  -- If no request but the current one is queued or waits for a generator, and no request of the
  -- server's own waits for its response, a shutdown sets the flag, and changes nothing else.
  pub lsp_shutdown-started :
      (nothing : A) (p : Protocol A)
      → AllStarted current p p.request_futures.entries
      → lsp_shutdown env current nothing p ≡ (returned nothing, record p { shutdown = true })
  unfolding lsp_shutdown set_shutdown
  lsp_shutdown-started nothing p h = rw (cancel_others-started p.request_futures.entries p h) refl

  -- The answer to a cancelled request takes its entry from the dict, and leaves the flag.
  end_fields :
      (i : MsgId) (p : Protocol A)
      → ((call_end env (respond i) cancelled p).request_futures ≡ Dict.remove p.request_futures i)
        × ((call_end env (respond i) cancelled p).shutdown ≡ p.shutdown)
  unfolding call_end send_handler_result send_settled send_data
  end_fields i p = ground arith

  settle_fields :
      (fid : ℕ) (f : Future A) (i : MsgId) (p : Protocol A)
      → f.callback ≡ respond i
      → ((settle_future env fid f cancelled p).request_futures ≡ Dict.remove p.request_futures i)
        × ((settle_future env fid f cancelled p).shutdown ≡ p.shutdown)
  unfolding settle_future call_back
  settle_fields fid f i p c = rw c (end_fields i _)

  -- The job of a request that is queued, or a request that a generator serves.
  abbrev pub Waits : Protocol A → MsgId → ℕ → Type 0
  Waits p i fid =
      (f : Future A) × (get_elem? p.futures fid ≡ some f)
      × ((f.state ≡ queued) ⊎ (f.state ≡ awaiting))
      × (f.callback ≡ respond i)
      × (Dict.get p.request_futures i ≡ some fid)

  cancel_at-Waits :
      (i : MsgId) (fid : ℕ) (p : Protocol A)
      → Waits p i fid
      → ((cancel_at env fid (get_elem? p.futures fid) p).request_futures
          ≡ Dict.remove p.request_futures i)
        × ((cancel_at env fid (get_elem? p.futures fid) p).shutdown ≡ p.shutdown)
  unfolding cancel_at cancel_found
  cancel_at-Waits i fid p (f, here, waits, c, h) = rw here (elim waits [
    | inl q ↦ subst Ends (sym q) (settle_fields fid f i p c)
    | inr q ↦ subst Ends (sym q) (settle_fields fid f i p c)
  ])
    where
      Ends : FutureState A → Type 0
      Ends s =
          ((cancel_found env fid f s p).request_futures ≡ Dict.remove p.request_futures i)
          × ((cancel_found env fid f s p).shutdown ≡ p.shutdown)

  size-cancel :
      (i : MsgId) (fid : ℕ) (p : Protocol A)
      → Waits p i fid
      → size (cancel_at env fid (get_elem? p.futures fid) p) < size p
  size-cancel i fid p w =
      subst (λ d. length d.entries < size p) (sym (cancel_at-Waits i fid p w).0)
        (length-remove p.request_futures i w.4)

  -- Once the dict has another size, the loop stops.
  cancel_others-changed :
      (n : ℕ) (entries : List (MsgId × ℕ)) (p : Protocol A)
      → size p ≢ n
      → cancel_others env current n entries p ≡ (false, p)
  unfolding cancel_others
  cancel_others-changed n [] p h = ground arith
  cancel_others-changed n ((i, fid) ∷ entries) p h = ground arith

  cancel_others-waiting :
      (before after : List (MsgId × ℕ)) (i : MsgId) (fid : ℕ) (p : Protocol A)
      → AllStarted current p before
      → is_current current i ≡ false
      → Waits p i fid
      → cancel_others env current (size p) (before ++ (i, fid) ∷ after) p
        ≡ (false, cancel_at env fid (get_elem? p.futures fid) p)
  unfolding cancel_others
  cancel_others-waiting [] after i fid p h c w =
      let q = cancel_at env fid (get_elem? p.futures fid) p in
      rw (same_size p, c)
        (cancel_others-changed (size p) after q (λ e. omega (arith, e, size-cancel i fid p w)))
  cancel_others-waiting ((j, g) ∷ before) after i fid p h c w =
      rw (same_size p) (elim (Bool-cases (is_current current j)) [
        | inl e ↦ rw e (cancel_others-waiting before after i fid p h.1 c w)
        | inr e ↦
            rw (e, cancel_at-started g p (h.0 e))
              (cancel_others-waiting before after i fid p h.1 c w)
      ])

  -- If a request other than the current one is queued or waits for a generator, and all entries before
  -- it in the dict of requests have started or ended, a shutdown raises a RuntimeError and the flag stays
  -- as it was: the loop over the dict takes the entry of that request out of it.
  pub lsp_shutdown-waiting :
      (nothing : A) (p : Protocol A) (before after : List (MsgId × ℕ)) (i : MsgId) (fid : ℕ)
      → p.request_futures.entries ≡ before ++ (i, fid) ∷ after
      → AllStarted current p before
      → is_current current i ≡ false
      → Waits p i fid
      → ((lsp_shutdown env current nothing p).0
          ≡ raised (other "RuntimeError: dictionary changed size during iteration"))
        × ((lsp_shutdown env current nothing p).1.shutdown ≡ p.shutdown)
  unfolding lsp_shutdown set_shutdown
  lsp_shutdown-waiting nothing p before after i fid e h c w =
      let q = cancel_at env fid (get_elem? p.futures fid) p in
      let stops : cancel_others env current (size p) p.request_futures.entries p ≡ (false, q) =
        subst (λ l. cancel_others env current (size p) l p ≡ (false, q)) (sym e)
          (cancel_others-waiting before after i fid p h c w) in
      rw stops (refl, (cancel_at-Waits i fid p w).1)
