-- ===== src/Progress/Tracking.antt =====
-- What the workers see of the cancellation of their progress.
use mathlib.Core.Option
use mathlib.Core.Path.{subst}
use pygls.Prelude.{
  ℕ, ◌<◌, ◌≡◌, refl, ap, ◌∙◌, sym, Bool, true, false, List, [], ◌∷◌, Option, none, some, arith,
  ◌==◌, if◌then◌else◌, Bool-cases, Option-cases, inl, inr,
}
use pygls.Prelude.Dict
use pygls.Prelude.Dict.{Dict, get-put, get-put_cases}
use pygls.Rpc.{MsgId, id_eq, eq_id, eq_id_iff}
use pygls.Progress.{
  Progress, register_token, create, on_created, begin, report, end, cancel, cancel_future, seen,
}

-- What happens: the server creates, begins, reports and ends progress, the client answers a
-- creation, and cancels.
pub data Event (A : Type 0) : Type 0 where
  creates answers cancels : MsgId → Event A
  begins reports ends : MsgId → A → Event A

-- Each future belongs to one token.
pub record IsSeparate {A : Type 0} (p : Progress A) : Type 0 where
  pub allocated : (t : MsgId) (f : ℕ) → Dict.get p.tokens t ≡ some f → f < p.next
  pub apart :
      (t u : MsgId) (f : ℕ) → Dict.get p.tokens t ≡ some f → Dict.get p.tokens u ≡ some f → t ≡ u

module _ {A : Type 0} where
  unfoldable pub step : Event A → Progress A → Progress A
  step (creates t) p = Option.get_or (create t p) p
  step (answers t) p = on_created t p
  step (cancels t) p = cancel t p
  step (begins t value) p = begin t value p
  step (reports t value) p = report t value p
  step (ends t value) p = end t value p

  unfoldable pub steps : List (Event A) → Progress A → Progress A
  unfolding step
  steps [] p = p
  steps (e ∷ es) p = steps es (step e p)

  -- The same of what is seen: a creation that is answered starts afresh, a beginning only where there
  -- is nothing yet, and the client cancels its own token and no other.
  abbrev pub track : Event A → (MsgId → Option Bool) → MsgId → Option Bool
  track (answers t) v k = if eq_id t k then some false else v k
  track (begins t value) v k = if eq_id t k then some (Option.get_or (v k) false) else v k
  track (cancels t) v k = if eq_id t k then Option.map (λ b. true) (v k) else v k
  track _ v k = v k

  abbrev pub track_all : List (Event A) → (MsgId → Option Bool) → MsgId → Option Bool
  track_all [] v = v
  track_all (e ∷ es) v = track_all es (track e v)

  register-IsSeparate :
      (t : MsgId) (p : Progress A) → IsSeparate p → IsSeparate (register_token t p)
  unfolding register_token
  register-IsSeparate t p h = record {
    allocated = λ u f e. elim (get-put_cases p.tokens t u p.next e) [
      | inl (_, q) ↦ omega (arith, q)
      | inr old ↦ omega (arith, h.allocated u f old)
    ];
    apart = λ u v f e d. elim (get-put_cases p.tokens t u p.next e) [
      | inl (m, q) ↦ elim (get-put_cases p.tokens t v p.next d) [
        | inl (n, _) ↦ sym m ∙ n
        | inr old ↦ absurd (omega (arith, q, h.allocated v f old))
      ]
      | inr old ↦ elim (get-put_cases p.tokens t v p.next d) [
        | inl (n, q) ↦ absurd (omega (arith, q, h.allocated u f old))
        | inr older ↦ h.apart u v f old older
      ]
    ];
  }

  seen-register :
      (t k : MsgId) (p : Progress A)
      → IsSeparate p
      → seen (register_token t p) k ≡ (if eq_id t k then some false else seen p k)
  unfolding register_token
  seen-register t k p h = elim (Bool-cases (eq_id t k)) [
    | inl here ↦ rw (get-put, here) (ground arith)
    | inr there ↦ elim (Option-cases (Dict.get p.tokens k)) [
      | inl nothing ↦ rw (get-put, there, nothing) refl
      | inr (f, found) ↦
          let older : (f == p.next) ≡ false = ground (arith, h.allocated k f found) in
          rw (get-put, there, found, older) refl
    ]
  ]

  begin-IsSeparate :
      (t : MsgId) (value : A) (p : Progress A) → IsSeparate p → IsSeparate (begin t value p)
  unfolding begin
  begin-IsSeparate t value p h = elim (Bool-cases (Dict.contains p.tokens t)) [
    | inl known ↦ rw known (record { allocated = h.allocated; apart = h.apart })
    | inr unknown ↦
        let r = register-IsSeparate t p h in
        rw unknown (record { allocated = r.allocated; apart = r.apart })
  ]

  cancel-IsSeparate : (t : MsgId) (p : Progress A) → IsSeparate p → IsSeparate (cancel t p)
  unfolding cancel cancel_future
  cancel-IsSeparate t p h = go (Dict.get p.tokens t)
    where
      go : (o : Option ℕ) → IsSeparate (cancel_future o p)
      go none = h
      go (some f) = record { allocated = h.allocated; apart = h.apart }

  seen-begin :
      (t k : MsgId) (value : A) (p : Progress A)
      → IsSeparate p
      → seen (begin t value p) k ≡ track (begins t value) (seen p) k
  unfolding begin
  seen-begin t k value p h = by_token (Dict.get p.tokens t) refl
    where
      at_k : {o : Option ℕ} → Dict.get p.tokens t ≡ o → eq_id t k ≡ true → Dict.get p.tokens k ≡ o
      at_k {o} e here = subst (λ u. Dict.get p.tokens u ≡ o) ((eq_id_iff t k).0 here) e

      by_token :
          (o : Option ℕ)
          → Dict.get p.tokens t ≡ o
          → seen (if Dict.contains p.tokens t then p else register_token t p) k
            ≡ track (begins t value) (seen p) k
      by_token none e = elim (Bool-cases (eq_id t k)) [
        | inl here ↦
            ap (λ b. seen (if b then p else register_token t p) k) (ap Dict.has_some e)
            ∙ seen-register t k p h
            ∙ rw (here, at_k e here) refl
        | inr there ↦
            ap (λ b. seen (if b then p else register_token t p) k) (ap Dict.has_some e)
            ∙ seen-register t k p h
            ∙ rw there refl
      ]
      by_token (some f) e = elim (Bool-cases (eq_id t k)) [
        | inl here ↦
            ap (λ b. seen (if b then p else register_token t p) k) (ap Dict.has_some e)
            ∙ rw (here, at_k e here) refl
        | inr there ↦
            ap (λ b. seen (if b then p else register_token t p) k) (ap Dict.has_some e)
            ∙ rw there refl
      ]

  seen-cancel :
      (t k : MsgId) (p : Progress A)
      → IsSeparate p
      → seen (cancel t p) k ≡ (if eq_id t k then Option.map (λ b. true) (seen p k) else seen p k)
  unfolding cancel cancel_future
  seen-cancel t k p h = by_token (Dict.get p.tokens t) refl
    where
      at_k : {o : Option ℕ} → Dict.get p.tokens t ≡ o → eq_id t k ≡ true → Dict.get p.tokens k ≡ o
      at_k {o} e here = subst (λ u. Dict.get p.tokens u ≡ o) ((eq_id_iff t k).0 here) e

      by_token :
          (o : Option ℕ)
          → Dict.get p.tokens t ≡ o
          → seen (cancel_future o p) k
            ≡ (if eq_id t k then Option.map (λ b. true) (seen p k) else seen p k)
      by_token none e = elim (Bool-cases (eq_id t k)) [
        | inl here ↦ rw (here, at_k e here) refl
        | inr there ↦ rw there refl
      ]
      by_token (some f) e = elim (Bool-cases (eq_id t k)) [
        | inl here ↦ rw (here, at_k e here) (ground arith)
        | inr there ↦ elim (Option-cases (Dict.get p.tokens k)) [
          | inl nothing ↦ rw (there, nothing) refl
          | inr (g, found) ↦
              let other : (g == f) ≡ false = ground (arith, h.apart t k f e, eq_id_iff t k) in
              rw (there, found, other) refl
        ]
      ]

  step-IsSeparate : (e : Event A) (p : Progress A) → IsSeparate p → IsSeparate (step e p)
  unfolding step create on_created report end
  step-IsSeparate (creates t) p h = elim (Bool-cases (Dict.contains p.tokens t)) [
    | inl known ↦ rw known h
    | inr unknown ↦ rw unknown (record { allocated = h.allocated; apart = h.apart })
  ]
  step-IsSeparate (answers t) p h = register-IsSeparate t p h
  step-IsSeparate (cancels t) p h = cancel-IsSeparate t p h
  step-IsSeparate (begins t value) p h = begin-IsSeparate t value p h
  step-IsSeparate (reports t value) p h = record { allocated = h.allocated; apart = h.apart }
  step-IsSeparate (ends t value) p h = record { allocated = h.allocated; apart = h.apart }

  seen-step :
      (e : Event A) (p : Progress A)
      → IsSeparate p
      → (k : MsgId) → seen (step e p) k ≡ track e (seen p) k
  unfolding step create on_created report end
  seen-step (creates t) p h k = elim (Bool-cases (Dict.contains p.tokens t)) [
    | inl known ↦ rw known refl
    | inr unknown ↦ rw unknown refl
  ]
  seen-step (answers t) p h k = seen-register t k p h
  seen-step (cancels t) p h k = seen-cancel t k p h
  seen-step (begins t value) p h k = seen-begin t k value p h
  seen-step (reports t value) p h k = refl
  seen-step (ends t value) p h k = refl

  track-cong :
      (e : Event A) (v u : MsgId → Option Bool)
      → ((k : MsgId) → v k ≡ u k)
      → (k : MsgId) → track e v k ≡ track e u k
  track-cong (creates t) v u h k = h k
  track-cong (answers t) v u h k = rw (h k) refl
  track-cong (cancels t) v u h k = rw (h k) refl
  track-cong (begins t value) v u h k = rw (h k) refl
  track-cong (reports t value) v u h k = h k
  track-cong (ends t value) v u h k = h k

  track_all-cong :
      (es : List (Event A)) (v u : MsgId → Option Bool)
      → ((k : MsgId) → v k ≡ u k)
      → (k : MsgId) → track_all es v k ≡ track_all es u k
  track_all-cong [] v u h k = h k
  track_all-cong (e ∷ es) v u h k = track_all-cong es _ _ (track-cong e v u h) k

  -- In any order of events, from a state in which each future belongs to one token, what a worker
  -- sees at a token is what the events of that token say: no future before the creation is answered
  -- or the progress begins, then one that is not cancelled, and cancelled from when the client cancels
  -- it. Events of other tokens change nothing, and a creation that is answered late starts afresh.
  pub seen-steps :
      (es : List (Event A)) (p : Progress A)
      → IsSeparate p
      → (k : MsgId) → seen (steps es p) k ≡ track_all es (seen p) k
  unfolding steps
  seen-steps [] p h k = refl
  seen-steps (e ∷ es) p h k =
      seen-steps es (step e p) (step-IsSeparate e p h) k ∙ track_all-cong es _ _ (seen-step e p h) k
