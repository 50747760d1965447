-- ===== src/Outcome.antt =====
-- What a Python call does: it returns or raises, and either way it leaves a new state.
use pygls.Prelude.{List, [], ◌∷◌}

-- The exceptions that the modelled code raises or lets through.
pub data Fault : Type 0 where
  key_error os_error runtime_error value_error : Fault

pub data Outcome {ℓ} (A : Type ℓ) : Type ℓ where
  returned : A → Outcome A
  raised : Fault → Outcome A

abbrev pub Exec : Type 0 → Type 0 → Type 0
Exec S A = S → Outcome A × S

module _ {S : Type 0} where
  abbrev pub pure : {A : Type 0} → A → Exec S A
  pure a s = (returned a, s)

  abbrev pub raise : {A : Type 0} → Fault → Exec S A
  raise f s = (raised f, s)

  abbrev pub modify : (S → S) → Exec S (Unit {0})
  modify f s = (returned tt, f s)

  -- The rest of a call, after what came before it.
  unfoldable pub resume : {A B : Type 0} → (A → Exec S B) → Outcome A → Exec S B
  resume k (returned a) s = k a s
  resume k (raised f) s = (raised f, s)

  infixl 5 ◌>>=◌ ◌>>◌
  unfoldable pub ◌>>=◌ : {A B : Type 0} → Exec S A → (A → Exec S B) → Exec S B
  unfolding resume
  ◌>>=◌ m k s = let (r, s') = m s in resume k r s'

  unfoldable pub ◌>>◌ : {B : Type 0} → Exec S (Unit {0}) → Exec S B → Exec S B
  unfolding ◌>>=◌
  m >> k = m >>= λ _. k

  -- for x in xs: body(x)
  unfoldable pub for_each : {A : Type 0} → (A → Exec S (Unit {0})) → List A → Exec S (Unit {0})
  unfolding ◌>>◌
  for_each body [] = pure tt
  for_each body (x ∷ xs) = body x >> for_each body xs

  -- `m` keeps `P`, whether it returns or raises.
  pub record Keeps {A : Type 0} (P : S → Type 0) (m : Exec S A) : Type 0 where
    pub kept : (s : S) → P s → P (m s).1

  module _ {P : S → Type 0} where
    pub Keeps-raise : {A : Type 0} (f : Fault) → Keeps P (raise {A = A} f)
    Keeps-raise f = record { kept = λ s h. h }

    pub Keeps-pure : {A : Type 0} (a : A) → Keeps P (pure a)
    Keeps-pure a = record { kept = λ s h. h }

    Keeps-resume :
        {A B : Type 0} (k : A → Exec S B)
        → ((a : A) → Keeps P (k a))
        → (r : Outcome A) → Keeps P (resume k r)
    unfolding resume
    Keeps-resume k h (returned a) = h a
    Keeps-resume k h (raised f) = record { kept = λ s p. p }

    pub Keeps-bind :
        {A B : Type 0} (m : Exec S A) (k : A → Exec S B)
        → Keeps P m
        → ((a : A) → Keeps P (k a))
        → Keeps P (m >>= k)
    unfolding ◌>>=◌
    Keeps-bind m k h hk = record {
      kept = λ s p. let (r, s') = m s in (Keeps-resume k hk r).kept s' (h.kept s p);
    }

    pub Keeps-then :
        {B : Type 0} (m : Exec S (Unit {0})) (k : Exec S B)
        → Keeps P m
        → Keeps P k
        → Keeps P (m >> k)
    unfolding ◌>>◌
    Keeps-then m k h hk = Keeps-bind m (λ _. k) h (λ _. hk)

    pub Keeps-modify_then :
        {B : Type 0} (f : S → S) (k : Exec S B)
        → ((s : S) → P s → P (f s))
        → Keeps P k
        → Keeps P (modify f >> k)
    Keeps-modify_then f k h hk = Keeps-then (modify f) k (record { kept = h }) hk

    pub Keeps-for_each :
        {A : Type 0} (body : A → Exec S (Unit {0}))
        → ((x : A) → Keeps P (body x))
        → (xs : List A) → Keeps P (for_each body xs)
    unfolding for_each
    Keeps-for_each body h [] = Keeps-pure tt
    Keeps-for_each body h (x ∷ xs) =
        Keeps-then (body x) (for_each body xs) (h x) (Keeps-for_each body h xs)
