-- ===== src/Prelude/Dict.antt =====
-- Python's `dict`, with its insertion order, over keys with an `Eq`. `d[k] = v` on a key that is
-- there keeps its place.
use mathlib.Core.Path.{◌≡◌, refl, subst₂}
use mathlib.Core.Logic.{◌≢◌, ◌⊎◌, inl, inr}
use mathlib.Core.Bool.{Bool, true, false}
use mathlib.Core.Option.{Option, none, some}
use mathlib.Core.List.{List, [], ◌∷◌, map}
use native.Mathlib.Omega.{arith}
use pygls.Prelude.Tests.{if◌then◌else◌}
use pygls.Prelude.Eq.{Eq, same_refl}
use Prim.Native.Nat.{◌<◌, ◌≤◌}
use pygls.Prelude.Lists.{length}

pub record Dict {ℓ κ} (K : Type ℓ) (V : Type κ) : Type (ℓ ⊔ κ) where
  pub entries : List (K × V)

abbrev pub empty {ℓ κ} : {K : Type ℓ} {V : Type κ} → Dict K V
empty = record { entries = [] }

abbrev pub keys {ℓ κ} : {K : Type ℓ} {V : Type κ} → Dict K V → List K
keys d = map (λ e. e.0) d.entries

abbrev pub has_some {ℓ} : {V : Type ℓ} → Option V → Bool
has_some none = false
has_some (some v) = true

module _ {ℓ κ} {K : Type ℓ} {V : Type κ} ⦃eq : Eq K⦄ where
  lookup : K → List (K × V) → Option V
  lookup k [] = none
  lookup k ((j, v) ∷ l) = if eq.same j k then some v else lookup k l

  insert : K → V → List (K × V) → List (K × V)
  insert k v [] = (k, v) ∷ []
  insert k v ((j, w) ∷ l) = if eq.same j k then (j, v) ∷ l else (j, w) ∷ insert k v l

  -- A dict holds a key at most once; here each entry of the key goes.
  erase : K → List (K × V) → List (K × V)
  erase k [] = []
  erase k ((j, v) ∷ l) = let rest = erase k l in if eq.same j k then rest else (j, v) ∷ rest

  -- d.get(k)
  unfoldable pub get : Dict K V → K → Option V
  unfolding lookup
  get d k = lookup k d.entries

  -- k in d
  abbrev pub contains : Dict K V → K → Bool
  contains d k = has_some (get d k)

  -- d[k] = v
  unfoldable pub put : Dict K V → K → V → Dict K V
  unfolding insert
  put d k v = record { entries = insert k v d.entries }

  -- d.pop(k, None), del d[k]
  unfoldable pub remove : Dict K V → K → Dict K V
  unfolding erase
  remove d k = record { entries = erase k d.entries }

  lookup-insert :
      (k j : K) (v : V) (l : List (K × V))
      → lookup j (insert k v l) ≡ (if eq.same k j then some v else lookup j l)
  unfolding lookup insert
  lookup-insert k j v [] = refl
  lookup-insert k j v ((i, w) ∷ l) =
      ground (arith, eq.same_iff k j, eq.same_iff i k, eq.same_iff i j, lookup-insert k j v l)

  lookup-erase :
      (k j : K) (l : List (K × V))
      → lookup j (erase k l) ≡ (if eq.same k j then none else lookup j l)
  unfolding lookup erase
  lookup-erase k j [] = ground arith
  lookup-erase k j ((i, w) ∷ l) =
      ground (arith, eq.same_iff k j, eq.same_iff i k, eq.same_iff i j, lookup-erase k j l)

  pub get-put :
      (d : Dict K V) (k j : K) (v : V)
      → get (put d k v) j ≡ (if eq.same k j then some v else get d j)
  unfolding get put
  get-put d k j v = lookup-insert k j v d.entries

  pub get-remove :
      (d : Dict K V) (k j : K) → get (remove d k) j ≡ (if eq.same k j then none else get d j)
  unfolding get remove
  get-remove d k j = lookup-erase k j d.entries

  length-erase_le : (k : K) (l : List (K × V)) → length (erase k l) ≤ length l
  unfolding erase
  length-erase_le k [] = omega arith
  length-erase_le k ((j, v) ∷ l) = ground (arith, length-erase_le k l)

  length-erase_lt :
      (k : K) {v : V} (l : List (K × V)) → lookup k l ≡ some v → length (erase k l) < length l
  unfolding lookup erase
  length-erase_lt k [] h = cc
  length-erase_lt k {v = v} ((j, w) ∷ l) h =
      ground (arith, length-erase_le k l, length-erase_lt k {v = v} l)

  -- A key that is there makes the dict shorter when it goes.
  pub length-remove :
      (d : Dict K V) (k : K) {v : V}
      → get d k ≡ some v
      → length (remove d k).entries < length d.entries
  unfolding get remove
  length-remove d k h = length-erase_lt k d.entries h

  pub get-empty : (k : K) → get (empty {V = V}) k ≡ none
  unfolding get
  get-empty k = refl

  pub get-put_self : (d : Dict K V) (k : K) (v : V) → get (put d k v) k ≡ some v
  get-put_self d k v = simp (get-put, same_refl)

  pub get-put_ne : (d : Dict K V) (k j : K) (v : V) → k ≢ j → get (put d k v) j ≡ get d j
  get-put_ne d k j v h = ground (arith, get-put d k j v, eq.same_iff k j)

  pub get-remove_self : (d : Dict K V) (k : K) → get (remove d k) k ≡ none
  get-remove_self d k = simp (get-remove, same_refl)

  pub get-remove_ne : (d : Dict K V) (k j : K) → k ≢ j → get (remove d k) j ≡ get d j
  get-remove_ne d k j h = ground (arith, get-remove d k j, eq.same_iff k j)

  pub get-put_cases :
      (d : Dict K V) (k j : K) (v : V) {w : V}
      → get (put d k v) j ≡ some w
      → ((k ≡ j) × (v ≡ w)) ⊎ (get d j ≡ some w)
  get-put_cases d k j v h = ground (arith, get-put d k j v, eq.same_iff k j)

  pub get-remove_cases :
      (d : Dict K V) (k j : K) {w : V} → get (remove d k) j ≡ some w → get d j ≡ some w
  get-remove_cases d k j h = ground (arith, get-remove d k j)

  pub get-put_ne_none :
      (d : Dict K V) (k j : K) (v : V) → (k ≡ j) ⊎ (get d j ≢ none) → get (put d k v) j ≢ none
  get-put_ne_none d k j v h = ground (arith, get-put d k j v, eq.same_iff k j)

-- Each value satisfies `P` with its key.
abbrev pub AllValues {ℓ κ ν} :
    {K : Type ℓ} {V : Type κ} ⦃eq : Eq K⦄ → (K → V → Type ν) → Dict K V → Type (ℓ ⊔ κ ⊔ ν)
AllValues {K} {V} P d = (k : K) (v : V) → get d k ≡ some v → P k v

-- The keys of one dict are keys of another.
abbrev pub Covers {ℓ κ ν} :
    {K : Type ℓ} {V : Type κ} {W : Type ν} ⦃eq : Eq K⦄ → Dict K V → Dict K W → Type (ℓ ⊔ κ ⊔ ν)
Covers {K} c d = (k : K) → get c k ≢ none → get d k ≢ none

module _ {ℓ κ ν} {K : Type ℓ} {V : Type κ} ⦃eq : Eq K⦄ {P : K → V → Type ν} where
  pub AllValues-put :
      (d : Dict K V) (k : K) (v : V) → AllValues P d → P k v → AllValues P (put d k v)
  AllValues-put d k v h p j w e = elim (get-put_cases d k j v e) [
    | inl (same, val) ↦ subst₂ P same val p
    | inr old ↦ h j w old
  ]

  pub AllValues-remove : (d : Dict K V) (k : K) → AllValues P d → AllValues P (remove d k)
  AllValues-remove d k h j w e = h j w (get-remove_cases d k j e)

module _ {ℓ κ ν} {K : Type ℓ} {V : Type κ} {W : Type ν} ⦃eq : Eq K⦄ (c : Dict K V)
    (d : Dict K W) where
  pub Covers-put_right : (k : K) (w : W) → Covers c d → Covers c (put d k w)
  Covers-put_right k w h j m = get-put_ne_none d k j w (inr (h j m))

  pub Covers-put_both : (k : K) (v : V) (w : W) → Covers c d → Covers (put c k v) (put d k w)
  Covers-put_both k v w h j m =
      ground (arith, get-put c k j v, get-put d k j w, eq.same_iff k j, h j)

  pub Covers-remove_both : (k : K) → Covers c d → Covers (remove c k) (remove d k)
  Covers-remove_both k h j m = ground (arith, get-remove c k j, get-remove d k j, h j)

pub ruleset dict_laws = (get-put, get-remove, get-empty)
