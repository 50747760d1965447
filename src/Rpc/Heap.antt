-- ===== src/Rpc/Heap.antt =====
-- The futures on the heap (pygls/protocol/json_rpc.py), by their numbers.
use pygls.Prelude.{ℕ, zero, suc, ◌≡◌, ◌≢◌, refl, ap, List, [], ◌∷◌, ◌++◌, some, get_elem?, length}
use pygls.Rpc.{Future}
use pygls.Rpc.Send.{set_future}

module _ {A : Type 0} where
  pub get_elem?-set_future :
      (fs : List (Future A)) (i : ℕ) (f g : Future A)
      → get_elem? fs i ≡ some f
      → get_elem? (set_future fs i g) i ≡ some g
  unfolding set_future
  get_elem?-set_future [] i f g h = cc
  get_elem?-set_future (k ∷ fs) zero f g h = refl
  get_elem?-set_future (k ∷ fs) (suc i) f g h = get_elem?-set_future fs i f g h

  pub get_elem?-set_future_ne :
      (fs : List (Future A)) (i j : ℕ) (g : Future A)
      → i ≢ j
      → get_elem? (set_future fs i g) j ≡ get_elem? fs j
  unfolding set_future
  get_elem?-set_future_ne [] i j g n = refl
  get_elem?-set_future_ne (k ∷ fs) zero zero g n = absurd (n refl)
  get_elem?-set_future_ne (k ∷ fs) zero (suc j) g n = refl
  get_elem?-set_future_ne (k ∷ fs) (suc i) zero g n = refl
  get_elem?-set_future_ne (k ∷ fs) (suc i) (suc j) g n =
      get_elem?-set_future_ne fs i j g (λ e. n (ap suc e))

  -- A new future leaves the others, and stands at the end.
  pub get_elem?-append :
      (fs : List (Future A)) (f : Future A) (i : ℕ) {g : Future A}
      → get_elem? fs i ≡ some g
      → get_elem? (fs ++ f ∷ []) i ≡ some g
  get_elem?-append [] f i h = cc
  get_elem?-append (k ∷ fs) f zero h = h
  get_elem?-append (k ∷ fs) f (suc i) h = get_elem?-append fs f i h

  pub get_elem?-append_end :
      (fs : List (Future A)) (f : Future A) → get_elem? (fs ++ f ∷ []) (length fs) ≡ some f
  get_elem?-append_end [] f = refl
  get_elem?-append_end (k ∷ fs) f = get_elem?-append_end fs f
