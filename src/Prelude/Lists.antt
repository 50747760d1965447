-- ===== src/Prelude/Lists.antt =====
-- Lists measured, indexed and cut by native numbers, under the library's names.
use Prim.Native.Nat.{ℕ, zero, suc, ◌+◌, ◌<◌, ◌≤◌, min}
use mathlib.Core.Path.{◌≡◌, refl, ap}
use mathlib.Core.List.{List, [], ◌∷◌, ◌++◌}
use mathlib.Core.Option.{Option, none, some}
use native.Mathlib.Omega.{arith}

module _ {ℓ} {A : Type ℓ} where
  abbrev pub get_elem? : List A → ℕ → Option A
  get_elem? [] i = none
  get_elem? (a ∷ l) zero = some a
  get_elem? (a ∷ l) (suc i) = get_elem? l i

  abbrev pub length : List A → ℕ
  length [] = 0
  length (a ∷ l) = suc (length l)

  abbrev pub take : ℕ → List A → List A
  take zero l = []
  take (suc n) [] = []
  take (suc n) (a ∷ l) = a ∷ take n l

  abbrev pub drop : ℕ → List A → List A
  drop zero l = l
  drop (suc n) [] = []
  drop (suc n) (a ∷ l) = drop n l

  abbrev pub concat : List (List A) → List A
  concat [] = []
  concat (a ∷ l) = a ++ concat l

  pub length-append : (l m : List A) → length (l ++ m) ≡ length l + length m
  length-append [] m = omega arith
  length-append (a ∷ l) m = omega (arith, length-append l m)

  pub take-append-drop : (n : ℕ) (l : List A) → take n l ++ drop n l ≡ l
  take-append-drop zero l = refl
  take-append-drop (suc n) [] = refl
  take-append-drop (suc n) (a ∷ l) = ap (◌∷◌ a) (take-append-drop n l)

  pub length-take : (n : ℕ) (l : List A) → length (take n l) ≡ min n (length l)
  length-take zero l = omega arith
  length-take (suc n) [] = omega arith
  length-take (suc n) (a ∷ l) = omega (arith, length-take n l)

  take-nil : (n : ℕ) → take n [] ≡ []
  take-nil zero = refl
  take-nil (suc n) = refl

  -- Cutting past the end takes everything and leaves nothing.
  pub take_of_length-le : (n : ℕ) (l : List A) → length l ≤ n → take n l ≡ l
  take_of_length-le n [] h = take-nil n
  take_of_length-le zero (a ∷ l) h = absurd (omega arith)
  take_of_length-le (suc n) (a ∷ l) h = ap (◌∷◌ a) (take_of_length-le n l (omega arith))

  pub drop_of_length-le : (n : ℕ) (l : List A) → length l ≤ n → drop n l ≡ []
  drop_of_length-le zero [] h = refl
  drop_of_length-le zero (a ∷ l) h = absurd (omega arith)
  drop_of_length-le (suc n) [] h = refl
  drop_of_length-le (suc n) (a ∷ l) h = drop_of_length-le n l (omega arith)

  -- A cut within the first part, and one past it.
  pub take-append_left : (n : ℕ) (l m : List A) → n ≤ length l → take n (l ++ m) ≡ take n l
  take-append_left zero l m h = refl
  take-append_left (suc n) [] m h = absurd (omega arith)
  take-append_left (suc n) (a ∷ l) m h = ap (◌∷◌ a) (take-append_left n l m (omega arith))

  pub drop-append_left : (n : ℕ) (l m : List A) → n ≤ length l → drop n (l ++ m) ≡ drop n l ++ m
  drop-append_left zero l m h = refl
  drop-append_left (suc n) [] m h = absurd (omega arith)
  drop-append_left (suc n) (a ∷ l) m h = drop-append_left n l m (omega arith)

  pub take-append_right :
      (l m : List A) (n k : ℕ) → n ≡ length l + k → take n (l ++ m) ≡ l ++ take k m
  take-append_right [] m n k h = ap (λ i. take i m) (omega arith)
  take-append_right (a ∷ l) m zero k h = absurd (omega arith)
  take-append_right (a ∷ l) m (suc n) k h = ap (◌∷◌ a) (take-append_right l m n k (omega arith))

  pub drop-append_right : (l m : List A) (n k : ℕ) → n ≡ length l + k → drop n (l ++ m) ≡ drop k m
  drop-append_right [] m n k h = ap (λ i. drop i m) (omega arith)
  drop-append_right (a ∷ l) m zero k h = absurd (omega arith)
  drop-append_right (a ∷ l) m (suc n) k h = drop-append_right l m n k (omega arith)

  pub lt-length_of_get_elem? : (l : List A) (i : ℕ) {a : A} → get_elem? l i ≡ some a → i < length l
  lt-length_of_get_elem? [] i h = cc
  lt-length_of_get_elem? (_ ∷ l) zero h = omega arith
  lt-length_of_get_elem? (_ ∷ l) (suc i) h = omega (arith, lt-length_of_get_elem? l i h)

  pub get_elem?_of_lt : (l : List A) (i : ℕ) → i < length l → (a : A) × (get_elem? l i ≡ some a)
  get_elem?_of_lt [] i h = elim h [ ]
  get_elem?_of_lt (a ∷ l) zero h = (a, refl)
  get_elem?_of_lt (_ ∷ l) (suc i) h = get_elem?_of_lt l i (omega arith)
