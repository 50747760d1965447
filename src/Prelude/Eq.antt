-- ===== src/Prelude/Eq.antt =====
-- Python's `==` on the keys of dicts, as an interface: a Boolean test that decides equality.
use mathlib.Core.Path.{◌≡◌, refl}
use mathlib.Core.Logic.{◌↔◌}
use mathlib.Core.Bool.{Bool, true}
use Prim.Native.String.{String}
use text.Mathlib.Text.{◌==◌ as str_eq}
use text.Mathlib.TextEquality.{eq_iff}

pub record Eq {ℓ} (A : Type ℓ) : Type ℓ where
  pub same : A → A → Bool
  pub same_iff : (a b : A) → (same a b ≡ true) ↔ (a ≡ b)

instance abbrev pub string_eq : Eq String
string_eq = record { same = str_eq; same_iff = eq_iff }

pub same_refl {ℓ} : {A : Type ℓ} ⦃e : Eq A⦄ (a : A) → e.same a a ≡ true
same_refl ⦃e⦄ a = (e.same_iff a a).1 refl
