-- ===== src/Codec/Scan.antt =====
-- The `while` loop of `position_from_client_units` against the prefixes of the line.
use pygls.Prelude.{
  ℕ, zero, suc, ◌+◌, ◌-◌, ◌≤◌, ◌<◌, ◌≡◌, refl, ap, [], ◌∷◌, ◌++◌, arith, length, take, ltb,
  if◌then◌else◌,
}
use pygls.Codec.{Text, Encoding, scan, char_units}
use pygls.Codec.Units.{units, char_units_bounds}

-- The loop from its start: the number of characters that it passes over.
abbrev pub passed : Encoding → ℕ → Text → ℕ
passed enc target cs = scan enc target cs 0 0

-- The loop from any state, in terms of the loop from its start.
scan-shift :
    (enc : Encoding) (t : ℕ) (cs : Text) (ci ui : ℕ)
    → scan enc t cs ci ui ≡ ui + passed enc (t - ci) cs
unfolding scan
scan-shift enc t [] ci ui = omega arith
scan-shift enc t (c ∷ cs) ci ui =
    let w = char_units enc c in
    let e : t - (ci + w) ≡ t - ci - (0 + w) = omega arith in
    ground (
      arith,
      scan-shift enc t cs (ci + w) (ui + 1),
      scan-shift enc (t - ci) cs (0 + w) (0 + 1),
      ap (λ m. passed enc m cs) e,
    )

pub passed-cons :
    (enc : Encoding) (t c : ℕ) (cs : Text)
    → passed enc t (c ∷ cs) ≡ (if ltb 0 t then suc (passed enc (t - char_units enc c) cs) else 0)
passed-cons enc t c cs =
    let w = char_units enc c in
    let e : t - (0 + w) ≡ t - w = omega arith in
    unfold scan in ground (arith, scan-shift enc t cs (0 + w) (0 + 1), ap (λ m. passed enc m cs) e)

pub passed-le-length : (enc : Encoding) (t : ℕ) (cs : Text) → passed enc t cs ≤ length cs
passed-le-length enc t [] = unfold scan in omega arith
passed-le-length enc t (c ∷ cs) =
    ground (arith, passed-cons enc t c cs, passed-le-length enc (t - char_units enc c) cs)

-- The prefix that the loop passes over has the units that it looks for, if the text has as many.
pub le-units-passed :
    (enc : Encoding) (t : ℕ) (cs : Text)
    → t ≤ units enc cs
    → t ≤ units enc (take (passed enc t cs) cs)
le-units-passed enc t [] h = omega arith
le-units-passed enc t (c ∷ cs) h =
    ground (arith, passed-cons enc t c cs, le-units-passed enc (t - char_units enc c) cs)

-- Each shorter prefix has fewer.
pub units-lt_of_lt-passed :
    (enc : Encoding) (t : ℕ) (cs : Text) (j : ℕ) → j < passed enc t cs → units enc (take j cs) < t
units-lt_of_lt-passed enc t [] j h = absurd (unfold scan in omega arith)
units-lt_of_lt-passed enc t (c ∷ cs) zero h = ground (arith, passed-cons enc t c cs)
units-lt_of_lt-passed enc t (c ∷ cs) (suc j) h =
    ground (arith, passed-cons enc t c cs, units-lt_of_lt-passed enc (t - char_units enc c) cs j)

-- At the units of a prefix the loop stops after that prefix.
pub passed-units :
    (enc : Encoding) (cs rest : Text) → passed enc (units enc cs) (cs ++ rest) ≡ length cs
passed-units enc [] [] = unfold scan in refl
passed-units enc [] (c ∷ rest) = unfold scan in refl
passed-units enc (c ∷ cs) rest =
    let w = char_units enc c in
    let e : w + units enc cs - w ≡ units enc cs = omega arith in
    ground (
      arith,
      passed-cons enc (units enc (c ∷ cs)) c (cs ++ rest),
      char_units_bounds enc c,
      passed-units enc cs rest,
      ap (λ m. passed enc m (cs ++ rest)) e,
    )

pub passed_mono : (enc : Encoding) (s t : ℕ) (cs : Text) → s ≤ t → passed enc s cs ≤ passed enc t cs
passed_mono enc s t [] h = unfold scan in omega arith
passed_mono enc s t (c ∷ cs) h =
    let w = char_units enc c in
    ground
      (arith, passed-cons enc s c cs, passed-cons enc t c cs, passed_mono enc (s - w) (t - w) cs)
