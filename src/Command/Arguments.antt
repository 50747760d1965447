-- ===== src/Command/Arguments.antt =====
-- Which arguments a command is called with.
use pygls.Prelude.{◌≡◌, false, List, [], ◌∷◌, Option, some, String}
use pygls.Prelude.Eq.{string_eq}
use pygls.Prelude.Dict
use pygls.Prelude.Dict.{Dict}
use pygls.Command.{Param}

-- None of the parameters is `*args`.
abbrev pub AllSingle : List Param → Type 0
AllSingle [] = Unit
AllSingle (p ∷ params) = (p.var_positional ≡ false) × AllSingle params

module _ {V : Type 0} (structure : V → Option String → Option V) (convert : V → Option String → V)
    (total : (v : V) (t : Option String) → structure v t ≡ some (convert v t)) where
  abbrev pub converted : List Param → List V → List V
  converted (p ∷ params) (v ∷ vals) = convert v p.ptype ∷ converted params vals
  converted _ _ = []
