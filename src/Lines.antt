-- ===== src/Lines.antt =====
-- `str.splitlines(True)`, by which `TextDocument.lines` cuts the source into lines, and its laws.
use pygls.Prelude.{
  ℕ, ◌≡◌, refl, Bool, false, not, ◌&&◌, ◌||◌, List, [], ◌∷◌, arith, ◌==◌, if◌then◌else◌, concat,
  leb,
}
use pygls.Codec.{Text, starts_with_lf}
use pygls.Codec.Convert.{NoCr}

-- \n \v \f \r, the separators FS, GS and RS, NEL, LS and PS
unfoldable pub is_line_boundary : ℕ → Bool
is_line_boundary c =
    (leb 10 c && leb c 13)
    || ((leb 28 c && leb c 30) || (c == 0x85 || (c == 0x2028 || c == 0x2029)))

-- "\r\n" is one boundary.
unfoldable pub ends_line : ℕ → Text → Bool
unfolding is_line_boundary
ends_line c rest = is_line_boundary c && not (c == 13 && starts_with_lf rest)

abbrev push_front : ℕ → List Text → List Text
push_front c [] = (c ∷ []) ∷ []
push_front c (l ∷ ls) = (c ∷ l) ∷ ls

unfoldable pub split_lines : Text → List Text
unfolding ends_line
split_lines [] = []
split_lines (c ∷ rest) =
    let ls = split_lines rest in if ends_line c rest then (c ∷ []) ∷ ls else push_front c ls

concat-push_front : (c : ℕ) (ls : List Text) → concat (push_front c ls) ≡ c ∷ concat ls
concat-push_front c [] = refl
concat-push_front c (l ∷ ls) = refl

-- The lines together are the text.
pub concat-split_lines : (s : Text) → concat (split_lines s) ≡ s
unfolding split_lines
concat-split_lines [] = refl
concat-split_lines (c ∷ s) =
    ground (arith, concat-split_lines s, concat-push_front c (split_lines s))

-- A text with no line boundary.
abbrev pub NoBoundary : Text → Type 0
NoBoundary [] = Unit
NoBoundary (c ∷ cs) = (is_line_boundary c ≡ false) × NoBoundary cs

pub NoBoundary-NoCr : (cs : Text) → NoBoundary cs → NoCr cs
unfolding is_line_boundary
NoBoundary-NoCr [] h = tt
NoBoundary-NoCr (c ∷ cs) h = (ground arith, NoBoundary-NoCr cs h.1)
