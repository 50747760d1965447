-- ===== src/Document/Splice.antt =====
-- The loop of `_apply_incremental_change` is a cut of the whole source at two offsets.
use pygls.Prelude.{
  ℕ, zero, suc, ◌+◌, ◌≤◌, ◌<◌, ◌≡◌, refl, sym, ◌⊎◌, inl, inr, List, [], ◌∷◌, ◌++◌, arith, length,
  take, drop, concat, append_assoc, append-nil, take-append_left, drop-append_left,
  take-append_right, drop-append_right,
}
use pygls.Codec.{Text, Range}
use pygls.Document.{write_line, write_lines, sum_lengths}

-- Row `row` is there, and column `col` is on it, or the row is the last.
abbrev pub Fits : List Text → ℕ → ℕ → Type 0
Fits [] row col = ⊥
Fits (l ∷ ls) zero col = (col ≤ length l) ⊎ (ls ≡ [])
Fits (l ∷ ls) (suc row) col = Fits ls row col

abbrev at : List Text → ℕ → ℕ → ℕ
at ls row col = col + sum_lengths (take row ls)

at-suc :
    (l : Text) (ls : List Text) (row col : ℕ) → at (l ∷ ls) (suc row) col ≡ length l + at ls row col
at-suc l ls row col = omega arith

take-at_first :
    (l : Text) (ls : List Text) (col : ℕ)
    → Fits (l ∷ ls) zero col
    → take col (l ++ concat ls) ≡ take col l
take-at_first l ls col (inl h) = take-append_left col l (concat ls) h
take-at_first l ls col (inr e) = rw (e, append-nil)

drop-at_first :
    (l : Text) (ls : List Text) (col : ℕ)
    → Fits (l ∷ ls) zero col
    → drop col (l ++ concat ls) ≡ drop col l ++ concat ls
drop-at_first l ls col (inl h) = drop-append_left col l (concat ls) h
drop-at_first l ls col (inr e) = simp (e, append-nil)

take-at-suc :
    (l : Text) (ls : List Text) (row col : ℕ)
    → take (at (l ∷ ls) (suc row) col) (l ++ concat ls) ≡ l ++ take (at ls row col) (concat ls)
take-at-suc l ls row col = take-append_right l (concat ls) _ (at ls row col) (at-suc l ls row col)

drop-at-suc :
    (l : Text) (ls : List Text) (row col : ℕ)
    → drop (at (l ∷ ls) (suc row) col) (l ++ concat ls) ≡ drop (at ls row col) (concat ls)
drop-at-suc l ls row col = drop-append_right l (concat ls) _ (at ls row col) (at-suc l ls row col)

module _ (r : Range) (text : Text) where
  line_before : (i : ℕ) (l : Text) → i < r.start.line → write_line i r text l ≡ l
  unfolding write_line
  line_before i l h = ground arith

  line_inside : (i : ℕ) (l : Text) → r.start.line < i → i < r.end.line → write_line i r text l ≡ []
  unfolding write_line
  line_inside i l h k = ground arith

  line_last :
      (i : ℕ) (l : Text)
      → r.start.line < i
      → r.end.line ≡ i
      → write_line i r text l ≡ drop r.end.character l
  unfolding write_line
  line_last i l h e = ground arith

  line_first :
      (i : ℕ) (l : Text)
      → r.start.line ≡ i
      → i < r.end.line
      → write_line i r text l ≡ take r.start.character l ++ text
  unfolding write_line
  line_first i l e h = ground (arith, append-nil (take r.start.character l ++ text))

  line_only :
      (i : ℕ) (l : Text)
      → r.start.line ≡ i
      → r.end.line ≡ i
      → write_line i r text l ≡ (take r.start.character l ++ text) ++ drop r.end.character l
  unfolding write_line
  line_only i l e h = ground arith

  -- Lines after the range are kept.
  after :
      (i : ℕ) (ls : List Text)
      → r.start.line ≤ r.end.line
      → r.end.line < i
      → write_lines i r text ls ≡ concat ls
  unfolding write_lines write_line
  after i [] o h = refl
  after i (l ∷ ls) o h = ground (arith, after (i + 1) ls o)

  -- From a line after the start, the lines are kept from the end of the range on.
  within :
      (i row : ℕ) (ls : List Text)
      → r.start.line < i
      → r.end.line ≡ i + row
      → Fits ls row r.end.character
      → write_lines i r text ls ≡ drop (at ls row r.end.character) (concat ls)
  unfolding write_lines
  within i row [] s e f = absurd f
  within i zero (l ∷ ls) s e f =
      let e' : r.end.line ≡ i = omega arith in
      let c0 : r.end.character + 0 ≡ r.end.character = omega arith in
      rw (line_last i l s e', after (i + 1) ls (omega arith) (omega arith), c0)
        (sym (drop-at_first l ls r.end.character f))
  within i (suc row) (l ∷ ls) s e f =
      rw (line_inside i l s (omega arith), within (i + 1) row ls (omega arith) (omega arith) f)
        (sym (drop-at-suc l ls row r.end.character))

  pub spliced :
      (i rs re : ℕ) (ls : List Text)
      → r.start.line ≡ i + rs
      → r.end.line ≡ i + re
      → rs ≤ re
      → Fits ls rs r.start.character
      → Fits ls re r.end.character
      → write_lines i r text ls
        ≡ take (at ls rs r.start.character) (concat ls)
          ++ (text ++ drop (at ls re r.end.character) (concat ls))
  unfolding write_lines
  spliced i rs re [] es ee le fs fe = absurd fs
  spliced i zero zero (l ∷ ls) es ee le fs fe =
      let es' : r.start.line ≡ i = omega arith in
      let ee' : r.end.line ≡ i = omega arith in
      let c0 : r.end.character + 0 ≡ r.end.character = omega arith in
      let d0 : r.start.character + 0 ≡ r.start.character = omega arith in
      rw
        (
          line_only i l es' ee',
          after (i + 1) ls (omega arith) (omega arith),
          c0,
          d0,
          take-at_first l ls r.start.character fs,
          drop-at_first l ls r.end.character fe,
        )
        (simp append_assoc)
  spliced i zero (suc re) (l ∷ ls) es ee le fs fe =
      let es' : r.start.line ≡ i = omega arith in
      let d0 : r.start.character + 0 ≡ r.start.character = omega arith in
      rw
        (
          line_first i l es' (omega arith),
          within (i + 1) re ls (omega arith) (omega arith) fe,
          d0,
          take-at_first l ls r.start.character fs,
          drop-at-suc l ls re r.end.character,
        )
        (simp append_assoc)
  spliced i (suc rs) zero (l ∷ ls) es ee le fs fe = absurd (omega arith)
  spliced i (suc rs) (suc re) (l ∷ ls) es ee le fs fe =
      rw
        (
          line_before i l (omega arith),
          spliced (i + 1) rs re ls (omega arith) (omega arith) (omega arith) fs fe,
          take-at-suc l ls rs r.start.character,
          drop-at-suc l ls re r.end.character,
        )
        (simp append_assoc)
