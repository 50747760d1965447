-- ===== src/Document/Words.antt =====
-- `word_at_position`: the word around a position, with the default patterns.
use mathlib.Core.List.{reverse, reverse-cons, reverse-append, reverse-reverse}
use pygls.Prelude.{
  ℕ, zero, suc, ◌+◌, ◌≤◌, ◌≡◌, ◌≢◌, refl, ap, ◌∙◌, sym, true, false, [], ◌∷◌, ◌++◌, arith, length,
  take, drop, append_assoc, get_elem?, some, take-append-drop, length-append, length-take,
  Bool-cases, inl, inr, take-append_left, lt-length_of_get_elem?, leb,
}
use pygls.Codec.{Text, Position, position_from_client_units}
use pygls.Codec.Units.{IsKnown}
use pygls.Codec.Convert.{column-le-length}
use pygls.Lines.{split_lines, NoBoundary, is_line_boundary}
use pygls.Document.{
  Disk, TextDocument, source, is_word, end_word, start_word, chop_newline, word_at_position,
}

abbrev pub AllWord : Text → Type 0
AllWord [] = Unit
AllWord (c ∷ cs) = (is_word c ≡ true) × AllWord cs

-- No word goes on at the start of the text, at its end.
abbrev pub NoWordStart : Text → Type 0
NoWordStart [] = Unit
NoWordStart (c ∷ cs) = is_word c ≡ false

abbrev pub NoWordEnd : Text → Type 0
NoWordEnd cs = NoWordStart (reverse cs)

AllWord-append : (xs ys : Text) → AllWord xs → AllWord ys → AllWord (xs ++ ys)
AllWord-append [] ys h k = k
AllWord-append (x ∷ xs) ys h k = (h.0, AllWord-append xs ys h.1 k)

AllWord-reverse : (xs : Text) → AllWord xs → AllWord (reverse xs)
AllWord-reverse [] h = tt
AllWord-reverse (x ∷ xs) h =
    rw (reverse-cons x xs) (AllWord-append (reverse xs) (x ∷ []) (AllWord-reverse xs h.1) (h.0, tt))

AllWord-end_word : (cs : Text) → AllWord (end_word cs)
unfolding end_word
AllWord-end_word [] = tt
AllWord-end_word (c ∷ cs) = elim (Bool-cases (is_word c)) [
  | inl h ↦ rw h (h, AllWord-end_word cs)
  | inr h ↦ rw h tt
]

-- The run of word characters is cut off the text, and ends where no word goes on.
end_word-split : (cs : Text) → (rest : Text) × (cs ≡ end_word cs ++ rest) × NoWordStart rest
unfolding end_word
end_word-split [] = ([], refl, tt)
end_word-split (c ∷ cs) = elim (Bool-cases (is_word c)) [
  | inl h ↦ let (rest, e, stop) = end_word-split cs in (rest, rw h (ap (◌∷◌ c) e), stop)
  | inr h ↦ (c ∷ cs, rw h refl, h)
]

abbrev NoLf : Text → Type 0
NoLf [] = Unit
NoLf (c ∷ cs) = (c ≢ 10) × NoLf cs

NoLf-append : (xs ys : Text) → NoLf xs → NoLf ys → NoLf (xs ++ ys)
NoLf-append [] ys h k = k
NoLf-append (x ∷ xs) ys h k = (h.0, NoLf-append xs ys h.1 k)

NoLf-reverse : (xs : Text) → NoLf xs → NoLf (reverse xs)
NoLf-reverse [] h = tt
NoLf-reverse (x ∷ xs) h =
    rw (reverse-cons x xs) (NoLf-append (reverse xs) (x ∷ []) (NoLf-reverse xs h.1) (h.0, tt))

NoLf-take : (n : ℕ) (cs : Text) → NoBoundary cs → NoLf (take n cs)
unfolding is_line_boundary
NoLf-take zero cs h = tt
NoLf-take (suc n) [] h = tt
NoLf-take (suc n) (c ∷ cs) h = (ground arith, NoLf-take n cs h.1)

chop_newline_of_NoLf : (cs : Text) → NoLf cs → chop_newline cs ≡ cs
chop_newline_of_NoLf [] h = refl
chop_newline_of_NoLf (c ∷ cs) h = ground arith

-- The run at the end, of a text with no newline.
start_word-split :
    (cs : Text) → NoLf cs → (pre : Text) × (cs ≡ pre ++ start_word cs) × NoWordEnd pre
unfolding start_word
start_word-split cs h =
    let (rest, e, stop) = end_word-split (reverse cs) in
    (
      reverse rest,
      rw (chop_newline_of_NoLf (reverse cs) (NoLf-reverse cs h))
          (sym (reverse-reverse cs) ∙ ap reverse e ∙ reverse-append (end_word (reverse cs)) rest),
      rw reverse-reverse stop,
    )

AllWord-start_word : (cs : Text) → AllWord (start_word cs)
unfolding start_word
AllWord-start_word cs =
    AllWord-reverse (end_word (chop_newline (reverse cs)))
      (AllWord-end_word (chop_newline (reverse cs)))

-- At a column within the text of a line, the word is the longest run of word characters around the
-- column: the line is cut into what stands before, the word, and what stands after; the column is
-- not outside the word, and the word goes on in neither direction.
pub record IsWordAt (line word : Text) (column : ℕ) : Type 0 where
  pub before : Text
  pub after : Text
  pub parts : line ≡ before ++ (word ++ after)
  pub all_word : AllWord word
  pub stops_left : NoWordEnd before
  pub stops_right : NoWordStart after
  pub not_left : length before ≤ column
  pub not_right : column ≤ length before + length word

split-IsWordAt :
    (body ending : Text) (col : ℕ)
    → NoBoundary body
    → col ≤ length body
    → IsWordAt
        (body ++ ending)
        (start_word (take col (body ++ ending)) ++ end_word (drop col (body ++ ending)))
        col
split-IsWordAt body ending col plain h =
    let line = body ++ ending in
    let l : Text = take col line in
    let r : Text = drop col line in
    let no_lf : NoLf l = rw (take-append_left col body ending h) (NoLf-take col body plain) in
    let (before, el, stop_left) = start_word-split l no_lf in
    let (after, er, stop_right) = end_word-split r in
    let n : length l ≡ col = omega (arith, length-take col line, length-append body ending) in
    let m : length l ≡ length before + length (start_word l) =
      ap length el ∙ length-append before (start_word l) in
    record {
      before = before;
      after = after;
      parts =
          sym (take-append-drop col line)
          ∙ ap (λ t. t ++ r) el
          ∙ ap (λ t. (before ++ start_word l) ++ t) er
          ∙ simp append_assoc;
      all_word =
          AllWord-append (start_word l) (end_word r) (AllWord-start_word l) (AllWord-end_word r);
      stops_left = stop_left;
      stops_right = stop_right;
      not_left = omega (arith, n, m);
      not_right = omega (arith, n, m, length-append (start_word l) (end_word r));
    }

-- On a document that can be read, for UTF-8, 16 and 32, at a position whose converted column is within
-- the text of its line, which has no line boundary: `word_at_position` returns the longest run of word
-- characters around the column.
pub word_at_position-IsWordAt :
    (disk : Disk) (doc : TextDocument) (src : Text) (p : Position) (body ending : Text)
    → source disk doc ≡ some src
    → IsKnown doc.encoding
    → get_elem? (split_lines src) p.line ≡ some (body ++ ending)
    → NoBoundary body
    → (position_from_client_units doc.encoding (split_lines src) p).character ≤ length body
    → (word : Text) × (word_at_position disk doc p ≡ some word)
      × IsWordAt
          (body ++ ending)
          word
          (position_from_client_units doc.encoding (split_lines src) p).character
unfolding word_at_position
word_at_position-IsWordAt disk doc src p body ending s known e plain h =
    let lines = split_lines src in
    let q : Position = position_from_client_units doc.encoding lines p in
    let row : q.line ≡ p.line = (column-le-length doc.encoding lines p known e).0 in
    let here : get_elem? lines q.line ≡ some (body ++ ending) = ap (get_elem? lines) row ∙ e in
    let inside : leb (length lines) p.line ≡ false =
      ground (arith, lt-length_of_get_elem? lines p.line e) in
    (
      start_word (take q.character (body ++ ending))
          ++ end_word (drop q.character (body ++ ending)),
      rw (s, inside, here) refl,
      split-IsWordAt body ending q.character plain h,
    )
