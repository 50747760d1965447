-- ===== src/Document/Edit.antt =====
-- `apply_change`: an incremental edit is a splice of the source at the offsets of its range, and
-- what the other kinds of synchronisation do.
use pygls.Prelude.{
  ℕ, zero, suc, ◌+◌, ◌-◌, ◌≤◌, ◌≡◌, ◌≢◌, refl, ap, ◌∙◌, inl, inr, false, List, [], ◌∷◌, ◌++◌, arith,
  length, take, drop, concat, get_elem?, some, none, Option-cases, lt-length_of_get_elem?, min,
  ◌==◌, if◌then◌else◌, append-nil,
}
use mathlib.Core.Option
use pygls.Codec.{
  Text, Position, Range, Encoding, position_from_client_units, range_from_client_units,
}
use pygls.Codec.Units.{IsKnown}
use pygls.Codec.Convert.{column-le-length, past_last_line}
use pygls.Lines.{split_lines, concat-split_lines}
use pygls.Document.{
  Disk, TextDocument, SyncKind, none_, full, incremental, partial, whole, source, edited,
  write_lines, apply_change, apply_change_at, apply_incremental_change, offset, offset_in,
  offset_at_position,
}
use pygls.Document.Splice.{Fits, spliced}

Fits-of_get_elem? :
    (ls : List Text) (row col : ℕ) {line : Text}
    → get_elem? ls row ≡ some line
    → col ≤ length line
    → Fits ls row col
Fits-of_get_elem? [] row col e h = cc
Fits-of_get_elem? (l ∷ ls) zero col e h = inl (rw (Option.some-injective _ _ e) h)
Fits-of_get_elem? (l ∷ ls) (suc row) col e h = Fits-of_get_elem? ls row col e h

Fits-last : (ls : List Text) (row col : ℕ) → row + 1 ≡ length ls → Fits ls row col
Fits-last [] row col e = absurd (omega arith)
Fits-last (l ∷ []) zero col e = inr refl
Fits-last (l ∷ m ∷ ls) zero col e = absurd (omega arith)
Fits-last (l ∷ ls) (suc row) col e = Fits-last ls row col (omega arith)

length-le_of_none : (ls : List Text) (i : ℕ) → get_elem? ls i ≡ none → length ls ≤ i
length-le_of_none [] i e = omega arith
length-le_of_none (l ∷ ls) zero e = cc
length-le_of_none (l ∷ ls) (suc i) e = omega (arith, length-le_of_none ls i e)

module _ (enc : Encoding) (lines : List Text) (p : Position) (known : IsKnown enc)
    (some_line : lines ≢ []) where
  pub line_from_client :
      (position_from_client_units enc lines p).line ≡ min p.line (length lines - 1)
  line_from_client = elim (Option-cases (get_elem? lines p.line)) [
    | inl e ↦
        omega (
          arith,
          length-le_of_none lines p.line e,
          (past_last_line enc lines p known some_line e).0,
        )
    | inr (line, e) ↦
        omega
          (arith, lt-length_of_get_elem? lines p.line e, (column-le-length enc lines p known e).0)
  ]

  -- A converted position is on a line, with its column on the line or the line the last.
  pub Fits-from_client :
      Fits lines
        (position_from_client_units enc lines p).line
        (position_from_client_units enc lines p).character
  Fits-from_client = elim (Option-cases (get_elem? lines p.line)) [
    | inl e ↦ Fits-last lines _ _ (past_last_line enc lines p known some_line e).0
    | inr (line, e) ↦
        let (row, col) = column-le-length enc lines p known e in
        Fits-of_get_elem? lines _ _ (rw row e) col
  ]

edited_at :
    (enc : Encoding) (lines : List Text) (r : Range) (text : Text)
    → IsKnown enc
    → lines ≢ []
    → r.start.line ≤ r.end.line
    → write_lines 0 (range_from_client_units enc lines r) text lines
      ≡ take (offset lines (position_from_client_units enc lines r.start)) (concat lines)
        ++ (text ++ drop (offset lines (position_from_client_units enc lines r.end)) (concat lines))
unfolding range_from_client_units
edited_at enc lines r text known some_line o =
    spliced (range_from_client_units enc lines r) text 0
      (position_from_client_units enc lines r.start).line
      (position_from_client_units enc lines r.end).line lines (omega arith) (omega arith)
      (omega (
        arith,
        line_from_client enc lines r.start known some_line,
        line_from_client enc lines r.end known some_line,
      ))
      (Fits-from_client enc lines r.start known some_line)
      (Fits-from_client enc lines r.end known some_line)

edited-eq :
    (enc : Encoding) (src : Text) (r : Range) (text : Text)
    → IsKnown enc
    → r.start.line ≤ r.end.line
    → edited enc src r text
      ≡ take (offset_in enc src r.start) src ++ (text ++ drop (offset_in enc src r.end) src)
unfolding edited offset_in
edited-eq enc src r text known o = cut (split_lines src) (concat-split_lines src)
  where
    cut :
        (lines : List Text)
        → concat lines ≡ src
        → (if (range_from_client_units enc lines r).start.line == length lines
            then src ++ text
            else write_lines 0 (range_from_client_units enc lines r) text lines)
          ≡ take (offset lines (position_from_client_units enc lines r.start)) src
            ++ (text ++ drop (offset lines (position_from_client_units enc lines r.end)) src)
    cut [] e =
        rw (← e) (unfold range_from_client_units position_from_client_units in simp append-nil)
    cut (l ∷ ls) e =
        let below : ((range_from_client_units enc (l ∷ ls) r).start.line == length (l ∷ ls))
            ≡ false =
          unfold range_from_client_units in
          ground (arith, line_from_client enc (l ∷ ls) r.start known (λ q. cc)) in
        rw (← e, below) (edited_at enc (l ∷ ls) r text known (λ q. cc) o)

-- On a document that can be read and is synchronised incrementally, for UTF-8, 16 and 32: an edit over a range that does not run backwards over
-- the lines replaces exactly the part of the source between the offsets of its two ends, and
-- changes nothing else of the document.
pub apply_change-splice :
    (disk : Disk) (doc : TextDocument) (r : Range) (text src : Text) (a b : ℕ)
    → source disk doc ≡ some src
    → doc.sync_kind ≡ incremental
    → IsKnown doc.encoding
    → r.start.line ≤ r.end.line
    → offset_at_position disk doc r.start ≡ some a
    → offset_at_position disk doc r.end ≡ some b
    → apply_change disk doc (partial r text)
      ≡ some (record doc { source = some (take a src ++ (text ++ drop b src)) })
unfolding apply_change offset_at_position
apply_change-splice disk doc r text src a b s kind known o ea eb =
    let ea' : offset_in doc.encoding src r.start ≡ a = Option.some-injective _ _ (rw s at ea) in
    let eb' : offset_in doc.encoding src r.end ≡ b = Option.some-injective _ _ (rw s at eb) in
    let cut : edited doc.encoding src r text ≡ take a src ++ (text ++ drop b src) =
      rw (← ea', ← eb') (edited-eq doc.encoding src r text known o) in
    ap (λ k. apply_change_at k disk doc (partial r text)) kind
    ∙ (unfold apply_incremental_change in
        rw s (ap (λ t. some (record doc { source = some t })) cut))

-- A change with no range replaces the whole source, under both kinds of synchronisation that
-- accept changes, and changes nothing else of the document; the disk is not read.
pub apply_change-whole :
    (disk : Disk) (doc : TextDocument) (text : Text)
    → doc.sync_kind ≢ none_
    → apply_change disk doc (whole text) ≡ some (record doc { source = some text })
unfolding apply_change
apply_change-whole disk doc text accepts = by_kind doc.sync_kind accepts
  where
    by_kind :
        (k : SyncKind)
        → k ≢ none_
        → apply_change_at k disk doc (whole text) ≡ some (record doc { source = some text })
    by_kind none_ h = absurd (h refl)
    by_kind full h = refl
    by_kind incremental h = refl
