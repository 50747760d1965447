-- ===== src/Codec/Convert.antt =====
-- `position_from_client_units` and `position_to_client_units`: what they return, in range and out.
use pygls.Prelude.{
  ℕ, ◌+◌, ◌-◌, ◌≤◌, ◌<◌, ◌≡◌, ◌≢◌, refl, ap, ◌∙◌, List, [], ◌∷◌, ◌++◌, arith, length, take,
  get_elem?, some, none, ltb, true, false,
}
use pygls.Codec.{
  Text, Encoding, Position, position, replace_crlf, last_line, client_num_units, char_units, utf8,
  utf16, utf32, other, utf8_bytes, character_from_client_units, position_from_client_units,
  position_to_client_units,
}
use pygls.Codec.Units.{units, IsKnown, client_num_units-eq-units, length-le-units}
use pygls.Codec.Scan.{passed, passed-le-length, le-units-passed, units-lt_of_lt-passed, passed_mono}

-- No carriage return: so is every line without its ending.
abbrev pub NoCr : Text → Type 0
NoCr [] = Unit
NoCr (c ∷ cs) = (c ≢ 13) × NoCr cs

pub replace_crlf-append :
    (body rest : Text) → NoCr body → replace_crlf (body ++ rest) ≡ body ++ replace_crlf rest
unfolding replace_crlf
replace_crlf-append [] rest h = refl
replace_crlf-append (c ∷ body) rest h = ground (arith, replace_crlf-append body rest h.1)

pub length-replace_crlf-le : (cs : Text) → length (replace_crlf cs) ≤ length cs
unfolding replace_crlf
length-replace_crlf-le [] = omega arith
length-replace_crlf-le (c ∷ cs) = ground (arith, length-replace_crlf-le cs)

-- The column that the loop is asked for.
abbrev pub target : ℕ → ℕ → ℕ
target end character = elim (ltb end character) [ true ↦ end - 1 | false ↦ character ]

passed-nil_units : (enc : Encoding) (t : ℕ) (cs : Text) → units enc cs ≡ 0 → passed enc t cs ≡ 0
passed-nil_units enc t cs h = omega (arith, passed-le-length enc t cs, length-le-units enc cs)

-- In range the column is the number of characters that the loop passes over.
pub character-eq-passed :
    (enc : Encoding) (line : Text) (character : ℕ)
    → IsKnown enc
    → character_from_client_units enc line character
      ≡ passed enc (target (units enc (replace_crlf line)) character) (replace_crlf line)
unfolding character_from_client_units
character-eq-passed enc line character k = ground (
  arith,
  client_num_units-eq-units enc (replace_crlf line) k,
  passed-nil_units enc (target (units enc (replace_crlf line)) character) (replace_crlf line),
)

pub from-in_range :
    (enc : Encoding) (lines : List Text) (p : Position) {line : Text}
    → get_elem? lines p.line ≡ some line
    → position_from_client_units enc lines p
      ≡ position p.line (character_from_client_units enc line p.character)
unfolding position_from_client_units
from-in_range enc [] p h = cc
from-in_range enc (l ∷ ls) p h = rw (h, position_from_client_units)

pub to-in_range :
    (enc : Encoding) (lines : List Text) (p : Position) {line : Text}
    → get_elem? lines p.line ≡ some line
    → position_to_client_units enc lines p
      ≡ position p.line (client_num_units enc (take p.character line))
unfolding position_to_client_units
to-in_range enc lines p h = rw (h, position_to_client_units)

-- For UTF-8, 16 and 32, where there are lines: a position past the last line is converted to one on
-- the last line, at or after its end.
pub past_last_line :
    (enc : Encoding) (lines : List Text) (p : Position)
    → IsKnown enc
    → lines ≢ []
    → get_elem? lines p.line ≡ none
    → ((position_from_client_units enc lines p).line + 1 ≡ length lines)
      × (length (last_line lines) ≤ (position_from_client_units enc lines p).character)
unfolding position_from_client_units
past_last_line enc [] p known h e = absurd (h refl)
past_last_line enc (l ∷ ls) p known h e =
    rw (e, position_from_client_units)
      (
        omega arith,
        omega (
          arith,
          client_num_units-eq-units enc (last_line (l ∷ ls)) known,
          length-le-units enc (last_line (l ∷ ls)),
        ),
      )

module _ (enc : Encoding) (lines : List Text) (p : Position) {line : Text} (known : IsKnown enc)
    (in_range : get_elem? lines p.line ≡ some line) where
  abbrev column : ℕ
  column = (position_from_client_units enc lines p).character

  column-passed :
      column ≡ passed enc (target (units enc (replace_crlf line)) p.character) (replace_crlf line)
  column-passed =
      ap (λ q. q.character) (from-in_range enc lines p in_range)
      ∙ character-eq-passed enc line p.character known

  -- For UTF-8, 16 and 32: whatever column of a line the client asks for, the converted column lies
  -- within the line, and the line is the same.
  pub column-le-length :
      ((position_from_client_units enc lines p).line ≡ p.line)
      × ((position_from_client_units enc lines p).character ≤ length line)
  column-le-length = (
    ap (λ q. q.line) (from-in_range enc lines p in_range),
    omega (
      arith,
      column-passed,
      length-replace_crlf-le line,
      passed-le-length enc (target (units enc (replace_crlf line)) p.character) (replace_crlf line),
    ),
  )

  -- For UTF-8, 16 and 32, within the line, whose "\r\n" counts as "\n": the column is the length of the
  -- shortest prefix that has at least the units asked for: it has them, and every shorter prefix has
  -- fewer.
  pub column_shortest :
      p.character ≤ client_num_units enc (replace_crlf line)
      → (p.character
          ≤ client_num_units enc
              (take (position_from_client_units enc lines p).character (replace_crlf line)))
        × ((j : ℕ)
            → j < (position_from_client_units enc lines p).character
            → client_num_units enc (take j (replace_crlf line)) < p.character)
  column_shortest h =
      let line' = replace_crlf line in
      let total : client_num_units enc line' ≡ units enc line' =
        client_num_units-eq-units enc line' known in
      let e : column ≡ passed enc p.character line' =
        column-passed ∙ ap (λ t. passed enc t line') (ground (arith, total)) in
      (
        rw (e, client_num_units-eq-units enc (take (passed enc p.character line') line') known)
            (le-units-passed enc p.character line' (omega (arith, total))),
        λ j lt.
            rw (client_num_units-eq-units enc (take j line') known)
              (units-lt_of_lt-passed enc p.character line' j (omega (arith, e))),
      )

-- For UTF-8, 16 and 32: a later column of the client is not converted to an earlier one, as long as
-- it is within the line.
pub column_mono :
    (enc : Encoding) (lines : List Text) (p q : Position) {line : Text}
    → IsKnown enc
    → get_elem? lines p.line ≡ some line
    → q.line ≡ p.line
    → p.character ≤ q.character
    → q.character ≤ client_num_units enc (replace_crlf line)
    → (position_from_client_units enc lines p).character
      ≤ (position_from_client_units enc lines q).character
column_mono enc lines p q {line} known hp same le h =
    let line' = replace_crlf line in
    let n = units enc line' in
    let total : client_num_units enc line' ≡ n = client_num_units-eq-units enc line' known in
    let hq : get_elem? lines q.line ≡ some line = rw same hp in
    let ep : target n p.character ≡ p.character = ground (arith, total) in
    let eq : target n q.character ≡ q.character = ground (arith, total) in
    omega (
      arith,
      column-passed enc lines p known hp ∙ ap (λ t. passed enc t line') ep,
      column-passed enc lines q known hq ∙ ap (λ t. passed enc t line') eq,
      passed_mono enc p.character q.character line' le,
    )

pub char_units-ascii : (enc : Encoding) (c : ℕ) → c < 128 → char_units enc c ≡ 1
unfolding char_units utf8_bytes
char_units-ascii utf8 c h = ground arith
char_units-ascii utf16 c h = ground arith
char_units-ascii utf32 c h = refl
char_units-ascii other c h = refl
