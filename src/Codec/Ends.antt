-- ===== src/Codec/Ends.antt =====
-- `position_from_client_units` and `position_to_client_units` on a line by its text and what ends it.
use pygls.Prelude.{
  ℕ, ◌+◌, ◌≤◌, ◌<◌, ◌≡◌, ◌≢◌, ap, ◌∙◌, sym, List, [], ◌∷◌, ◌++◌, arith, length, take, get_elem?,
  some, length-append, take-append_left, append-nil, drop, take-append-drop, append_assoc,
  length-take,
}
use pygls.Codec.{
  Text, Encoding, Position, position, replace_crlf, client_num_units, position_from_client_units,
  position_to_client_units,
}
use pygls.Codec.Units.{units, IsKnown, client_num_units-eq-units, units-append}
use pygls.Codec.Scan.{passed, passed-units}
use pygls.Codec.Convert.{
  NoCr, char_units-ascii, character-eq-passed, from-in_range, replace_crlf-append, target,
  to-in_range,
}

-- A column that is the units of a prefix is converted to the length of that prefix.
passed-prefix :
    (enc : Encoding) (pre rest : Text)
    → passed enc (target (units enc (pre ++ rest)) (units enc pre)) (pre ++ rest) ≡ length pre
passed-prefix enc pre rest =
    let e : target (units enc (pre ++ rest)) (units enc pre) ≡ units enc pre =
      ground (arith, units-append enc pre rest) in
    ap (λ t. passed enc t (pre ++ rest)) e ∙ passed-units enc pre rest

take-prefix :
    (n : ℕ) (body rest : Text)
    → n ≤ length body
    → (take n body ++ (drop n body ++ rest)) ≡ body ++ rest
take-prefix n body rest h =
    sym (append_assoc (take n body) (drop n body) rest)
    ∙ ap (λ b. b ++ rest) (take-append-drop n body)

module _ (enc : Encoding) (lines : List Text) (p : Position) (body : Text) (known : IsKnown enc)
    (no_cr : NoCr body) where
  past_end :
      (c : ℕ)
      → c < 128
      → c ≢ 13
      → get_elem? lines p.line ≡ some (body ++ c ∷ [])
      → client_num_units enc (body ++ c ∷ []) < p.character
      → position_from_client_units enc lines p ≡ position p.line (length body)
  past_end c ascii not_cr h past =
      let line = body ++ c ∷ [] in
      let e : replace_crlf line ≡ line =
        replace_crlf-append body (c ∷ []) no_cr
        ∙ unfold replace_crlf in ground (arith, append-nil body) in
      let n : units enc line ≡ units enc body + 1 =
        omega (arith, units-append enc body (c ∷ []), char_units-ascii enc c ascii) in
      let t : target (units enc line) p.character ≡ units enc body =
        ground (arith, n, client_num_units-eq-units enc line known) in
      from-in_range enc lines p h
      ∙ ap (position p.line) (
          character-eq-passed enc line p.character known
          ∙ ap (λ l. passed enc (target (units enc l) p.character) l) e
          ∙ ap (λ m. passed enc m line) t
          ∙ passed-units enc body (c ∷ []))

  -- For UTF-8, 16 and 32, on a line that ends in a newline and has no carriage return: a column past
  -- its end is converted to the column just before the newline.
  pub past_newline :
      get_elem? lines p.line ≡ some (body ++ 10 ∷ [])
      → client_num_units enc (body ++ 10 ∷ []) < p.character
      → position_from_client_units enc lines p ≡ position p.line (length body)
  past_newline = past_end 10 (omega arith) (omega arith)

  -- For UTF-8, 16 and 32, on a line with no newline and no carriage return, which ends in an ASCII
  -- character: a column past its end is converted to the column before that character, not to the
  -- end of the line.
  pub past_unterminated :
      (c : ℕ)
      → c < 128
      → c ≢ 13
      → c ≢ 10
      → get_elem? lines p.line ≡ some (body ++ c ∷ [])
      → client_num_units enc (body ++ c ∷ []) < p.character
      → ((position_from_client_units enc lines p).character + 1 ≡ length (body ++ c ∷ []))
        × (position_from_client_units enc lines p ≡ position p.line (length body))
  past_unterminated c ascii not_cr _ h past =
      let e : position_from_client_units enc lines p ≡ position p.line (length body) =
        past_end c ascii not_cr h past in
      (omega (arith, ap (λ q. q.character) e, length-append body (c ∷ [])), e)

  -- For UTF-8, 16 and 32, on a line whose text has no carriage return: a position of the server within
  -- the text is found again from its conversion to the client's units, whatever ends the line.
  pub from-to :
      (ending : Text)
      → get_elem? lines p.line ≡ some (body ++ ending)
      → p.character ≤ length body
      → position_from_client_units enc lines (position_to_client_units enc lines p) ≡ p
  from-to ending h within =
      let n = p.character in
      let line = body ++ ending in
      let pre = take n body in
      let rest = drop n body ++ replace_crlf ending in
      let l : replace_crlf line ≡ pre ++ rest =
        replace_crlf-append body ending no_cr
        ∙ sym (take-prefix n body (replace_crlf ending) within) in
      let to : position_to_client_units enc lines p ≡ position p.line (units enc pre) =
        to-in_range enc lines p h
        ∙ ap (position p.line) (
            ap (client_num_units enc) (take-append_left n body ending within)
            ∙ client_num_units-eq-units enc pre known) in
      ap (position_from_client_units enc lines) to
      ∙ from-in_range enc lines (position p.line (units enc pre)) h
      ∙ ap (position p.line) (
          character-eq-passed enc line (units enc pre) known
          ∙ ap (λ l. passed enc (target (units enc l) (units enc pre)) l) l
          ∙ passed-prefix enc pre rest
          ∙ omega (arith, length-take n body))
