-- ===== src/Codec.antt =====
-- pygls/workspace/position_codec.py: `PositionCodec`, between the client's code units and the code
-- points by which Python indexes a string. A string is the list of its code points; the types
-- `Position` and `Range` are lsprotocol's, whose numbers are unsigned integers.
use pygls.Prelude.{
  ℕ, zero, suc, ◌+◌, ◌-◌, Bool, true, false, List, [], ◌∷◌, Option, none, some, ltb, leb, ◌==◌,
  if◌then◌else◌, length, take, get_elem?, ◌&&◌,
}
pub mod Units
pub mod Scan
pub mod Convert
pub mod Ends

abbrev pub Text : Type 0
Text = List ℕ

-- `PositionEncodingKind`; `other` stands for `None` and for a string that is none of the three.
pub data Encoding : Type 0 where
  utf8 utf16 utf32 other : Encoding

pub record Position : Type 0 where
  pub line : ℕ
  pub character : ℕ

pub record Range : Type 0 where
  pub start : Position
  pub end : Position

abbrev pub position : ℕ → ℕ → Position
position l c = record { line = l; character = c }

abbrev pub is_char_beyond_multilingual_plane : ℕ → Bool
is_char_beyond_multilingual_plane char = ltb 0xFFFF char

-- The sum over a generator of Booleans counts the true ones.
unfoldable pub utf16_unit_offset : Text → ℕ
utf16_unit_offset [] = 0
utf16_unit_offset (ch ∷ chars) =
    (if is_char_beyond_multilingual_plane ch then 1 else 0) + utf16_unit_offset chars

unfoldable pub utf8_bytes : ℕ → ℕ
utf8_bytes codepoint =
    if ltb codepoint 0x80
    then 1
    else if ltb codepoint 0x800
    then 2
    else if ltb codepoint 0x10000
    then 3
    else 4

unfoldable pub sum_utf8_bytes : Text → ℕ
sum_utf8_bytes [] = 0
sum_utf8_bytes (c ∷ chars) = utf8_bytes c + sum_utf8_bytes chars

unfoldable pub client_num_units : Encoding → Text → ℕ
client_num_units utf32 chars = length chars
client_num_units utf8 chars = sum_utf8_bytes chars
client_num_units utf16 chars = length chars + utf16_unit_offset chars
client_num_units other chars = length chars + utf16_unit_offset chars

abbrev pub starts_with_lf : Text → Bool
starts_with_lf [] = false
starts_with_lf (c ∷ cs) = c == 10

-- line.replace("\r\n", "\n")
unfoldable pub replace_crlf : Text → Text
replace_crlf [] = []
replace_crlf (c ∷ cs) =
    let rest = replace_crlf cs in if c == 13 && starts_with_lf cs then rest else c ∷ rest

-- What the body of the `while` loop adds to `_client_index`.
unfoldable pub char_units : Encoding → ℕ → ℕ
char_units utf8 c = utf8_bytes c
char_units utf16 c = if is_char_beyond_multilingual_plane c then 2 else 1
char_units utf32 c = 1
char_units other c = 1

-- The `while` loop. The list is `_line[utf32_index:]`, so the loop ends with it.
unfoldable pub scan : Encoding → ℕ → Text → ℕ → ℕ → ℕ
scan enc target [] client_index utf32_index = utf32_index
scan enc target (c ∷ rest) client_index utf32_index =
    if ltb client_index target
    then scan enc target rest (client_index + char_units enc c) (utf32_index + 1)
    else utf32_index

-- lines[-1], which is read where `lines` is not empty
abbrev pub last_line : List Text → Text
last_line [] = []
last_line (l ∷ []) = l
last_line (l ∷ m ∷ ls) = last_line (m ∷ ls)

-- The part of `position_from_client_units` after the line is found. That the source also writes a
-- column past the end back into the position that it is given is left out: nothing here reads it
-- again.
unfoldable pub character_from_client_units : Encoding → Text → ℕ → ℕ
character_from_client_units enc line character =
    let line' = replace_crlf line in
    let client_end_of_line = client_num_units enc line' in
    if client_end_of_line == 0
    then 0
    else scan enc (if ltb client_end_of_line character then client_end_of_line - 1 else character)
        line' 0 0

unfoldable pub position_from_client_units : Encoding → List Text → Position → Position
position_from_client_units enc [] p = position 0 0
position_from_client_units enc (l ∷ ls) p = elim (get_elem? (l ∷ ls) p.line) [
  | none ↦ position (length (l ∷ ls) - 1) (client_num_units enc (last_line (l ∷ ls)))
  | some line ↦ position p.line (character_from_client_units enc line p.character)
]

-- `lines[position.line]` raises an IndexError past the end, which is caught.
unfoldable pub position_to_client_units : Encoding → List Text → Position → Position
position_to_client_units enc lines p = elim (get_elem? lines p.line) [
  | none ↦ position (length lines) 0
  | some line ↦ position p.line (client_num_units enc (take p.character line))
]

unfoldable pub range_from_client_units : Encoding → List Text → Range → Range
range_from_client_units enc lines r = record {
  start = position_from_client_units enc lines r.start;
  end = position_from_client_units enc lines r.end;
}

unfoldable pub range_to_client_units : Encoding → List Text → Range → Range
range_to_client_units enc lines r = record {
  start = position_to_client_units enc lines r.start;
  end = position_to_client_units enc lines r.end;
}
