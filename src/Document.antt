-- ===== src/Document.antt =====
-- pygls/workspace/text_document.py: `TextDocument`. The source is the list of its code points.
-- `Disk` is what `pathlib.Path(...).read_text` gives for the path of a uri; `none` is an exception
-- (no such file, or bytes that are not UTF-8). `path` and `filename`, which only name that file,
-- and the unused `_local` are left out.
use pygls.Prelude.{
  ℕ, zero, suc, ◌+◌, String, Bool, true, false, ◌&&◌, ◌||◌, not, List, [], ◌∷◌, ◌++◌, Option, none,
  some, ltb, leb, ◌==◌, if◌then◌else◌, length, take, drop, get_elem?,
}
use mathlib.Core.List.{reverse}
use mathlib.Core.Option
use pygls.Codec.{
  Text, Encoding, Position, Range, range_from_client_units, position_from_client_units,
}
use pygls.Lines.{split_lines}
pub mod Splice
pub mod Edit
pub mod Words

abbrev pub Disk : Type 0
Disk = String → Option Text

pub data SyncKind : Type 0 where
  none_ full incremental : SyncKind

pub record TextDocument : Type 0 where
  pub uri : String
  pub source : Option Text
  pub version : Option ℕ
  pub language_id : Option String
  pub sync_kind : SyncKind
  pub encoding : Encoding

-- TextDocumentContentChangePartial, and the event that holds only a text
pub data ContentChange : Type 0 where
  partial : Range → Text → ContentChange
  whole : Text → ContentChange

abbrev pub text_of : ContentChange → Text
text_of (partial _ text) = text
text_of (whole text) = text

-- The property `source`: `_source or ""` is `_source` where it is not `None`.
unfoldable pub source : Disk → TextDocument → Option Text
source disk doc = elim doc.source [ none ↦ disk doc.uri | some text ↦ some text ]

-- What the body of the loop writes for line `i`.
unfoldable pub write_line : ℕ → Range → Text → Text → Text
write_line i r text line =
    if ltb i r.start.line
    then line
    else if ltb r.end.line i
    then line
    else (if i == r.start.line then take r.start.character line ++ text else [])
      ++ (if i == r.end.line then drop r.end.character line else [])

-- The loop over `enumerate(lines)`, from line `i`.
unfoldable pub write_lines : ℕ → Range → Text → List Text → Text
write_lines i r text [] = []
write_lines i r text (line ∷ lines) = write_line i r text line ++ write_lines (i + 1) r text lines

-- The new source that `_apply_incremental_change` stores.
unfoldable pub edited : Encoding → Text → Range → Text → Text
edited enc src change_range text =
    let lines = split_lines src in
    let r = range_from_client_units enc lines change_range in
    if r.start.line == length lines then src ++ text else write_lines 0 r text lines

unfoldable pub apply_incremental_change : Disk → TextDocument → Range → Text → Option TextDocument
apply_incremental_change disk doc change_range text =
    Option.map (λ src. record doc { source = some (edited doc.encoding src change_range text) })
      (source disk doc)

unfoldable pub apply_full_change : TextDocument → ContentChange → TextDocument
apply_full_change doc change = record doc { source = some (text_of change) }

unfoldable pub apply_none_change : TextDocument → TextDocument
apply_none_change doc = doc

-- The `if` at the end of `apply_change`.
unfoldable pub apply_by_kind : SyncKind → TextDocument → ContentChange → TextDocument
unfolding apply_full_change apply_none_change
apply_by_kind none_ doc change = apply_none_change doc
apply_by_kind full doc change = apply_full_change doc change
apply_by_kind incremental doc change = apply_full_change doc change

-- `none`: the source was read from disk and that raised; the document is as it was.
unfoldable pub apply_change_at :
    SyncKind → Disk → TextDocument → ContentChange → Option TextDocument
unfolding apply_by_kind
apply_change_at incremental disk doc (partial r text) = apply_incremental_change disk doc r text
apply_change_at kind disk doc change = some (apply_by_kind kind doc change)

unfoldable pub apply_change : Disk → TextDocument → ContentChange → Option TextDocument
unfolding apply_change_at
apply_change disk doc change = apply_change_at doc.sync_kind disk doc change

-- sum(len(line) for line in lines[:row])
abbrev pub sum_lengths : List Text → ℕ
sum_lengths [] = 0
sum_lengths (l ∷ ls) = length l + sum_lengths ls

abbrev pub offset : List Text → Position → ℕ
offset lines p = p.character + sum_lengths (take p.line lines)

-- `offset_at_position`, of a document whose source is `src`.
unfoldable pub offset_in : Encoding → Text → Position → ℕ
offset_in enc src client_position =
    let lines = split_lines src in
    offset lines (position_from_client_units enc lines client_position)

unfoldable pub offset_at_position : Disk → TextDocument → Position → Option ℕ
unfolding offset_in
offset_at_position disk doc client_position =
    Option.map (λ src. offset_in doc.encoding src client_position) (source disk doc)

-- [A-Za-z_0-9]
unfoldable pub is_word : ℕ → Bool
is_word c =
    (leb b'A' c && leb c b'Z')
    || ((leb b'a' c && leb c b'z') || (c == b'_' || (leb b'0' c && leb c b'9')))

-- The longest prefix of word characters: the only match of "^[A-Za-z_0-9]*".
unfoldable pub end_word : Text → Text
unfolding is_word
end_word [] = []
end_word (c ∷ cs) = let rest = end_word cs in if is_word c then c ∷ rest else []

-- `$` also matches just before a newline that ends the text.
abbrev pub chop_newline : Text → Text
chop_newline [] = []
chop_newline (c ∷ cs) = if c == 10 then cs else c ∷ cs

-- The first match of "[A-Za-z_0-9]*$": the longest run of word characters that `$` may follow.
unfoldable pub start_word : Text → Text
unfolding end_word
start_word cs = reverse (end_word (chop_newline (reverse cs)))

-- `word_at_position` with the default patterns, of a document whose source is `src`.
unfoldable pub word_in : Encoding → Text → Position → Text
word_in enc src client_position =
    let lines = split_lines src in
    let p = position_from_client_units enc lines client_position in
    if leb (length lines) client_position.line
    then []
    else (let line = Option.get_or (get_elem? lines p.line) [] in
        start_word (take p.character line) ++ end_word (drop p.character line))

unfoldable pub word_at_position : Disk → TextDocument → Position → Option Text
unfolding word_in
word_at_position disk doc client_position =
    Option.map (λ src. word_in doc.encoding src client_position) (source disk doc)
