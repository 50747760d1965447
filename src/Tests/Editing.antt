-- ===== src/Tests/Editing.antt =====
-- Runs of the documents and of the workspace (pygls/workspace/) at concrete inputs.

use pygls.Prelude.{
  ℕ, ◌+◌, ◌≤◌, ◌<◌, ◌≡◌, refl, String, true, false, List, [], ◌∷◌, ◌++◌, none, some, arith, take,
  drop, if◌then◌else◌,
}
use text.Mathlib.Text.{◌==◌ as str_eq}
use pygls.Prelude.Dict
use pygls.Prelude.Eq.{string_eq}
use pygls.Codec.{
  Text, Range, position, utf8, utf16, replace_crlf, client_num_units, utf16_unit_offset,
  sum_utf8_bytes, utf8_bytes, scan, char_units, character_from_client_units,
  position_from_client_units, position_to_client_units,
}
use pygls.Codec.Convert.{column_shortest}
use pygls.Codec.Ends.{past_newline, past_unterminated, from-to}
use pygls.Lines.{is_line_boundary, split_lines}
use pygls.Document.{
  Disk, TextDocument, incremental, partial, whole, apply_change, offset_at_position, source,
  word_at_position,
}
use pygls.Document.Edit.{apply_change-splice}
use pygls.Document.Words.{word_at_position-IsWordAt, IsWordAt}
use pygls.Outcome.{returned}
use pygls.Tests.Paths.{file_urls}
use pygls.Workspace.{
  Workspace, TextDocumentItem, VersionedId, NotebookDocument, get_text_document, init,
  new_workspace, put_text_document, create_text_document, store_document, make_document,
  update_text_document,
}
use pygls.Workspace.Consistency.{IsConsistent}
use pygls.Workspace.Invariant.{
  Operation, perform_all, reached-IsConsistent, text_put, text_removed, notebook_put, text_updated,
}
use pygls.Workspace.Documents.{get-put_text_document, update_text_document-managed}

-- "ab😀\r\n" and "c\n" and "d"
abbrev sample : Text
sample = 97 ∷ 98 ∷ 128512 ∷ 13 ∷ 10 ∷ 99 ∷ 10 ∷ 100 ∷ []

abbrev first_body : Text
first_body = 97 ∷ 98 ∷ 128512 ∷ []

abbrev sample_lines : List Text
sample_lines = (97 ∷ 98 ∷ 128512 ∷ 13 ∷ 10 ∷ []) ∷ (99 ∷ 10 ∷ []) ∷ (100 ∷ []) ∷ []

abbrev pub no_disk : Disk
no_disk uri = none

split_lines-sample : split_lines sample ≡ sample_lines
unfolding split_lines
split_lines-sample = refl

width-first_line : client_num_units utf16 (replace_crlf (first_body ++ 13 ∷ 10 ∷ [])) ≡ 5
unfolding client_num_units replace_crlf utf16_unit_offset
width-first_line = refl

width-second_line : client_num_units utf8 (99 ∷ 10 ∷ []) ≡ 2
unfolding client_num_units sum_utf8_bytes utf8_bytes
width-second_line = refl

width-third_line : client_num_units utf8 (100 ∷ []) ≡ 1
unfolding client_num_units sum_utf8_bytes utf8_bytes
width-third_line = refl

column_shortest_example :
    (3
      ≤ client_num_units utf16 (
          take
            (position_from_client_units utf16 sample_lines (position 0 3)).character
            (replace_crlf (first_body ++ 13 ∷ 10 ∷ []))))
    × ((j : ℕ)
        → j < (position_from_client_units utf16 sample_lines (position 0 3)).character
        → client_num_units utf16 (take j (replace_crlf (first_body ++ 13 ∷ 10 ∷ []))) < 3)
column_shortest_example =
    column_shortest utf16 sample_lines (position 0 3) tt refl (omega (arith, width-first_line))

past_newline_example : position_from_client_units utf8 sample_lines (position 1 9) ≡ position 1 1
past_newline_example =
    past_newline utf8 sample_lines (position 1 9) (99 ∷ []) tt ((omega arith), tt) refl
      (omega (arith, width-second_line))

past_unterminated_example :
    ((position_from_client_units utf8 sample_lines (position 2 9)).character + 1 ≡ 1)
    × (position_from_client_units utf8 sample_lines (position 2 9) ≡ position 2 0)
past_unterminated_example =
    past_unterminated utf8 sample_lines (position 2 9) [] tt tt 100 (omega arith) (omega arith)
      (omega arith) refl (omega (arith, width-third_line))

from-to_example :
    position_from_client_units utf16 sample_lines
      (position_to_client_units utf16 sample_lines (position 0 3))
    ≡ position 0 3
from-to_example =
    from-to utf16 sample_lines (position 0 3) first_body tt
      (omega arith, (omega arith, (omega arith, tt))) (13 ∷ 10 ∷ []) refl (omega arith)

abbrev opened_document : TextDocument
opened_document = record {
  uri = "file:///a";
  source = some sample;
  version = some 1;
  language_id = some "text";
  sync_kind = incremental;
  encoding = utf16;
}

-- From within the first line to within the second.
abbrev sample_range : Range
sample_range = record { start = position 0 1; end = position 1 1 }

apply_change-splice_example :
    apply_change no_disk opened_document (partial sample_range (120 ∷ []))
    ≡ some
        (record opened_document { source = some (take 1 sample ++ ((120 ∷ []) ++ drop 6 sample)) })
unfolding source offset_at_position position_from_client_units split_lines
    character_from_client_units client_num_units replace_crlf utf16_unit_offset scan char_units
apply_change-splice_example =
    apply_change-splice no_disk opened_document sample_range (120 ∷ []) sample 1 6 refl refl tt
      (omega arith) refl refl

column-word : (position_from_client_units utf16 (split_lines sample) (position 0 1)).character ≡ 1
unfolding position_from_client_units split_lines character_from_client_units client_num_units
    replace_crlf utf16_unit_offset scan char_units
column-word = refl

word_at_position-IsWordAt_example :
    (word : Text) × (word_at_position no_disk opened_document (position 0 1) ≡ some word)
    × IsWordAt
        (first_body ++ 13 ∷ 10 ∷ [])
        word
        (position_from_client_units utf16 (split_lines sample) (position 0 1)).character
unfolding source split_lines is_line_boundary
word_at_position-IsWordAt_example =
    word_at_position-IsWordAt no_disk opened_document sample (position 0 1) first_body
      (13 ∷ 10 ∷ []) refl tt refl (refl, (refl, (refl, tt))) (omega (arith, column-word))

abbrev an_item : TextDocumentItem
an_item = record { uri = "file:///a"; language_id = "text"; version = 1; text = sample }

abbrev pub a_cell : TextDocumentItem
a_cell = record { uri = "cell:1"; language_id = "text"; version = 1; text = first_body }

abbrev pub a_notebook : NotebookDocument ℕ
a_notebook = record {
  uri = "file:///n";
  notebook_type = "jupyter";
  version = 1;
  metadata = none;
  cells = [];
}

abbrev pub a_workspace : Workspace ℕ
a_workspace = record {
  root_uri = none;
  sync_kind = incremental;
  text_documents = Dict.empty;
  notebook_documents = Dict.empty;
  cell_in_notebook = Dict.empty;
  folders = Dict.empty;
  position_encoding = utf16;
}

abbrev an_id : VersionedId
an_id = record { uri = "file:///a"; version = 2 }

abbrev some_operations : List (Operation ℕ)
some_operations =
    text_put an_item none
    ∷ notebook_put a_notebook (a_cell ∷ [])
    ∷ text_updated an_id (partial sample_range [])
    ∷ text_removed "cell:1"
    ∷ []

reached-IsConsistent_example : IsConsistent (
    perform_all
      (λ a. true)
      (λ u. true)
      no_disk
      some_operations
      (new_workspace none incremental none utf16))
unfolding init
reached-IsConsistent_example =
    reached-IsConsistent (λ a. true) (λ u. true) no_disk file_urls false none incremental none utf16
      some_operations (new_workspace none incremental none utf16) refl

abbrev holding : Workspace ℕ
holding = (put_text_document (λ u. true) an_item none a_workspace).1

get-put_text_document_example :
    ((put_text_document (λ u. true) an_item none a_workspace).0 ≡ returned tt)
    × (get_text_document (λ u. true) holding "file:///a" ≡ returned opened_document)
get-put_text_document_example =
    get-put_text_document (λ u. true) an_item none a_workspace "file:///a"

update_text_document-managed_example :
    (d' : TextDocument) × (apply_change no_disk opened_document (whole []) ≡ some d')
    × ((update_text_document no_disk an_id (whole []) holding).0 ≡ returned tt)
    × ((k : String)
        → Dict.get (update_text_document no_disk an_id (whole []) holding).1.text_documents k ≡ (
            if str_eq "file:///a" k
            then some (record d' { version = some 2 })
            else Dict.get holding.text_documents k))
    × ((update_text_document no_disk an_id (whole []) holding).1.notebook_documents
        ≡ holding.notebook_documents)
unfolding perform_all init new_workspace put_text_document create_text_document store_document
    make_document Dict.get Dict.put
update_text_document-managed_example =
    update_text_document-managed no_disk an_id (whole []) holding
      (reached-IsConsistent (λ a. true) (λ u. true) no_disk file_urls false none incremental none
        utf16 (text_put an_item none ∷ []) a_workspace refl)
      refl
