-- ===== src/Workspace/Stored.antt =====
-- The documents that `put_text_document` (pygls/workspace/workspace.py) stores: those with a uri that
-- parses, up to the first one that does not.
use pygls.Prelude.{
  String, ◌≡◌, refl, Bool, true, false, List, [], ◌∷◌, Option, some, if◌then◌else◌, Bool-cases, inl,
  inr,
}
use pygls.Prelude.Eq.{string_eq}
use pygls.Prelude.Dict
use pygls.Outcome.{returned, raised, value_error, ◌>>◌, ◌>>=◌, resume}
use pygls.Workspace.{
  Workspace, TextDocumentItem, note_cell, make_document, create_text_document, store_document,
  put_text_document, put_cells,
}

-- Whether all the documents have uris that parse.
abbrev pub all_parse : (String → Bool) → List TextDocumentItem → Bool
all_parse parses [] = true
all_parse parses (c ∷ cs) = if parses c.uri then all_parse parses cs else false

-- The documents before the first one whose uri does not parse.
abbrev pub parsed : (String → Bool) → List TextDocumentItem → List TextDocumentItem
parsed parses [] = []
parsed parses (c ∷ cs) = let rest = parsed parses cs in if parses c.uri then c ∷ rest else []

module _ {A : Type 0} where
  -- The workspace with a document that is opened.
  unfoldable pub stored_document : TextDocumentItem → Option String → Workspace A → Workspace A
  stored_document item notebook_uri w = note_cell item.uri notebook_uri (record w {
    text_documents =
        Dict.put w.text_documents item.uri
          (make_document w item.uri (some item.text) (some item.version) (some item.language_id));
  })

  -- The workspace with documents that are opened as the cells of a notebook.
  unfoldable pub stored_cells : List TextDocumentItem → String → Workspace A → Workspace A
  stored_cells [] notebook_uri w = w
  stored_cells (c ∷ cs) notebook_uri w =
      stored_cells cs notebook_uri (stored_document c (some notebook_uri) w)

  pub put_text_document-parsed :
      (parses : String → Bool) (item : TextDocumentItem) (notebook_uri : Option String)
      (w : Workspace A)
      → parses item.uri ≡ true
      → put_text_document parses item notebook_uri w
        ≡ (returned tt, stored_document item notebook_uri w)
  unfolding put_text_document create_text_document store_document stored_document
  put_text_document-parsed parses item notebook_uri w e = rw e refl

  pub put_text_document-refused :
      (parses : String → Bool) (item : TextDocumentItem) (notebook_uri : Option String)
      (w : Workspace A)
      → parses item.uri ≡ false
      → put_text_document parses item notebook_uri w ≡ (raised value_error, w)
  unfolding put_text_document create_text_document store_document
  put_text_document-refused parses item notebook_uri w e = rw e refl

  pub put_cells-stored :
      (parses : String → Bool) (cs : List TextDocumentItem) (uri : String) (w : Workspace A)
      → put_cells parses cs uri w ≡ (
        (if all_parse parses cs then returned tt else raised value_error),
        stored_cells (parsed parses cs) uri w,
      )
  unfolding put_cells stored_cells ◌>>◌ ◌>>=◌ resume
  put_cells-stored parses [] uri w = refl
  put_cells-stored parses (c ∷ cs) uri w = elim (Bool-cases (parses c.uri)) [
    | inl e ↦
        rw (put_text_document-parsed parses c (some uri) w e, e)
          (put_cells-stored parses cs uri (stored_document c (some uri) w))
    | inr e ↦ rw (put_text_document-refused parses c (some uri) w e, e) refl
  ]
