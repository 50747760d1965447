-- ===== src/Workspace/Consistency.antt =====
-- The documents of a workspace are consistent with it (pygls/workspace/workspace.py), and each operation
-- keeps them so.
use pygls.Prelude.{
  String, ◌≡◌, ◌≢◌, refl, Bool, List, [], ◌∷◌, Option, none, some, arith, Bool-cases, inl, inr,
}
use pygls.Prelude.Eq.{string_eq}
use pygls.Prelude.Dict
use pygls.Prelude.Dict.{Dict, AllValues, Covers}
use text.Mathlib.Text.{◌==◌ as str_eq}
use pygls.Codec.{Encoding}
use pygls.Outcome.{
  Keeps, Keeps-pure, Keeps-then, Keeps-for_each, Keeps-modify_then, for_each, modify,
}
use pygls.Document.{
  Disk, SyncKind, TextDocument, ContentChange, apply_change, apply_change_at, partial, whole, none_,
  full, incremental, apply_incremental_change, source,
}
use pygls.Workspace.{
  Workspace, TextDocumentItem, VersionedId, NotebookDocument, NotebookChange, CellChanges, items,
  put_text_document, put_cells, remove_text_document, remove_cells, update_text_document,
  change_document, store_changed, make_document,
}
use pygls.Workspace.Stored.{stored_document, put_text_document-parsed, put_text_document-refused}
use pygls.Workspace.Notebook.{
  update_cell_text, update_notebook_document, changed_cells, change_cells, change_notebook,
  found_notebook, store_notebook, opened, closed, set_metadata,
}

-- A managed document holds its own text, knows the key under which it is stored, and counts columns
-- and synchronises as its workspace has agreed with the client.
pub record IsOwn (kind : SyncKind) (enc : Encoding) (key : String) (d : TextDocument) : Type 0 where
  pub uri : d.uri ≡ key
  pub same_kind : d.sync_kind ≡ kind
  pub same_encoding : d.encoding ≡ enc
  pub own_source : d.source ≢ none

-- A cell that has a notebook is a managed document, too.
pub record IsConsistent {A : Type 0} (w : Workspace A) : Type 0 where
  pub documents : AllValues (IsOwn w.sync_kind w.position_encoding) w.text_documents
  pub cells : Covers w.cell_in_notebook w.text_documents

-- An edit leaves all but the source and does not lose it.
apply_change-IsOwn :
    (disk : Disk) (kind : SyncKind) (enc : Encoding) (key : String) (d : TextDocument)
    (change : ContentChange) {d' : TextDocument}
    → IsOwn kind enc key d
    → apply_change disk d change ≡ some d'
    → IsOwn kind enc key d'
unfolding apply_change
apply_change-IsOwn disk kind enc key d change h e = by_kind d.sync_kind change e
  where
    by_kind :
        (k : SyncKind) (c : ContentChange) {d' : TextDocument}
        → apply_change_at k disk d c ≡ some d'
        → IsOwn kind enc key d'
    by_kind incremental (partial r t) e =
        unfold apply_incremental_change source in
        ground (arith, h.uri, h.same_kind, h.same_encoding)
    by_kind incremental (whole t) e = ground (arith, h.uri, h.same_kind, h.same_encoding)
    by_kind none_ c e = ground (arith, h.uri, h.same_kind, h.same_encoding)
    by_kind full c e = ground (arith, h.uri, h.same_kind, h.same_encoding)

module _ {A : Type 0} where
  pub stored_document-IsConsistent :
      (item : TextDocumentItem) (notebook_uri : Option String) (w : Workspace A)
      → IsConsistent w
      → IsConsistent (stored_document item notebook_uri w)
  unfolding stored_document make_document
  stored_document-IsConsistent item notebook_uri w h = noted notebook_uri
    where
      doc : TextDocument
      doc = make_document w item.uri (some item.text) (some item.version) (some item.language_id)

      own : IsOwn w.sync_kind w.position_encoding item.uri doc
      own = record { uri = refl; same_kind = refl; same_encoding = refl; own_source = λ e. cc }

      docs :
          AllValues (IsOwn w.sync_kind w.position_encoding) (Dict.put w.text_documents item.uri doc)
      docs = Dict.AllValues-put w.text_documents item.uri doc h.documents own

      unnoted : IsConsistent (stored_document item none w)
      unnoted = record {
        documents = docs;
        cells = Dict.Covers-put_right w.cell_in_notebook w.text_documents item.uri doc h.cells;
      }

      noted : (n : Option String) → IsConsistent (stored_document item n w)
      noted none = unnoted
      noted (some n) = elim (Bool-cases (str_eq n "")) [
        | inl e ↦ rw e unnoted
        | inr e ↦ rw e (record {
          documents = docs;
          cells = Dict.Covers-put_both w.cell_in_notebook w.text_documents item.uri n doc h.cells;
        })
      ]

  pub put_text_document-IsConsistent :
      (parses : String → Bool) (item : TextDocumentItem) (notebook_uri : Option String)
      → Keeps (IsConsistent {A = A}) (put_text_document parses item notebook_uri)
  put_text_document-IsConsistent parses item notebook_uri = record {
    kept = λ w h. elim (Bool-cases (parses item.uri)) [
      | inl e ↦
          rw (put_text_document-parsed parses item notebook_uri w e)
            (stored_document-IsConsistent item notebook_uri w h)
      | inr e ↦ rw (put_text_document-refused parses item notebook_uri w e) h
    ];
  }

  pub remove_text_document-IsConsistent :
      (doc_uri : String) (w : Workspace A)
      → IsConsistent w
      → IsConsistent (remove_text_document doc_uri w)
  unfolding remove_text_document
  remove_text_document-IsConsistent doc_uri w h = record {
    documents = Dict.AllValues-remove w.text_documents doc_uri h.documents;
    cells = Dict.Covers-remove_both w.cell_in_notebook w.text_documents doc_uri h.cells;
  }

  pub put_cells-IsConsistent :
      (parses : String → Bool) (cells : List TextDocumentItem) (notebook_uri : String)
      → Keeps (IsConsistent {A = A}) (put_cells parses cells notebook_uri)
  unfolding put_cells
  put_cells-IsConsistent parses [] n = Keeps-pure tt
  put_cells-IsConsistent parses (c ∷ cs) n =
      Keeps-then _ _ (put_text_document-IsConsistent parses c (some n))
        (put_cells-IsConsistent parses cs n)

  pub remove_cells-IsConsistent :
      (cells : List String) (w : Workspace A) → IsConsistent w → IsConsistent (remove_cells cells w)
  unfolding remove_cells
  remove_cells-IsConsistent [] w h = h
  remove_cells-IsConsistent (c ∷ cs) w h =
      remove_cells-IsConsistent cs (remove_text_document c w)
        (remove_text_document-IsConsistent c w h)

  -- The other dicts do not matter.
  pub store_notebook-IsConsistent :
      (uri : String) (n : NotebookDocument A) (w : Workspace A)
      → IsConsistent w
      → IsConsistent (store_notebook uri n w)
  store_notebook-IsConsistent uri n w h = record { documents = h.documents; cells = h.cells }

  pub modify-IsConsistent :
      (f : Workspace A → Workspace A)
      → ((w : Workspace A) → IsConsistent w → IsConsistent (f w))
      → Keeps IsConsistent (modify f)
  modify-IsConsistent f h = record { kept = h }

  pub update_text_document-IsConsistent :
      (disk : Disk) (id : VersionedId) (change : ContentChange)
      → Keeps (IsConsistent {A = A}) (update_text_document disk id change)
  unfolding update_text_document
  update_text_document-IsConsistent disk id change = record {
    kept = λ w h. found w h (Dict.get w.text_documents id.uri) refl;
  }
    where
      stored :
          (w : Workspace A) (h : IsConsistent w) (o : Option TextDocument)
          → ((d : TextDocument) → o ≡ some d → IsOwn w.sync_kind w.position_encoding id.uri d)
          → IsConsistent (store_changed id o w).1
      stored w h none own = h
      stored w h (some d) own =
          let p = own d refl in
          let d' = record d { version = some id.version } in
          record {
            documents = Dict.AllValues-put w.text_documents id.uri d' h.documents (record {
              uri = p.uri;
              same_kind = p.same_kind;
              same_encoding = p.same_encoding;
              own_source = p.own_source;
            });
            cells = Dict.Covers-put_right w.cell_in_notebook w.text_documents id.uri d' h.cells;
          }

      found :
          (w : Workspace A) (h : IsConsistent w) (o : Option TextDocument)
          → Dict.get w.text_documents id.uri ≡ o
          → IsConsistent (change_document disk id change o w).1
      found w h none e = h
      found w h (some d) e = stored w h (apply_change disk d change) (λ d' e'.
          apply_change-IsOwn disk w.sync_kind w.position_encoding id.uri d change
            (h.documents id.uri d e) e')

  pub change_cells-IsConsistent :
      (parses : String → Bool) (disk : Disk) (uri : String) (changes : CellChanges A)
      (notebook : NotebookDocument A)
      → Keeps IsConsistent (change_cells parses disk uri changes notebook)
  unfolding change_cells
  change_cells-IsConsistent parses disk uri changes notebook =
      let n = record notebook { cells = changed_cells changes notebook.cells } in
      let texts = for_each (update_cell_text disk) (items changes.text_content) in
      Keeps-modify_then (store_notebook uri n) _ (store_notebook-IsConsistent uri n) (
        Keeps-then (put_cells parses (opened changes.structure) uri) _
          (put_cells-IsConsistent parses (opened changes.structure) uri)
          (Keeps-modify_then (remove_cells (closed changes.structure)) texts
            (remove_cells-IsConsistent (closed changes.structure))
            (Keeps-for_each (update_cell_text disk)
              (λ text.
                unfold update_cell_text in
                Keeps-for_each (update_text_document disk text.document)
                  (update_text_document-IsConsistent disk text.document) text.changes)
              (items changes.text_content))))

  pub update_notebook_document-IsConsistent :
      (truthy : A → Bool) (parses : String → Bool) (disk : Disk) (id : VersionedId)
      (change : NotebookChange A)
      → Keeps IsConsistent (update_notebook_document truthy parses disk id change)
  unfolding update_notebook_document
  update_notebook_document-IsConsistent truthy parses disk id change = record {
    kept = λ w. found (Dict.get w.notebook_documents id.uri) w;
  }
    where
      changed :
          (o : Option (CellChanges A)) (n : NotebookDocument A) (w : Workspace A)
          → IsConsistent w
          → IsConsistent (change_notebook parses disk id.uri o n w).1
      changed none n w h = store_notebook-IsConsistent id.uri n w h
      changed (some c) n w h = (change_cells-IsConsistent parses disk id.uri c n).kept w h

      found :
          (o : Option (NotebookDocument A)) (w : Workspace A)
          → IsConsistent w
          → IsConsistent (found_notebook truthy parses disk id change o w).1
      found none w h = h
      found (some n) w h =
          changed change.cells
            (set_metadata truthy change.metadata (record n { version = id.version })) w h
