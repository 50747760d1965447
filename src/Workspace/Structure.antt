-- ===== src/Workspace/Structure.antt =====
-- What a change of the structure of a notebook (pygls/workspace/workspace.py) leaves in the workspace.
use pygls.Prelude.{
  String, ◌≡◌, refl, ap, ◌∙◌, Bool, false, List, [], ◌++◌, ◌+◌, Option, none, some, if◌then◌else◌,
  Bool-cases, inl, inr, take, drop,
}
use pygls.Prelude.Eq.{string_eq}
use pygls.Prelude.Dict
use pygls.Prelude.Dict.{get-put, get-remove, get-put_self}
use text.Mathlib.Text.{◌==◌ as str_eq}
use pygls.Outcome.{returned, raised, value_error, ◌>>◌, ◌>>=◌, resume, for_each}
use pygls.Workspace.Notebook.{
  update_cells, set_metadata, store_notebook, update_notebook_document, found_notebook,
  change_notebook, change_cells, changed_cells, restructure,
}
use pygls.Document.{Disk}
use pygls.Workspace.{
  Workspace, NotebookCell, NotebookDocument, make_document, remove_cells, CellStructure,
  NotebookChange, VersionedId, items,
}
use pygls.Workspace.Stored.{all_parse, parsed, stored_cells, put_cells-stored}
use pygls.Workspace.Documents.{notebooks-stored_cells}
use pygls.Workspace.Cells.{
  last_with, mentions, document_or, owner_or, stored_cells-text_documents,
  stored_cells-cell_in_notebook, remove_cells-fields, remove_cells-notebook_documents,
}

module _ {A : Type 0} where
  -- The cells that are closed: none, if the uri of one that is opened does not parse.
  abbrev pub closing : (String → Bool) → CellStructure A → List String
  closing parses s = if all_parse parses (items s.did_open) then items s.did_close else []

  -- The workspace after the change.
  abbrev restructured :
      (String → Bool) → String → NotebookDocument A → CellStructure A → Workspace A → Workspace A
  restructured parses uri notebook s w =
      remove_cells (closing parses s)
        (stored_cells (parsed parses (items s.did_open)) uri (store_notebook uri notebook w))

  -- A change of the structure of a notebook, which may come with changes of the data of cells and of the
  -- metadata, but with none of texts.
  abbrev pub structural :
      Option A → Option (List (NotebookCell A)) → CellStructure A → NotebookChange A
  structural metadata cell_data s = record {
    metadata = metadata;
    cells = some (record { structure = some s; cell_data = cell_data; text_content = none });
  }

  abbrev pub spliced : CellStructure A → List (NotebookCell A) → List (NotebookCell A)
  spliced s cells = take s.start cells ++ (items s.cells ++ drop (s.start + s.delete_count) cells)

  abbrev restructured_notebook :
      (A → Bool)
      → VersionedId
      → Option A
      → Option (List (NotebookCell A))
      → CellStructure A
      → NotebookDocument A
      → NotebookDocument A
  restructured_notebook truthy id metadata cell_data s notebook =
      let changed = set_metadata truthy metadata (record notebook { version = id.version }) in
      record changed { cells = spliced s (update_cells (items cell_data) changed.cells) }

  update-restructured :
      (truthy : A → Bool) (parses : String → Bool) (disk : Disk) (id : VersionedId)
      (metadata : Option A) (cell_data : Option (List (NotebookCell A))) (s : CellStructure A)
      (notebook : NotebookDocument A) (w : Workspace A)
      → Dict.get w.notebook_documents id.uri ≡ some notebook
      → update_notebook_document truthy parses disk id (structural metadata cell_data s) w ≡ (
        (if all_parse parses (items s.did_open) then returned tt else raised value_error),
        restructured parses id.uri
            (restructured_notebook truthy id metadata cell_data s notebook)
            s
            w,
      )
  unfolding update_notebook_document found_notebook change_notebook change_cells changed_cells
      restructure ◌>>◌ ◌>>=◌ resume for_each remove_cells
  update-restructured truthy parses disk id metadata cell_data s notebook w found =
      let nb = restructured_notebook truthy id metadata cell_data s notebook in
      let stores = put_cells-stored parses (items s.did_open) id.uri (store_notebook id.uri nb w) in
      elim (Bool-cases (all_parse parses (items s.did_open))) [
        | inl e ↦ rw (found, stores, e) refl
        | inr e ↦ rw (found, stores, e) refl
      ]

  set_metadata-cells :
      (truthy : A → Bool) (m : Option A) (notebook : NotebookDocument A)
      → ((set_metadata truthy m notebook).cells ≡ notebook.cells)
        × ((set_metadata truthy m notebook).version ≡ notebook.version)
  set_metadata-cells truthy none notebook = (refl, refl)
  set_metadata-cells truthy (some m) notebook = elim (Bool-cases (truthy m)) [
    | inl e ↦ rw e (refl, refl)
    | inr e ↦ rw e (refl, refl)
  ]

  -- A change of the structure of an open notebook with a uri that is not empty, without changes of texts:
  -- the notebook has the new version, and its cells are those before, with the changed data, where the cells
  -- from the start on, as many as are deleted, are replaced by the new ones. If the uris of all the
  -- documents that are opened parse, the change returns: the documents that are closed are not managed and
  -- not noted as cells any longer; of the others, those that are opened are managed with the text given and
  -- noted as cells of the notebook, and the rest is as before. Otherwise it raises a ValueError: only the
  -- documents before the first one whose uri does not parse are opened, and none is closed.
  pub update_notebook_document-structural :
      (truthy : A → Bool) (parses : String → Bool) (disk : Disk) (id : VersionedId)
      (metadata : Option A) (cell_data : Option (List (NotebookCell A))) (s : CellStructure A)
      (notebook : NotebookDocument A) (w : Workspace A)
      → Dict.get w.notebook_documents id.uri ≡ some notebook
      → str_eq id.uri "" ≡ false
      → (w' : Workspace A) × (update_notebook_document truthy parses disk id
            (structural metadata cell_data s)
            w
          ≡ ((if all_parse parses (items s.did_open) then returned tt else raised value_error), w'))
        × ((n : NotebookDocument A) × (Dict.get w'.notebook_documents id.uri ≡ some n)
            × (n.version ≡ id.version)
            × (n.cells ≡ spliced s (update_cells (items cell_data) notebook.cells)))
        × ((k : String)
            → (Dict.get w'.text_documents k ≡ (
                if mentions k (closing parses s)
                then none
                else document_or w
                    (last_with k (parsed parses (items s.did_open)))
                    (Dict.get w.text_documents k)))
              × (Dict.get w'.cell_in_notebook k ≡ (
                  if mentions k (closing parses s)
                  then none
                  else owner_or id.uri
                      (last_with k (parsed parses (items s.did_open)))
                      (Dict.get w.cell_in_notebook k))))
  unfolding make_document
  update_notebook_document-structural truthy parses disk id metadata cell_data s notebook w found
        n =
      let m = set_metadata-cells truthy metadata (record notebook { version = id.version }) in
      let nb = restructured_notebook truthy id metadata cell_data s notebook in
      let stored = store_notebook id.uri nb w in
      let opened = stored_cells (parsed parses (items s.did_open)) id.uri stored in
      (
        restructured parses id.uri nb s w,
        update-restructured truthy parses disk id metadata cell_data s notebook w found,
        (
          nb,
          ap (λ d. Dict.get d id.uri)
                (remove_cells-notebook_documents (closing parses s) opened
                  ∙ notebooks-stored_cells (parsed parses (items s.did_open)) id.uri stored)
              ∙ get-put_self w.notebook_documents id.uri nb,
          m.1,
          ap (λ cells. spliced s (update_cells (items cell_data) cells)) m.0,
        ),
        λ k.
            let (texts, cells) = remove_cells-fields (closing parses s) k opened in
            (
              texts
                  ∙ ap (λ o. if mentions k (closing parses s) then none else o)
                      (stored_cells-text_documents (parsed parses (items s.did_open)) id.uri k
                        stored n),
              cells
                  ∙ ap (λ o. if mentions k (closing parses s) then none else o)
                      (stored_cells-cell_in_notebook (parsed parses (items s.did_open)) id.uri k
                        stored n),
            ),
      )
