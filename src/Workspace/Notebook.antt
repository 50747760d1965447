-- ===== src/Workspace/Notebook.antt =====
-- pygls/workspace/workspace.py: `update_notebook_document`, the changes of a notebook and its cells.
use pygls.Prelude.{
  ◌+◌, String, Bool, List, [], ◌∷◌, ◌++◌, Option, none, some, if◌then◌else◌, take, drop,
}
use mathlib.Core.Option
use pygls.Prelude.Eq.{string_eq}
use pygls.Prelude.Dict
use pygls.Prelude.Dict.{Dict}
use text.Mathlib.Text.{◌==◌ as str_eq}
use pygls.Outcome.{key_error, Exec, raise, modify, ◌>>◌, for_each}
use pygls.Document.{Disk}
use pygls.Workspace.{
  Workspace, NotebookCell, NotebookDocument, CellStructure, CellText, CellChanges, NotebookChange,
  TextDocumentItem, VersionedId, items, update_text_document, put_cells, remove_cells,
}

module _ {A : Type 0} where
  abbrev pub with_data : NotebookCell A → NotebookCell A → NotebookCell A
  with_data new_data cell = record cell {
    kind = new_data.kind;
    metadata = new_data.metadata;
    execution_summary = new_data.execution_summary;
  }

  -- `nb_cells` maps a document to the last cell that has it; `none` is its missing key.
  unfoldable pub update_cell :
      NotebookCell A → List (NotebookCell A) → Option (List (NotebookCell A))
  update_cell new_data [] = none
  update_cell new_data (c ∷ cs) = elim (update_cell new_data cs) [
    | some cs' ↦ some (c ∷ cs')
    | none ↦ if str_eq c.document new_data.document then some (with_data new_data c ∷ cs) else none
  ]

  -- A change of a cell that is not in the notebook is ignored.
  unfoldable pub update_cells :
      List (NotebookCell A) → List (NotebookCell A) → List (NotebookCell A)
  unfolding update_cell
  update_cells [] cells = cells
  update_cells (d ∷ changed) cells =
      update_cells changed (Option.get_or (update_cell d cells) cells)

  unfoldable pub restructure :
      Option (CellStructure A) → List (NotebookCell A) → List (NotebookCell A)
  restructure none cells = cells
  restructure (some s) cells =
      take s.start cells ++ (items s.cells ++ drop (s.start + s.delete_count) cells)

  abbrev pub set_metadata : (A → Bool) → Option A → NotebookDocument A → NotebookDocument A
  set_metadata truthy none notebook = notebook
  set_metadata truthy (some m) notebook =
      if truthy m then record notebook { metadata = some m } else notebook

  abbrev pub opened : Option (CellStructure A) → List TextDocumentItem
  opened none = []
  opened (some s) = items s.did_open

  abbrev pub closed : Option (CellStructure A) → List String
  closed none = []
  closed (some s) = items s.did_close

  abbrev pub store_notebook : String → NotebookDocument A → Workspace A → Workspace A
  store_notebook uri notebook w = record w {
    notebook_documents = Dict.put w.notebook_documents uri notebook;
  }

  -- for change in text.changes: self.update_text_document(text.document, change)
  unfoldable pub update_cell_text : Disk → CellText → Exec (Workspace A) (Unit {0})
  update_cell_text disk text = for_each (update_text_document disk text.document) text.changes

  -- The cells of the notebook after the changes to their data and to its structure.
  unfoldable pub changed_cells : CellChanges A → List (NotebookCell A) → List (NotebookCell A)
  unfolding update_cells restructure
  changed_cells changes cells =
      restructure changes.structure (update_cells (items changes.cell_data) cells)

  unfoldable pub change_cells :
      (String → Bool)
      → Disk
      → String
      → CellChanges A
      → NotebookDocument A
      → Exec (Workspace A) (Unit {0})
  unfolding update_cell_text
  change_cells parses disk uri changes notebook = do
    modify (store_notebook uri (record notebook { cells = changed_cells changes notebook.cells }))
    put_cells parses (opened changes.structure) uri
    modify (remove_cells (closed changes.structure))
    for_each (update_cell_text disk) (items changes.text_content)

  unfoldable pub change_notebook :
      (String → Bool)
      → Disk
      → String
      → Option (CellChanges A)
      → NotebookDocument A
      → Exec (Workspace A) (Unit {0})
  unfolding change_cells
  change_notebook parses disk uri none notebook = modify (store_notebook uri notebook)
  change_notebook parses disk uri (some changes) notebook =
      change_cells parses disk uri changes notebook

  unfoldable pub found_notebook :
      (A → Bool)
      → (String → Bool)
      → Disk
      → VersionedId
      → NotebookChange A
      → Option (NotebookDocument A)
      → Exec (Workspace A) (Unit {0})
  unfolding change_notebook
  found_notebook truthy parses disk id change none = raise key_error
  found_notebook truthy parses disk id change (some notebook) =
      change_notebook parses disk id.uri change.cells
        (set_metadata truthy change.metadata (record notebook { version = id.version }))

  unfoldable pub update_notebook_document :
      (A → Bool)
      → (String → Bool)
      → Disk
      → VersionedId
      → NotebookChange A
      → Exec (Workspace A) (Unit {0})
  unfolding found_notebook
  update_notebook_document truthy parses disk id change w =
      found_notebook truthy parses disk id change (Dict.get w.notebook_documents id.uri) w
