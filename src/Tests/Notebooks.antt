-- ===== src/Tests/Notebooks.antt =====
-- A change of the structure of a notebook (pygls/workspace/workspace.py) at a concrete input.
use pygls.Prelude.{ℕ, String, ◌≡◌, refl, true, [], ◌∷◌, none, some, if◌then◌else◌}
use pygls.Prelude.Eq.{string_eq}
use pygls.Prelude.Dict
use pygls.Outcome.{returned}
use pygls.Workspace.{Workspace, NotebookCell, NotebookDocument, CellStructure, VersionedId}
use pygls.Workspace.Notebook.{update_cells, update_notebook_document}
use pygls.Workspace.Cells.{last_with, mentions, document_or, owner_or}
use pygls.Workspace.Structure.{structural, update_notebook_document-structural}
use pygls.Tests.Editing.{no_disk, a_workspace, a_notebook, a_cell}

abbrev code_cell : String → NotebookCell ℕ
code_cell uri = record { document = uri; kind = 2; metadata = none; execution_summary = none }

-- The notebook has two cells.
abbrev two_cells : NotebookDocument ℕ
two_cells = record a_notebook { cells = code_cell "cell:0" ∷ code_cell "cell:2" ∷ [] }

abbrev with_notebook : Workspace ℕ
with_notebook = record a_workspace {
  notebook_documents = record { entries = ("file:///n", two_cells) ∷ [] };
}

abbrev next_version : VersionedId
next_version = record { uri = "file:///n"; version = 2 }

-- A cell is put in the place of the second one.
abbrev replacement : CellStructure ℕ
replacement = record {
  start = 1;
  delete_count = 1;
  cells = some (code_cell "cell:1" ∷ []);
  did_open = some (a_cell ∷ []);
  did_close = some ("cell:2" ∷ []);
}

update_notebook_document-structural_example :
    (w' : Workspace ℕ) × (update_notebook_document
        (λ m. true)
        (λ u. true)
        no_disk
        next_version
        (structural none none replacement)
        with_notebook
      ≡ (returned tt, w'))
    × ((n : NotebookDocument ℕ) × (Dict.get w'.notebook_documents "file:///n" ≡ some n)
        × (n.version ≡ 2)
        × (n.cells ≡ code_cell "cell:0" ∷ code_cell "cell:1" ∷ []))
    × ((k : String)
        → (Dict.get w'.text_documents k ≡ (
            if mentions k ("cell:2" ∷ [])
            then none
            else document_or with_notebook
                (last_with k (a_cell ∷ []))
                (Dict.get with_notebook.text_documents k)))
          × (Dict.get w'.cell_in_notebook k ≡ (
              if mentions k ("cell:2" ∷ [])
              then none
              else owner_or "file:///n"
                  (last_with k (a_cell ∷ []))
                  (Dict.get with_notebook.cell_in_notebook k))))
unfolding Dict.get update_cells
update_notebook_document-structural_example =
    update_notebook_document-structural (λ m. true) (λ u. true) no_disk next_version none none
      replacement two_cells with_notebook refl refl
