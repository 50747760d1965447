-- ===== src/Workspace/Cells.antt =====
-- The documents of cells that are opened and closed together (pygls/workspace/workspace.py).
use pygls.Prelude.{
  String, ◌≡◌, refl, ap, ◌∙◌, Bool, true, false, List, [], ◌∷◌, Option, none, some, arith,
  if◌then◌else◌, Bool-cases, inl, inr,
}
use pygls.Prelude.Eq.{string_eq}
use pygls.Prelude.Dict
use pygls.Prelude.Dict.{get-put, get-remove, get-put_self}
use text.Mathlib.Text.{◌==◌ as str_eq}
use pygls.Document.{TextDocument}
use pygls.Workspace.{Workspace, TextDocumentItem, make_document, remove_text_document, remove_cells}
use pygls.Workspace.Stored.{stored_document, stored_cells}

-- The last of the documents with the uri, if there is one.
abbrev pub last_with : String → List TextDocumentItem → Option TextDocumentItem
last_with k [] = none
last_with k (c ∷ cs) = elim (last_with k cs) [
  | some item ↦ some item
  | none ↦ if str_eq c.uri k then some c else none
]

abbrev pub mentions : String → List String → Bool
mentions k [] = false
mentions k (u ∷ us) = if str_eq u k then true else mentions k us

-- The notebook of a cell that is opened in one, or the one before.
abbrev pub owner_or : String → Option TextDocumentItem → Option String → Option String
owner_or uri none old = old
owner_or uri (some item) old = some uri

module _ {A : Type 0} where
  -- The document that is opened with the uri, or the one before.
  abbrev pub document_or :
      Workspace A → Option TextDocumentItem → Option TextDocument → Option TextDocument
  document_or w none old = old
  document_or w (some item) old =
      some (make_document w item.uri (some item.text) (some item.version) (some item.language_id))

  -- The workspace with a cell that is opened.
  abbrev with_cell : TextDocumentItem → String → Workspace A → Workspace A
  with_cell c uri w = record w {
    text_documents =
        Dict.put w.text_documents c.uri
          (make_document w c.uri (some c.text) (some c.version) (some c.language_id));
    cell_in_notebook = Dict.put w.cell_in_notebook c.uri uri;
  }

  stored_document-eq :
      (c : TextDocumentItem) (uri : String) (w : Workspace A)
      → str_eq uri "" ≡ false
      → stored_document c (some uri) w ≡ with_cell c uri w
  unfolding stored_document
  stored_document-eq c uri w n = rw n refl

  pub stored_cells-text_documents :
      (cs : List TextDocumentItem) (uri k : String) (w : Workspace A)
      → str_eq uri "" ≡ false
      → Dict.get (stored_cells cs uri w).text_documents k
        ≡ document_or w (last_with k cs) (Dict.get w.text_documents k)
  unfolding stored_cells make_document
  stored_cells-text_documents [] uri k w n = refl
  stored_cells-text_documents (c ∷ cs) uri k w n =
      ap (λ v. Dict.get (stored_cells cs uri v).text_documents k) (stored_document-eq c uri w n)
      ∙ stored_cells-text_documents cs uri k put n
      ∙ by_rest (last_with k cs)
    where
      made : TextDocument
      made = make_document w c.uri (some c.text) (some c.version) (some c.language_id)

      put : Workspace A
      put = with_cell c uri w

      by_rest :
          (o : Option TextDocumentItem)
          → document_or put o (Dict.get put.text_documents k)
            ≡ document_or w
                (elim o [ some item ↦ some item | none ↦ if str_eq c.uri k then some c else none ])
                (Dict.get w.text_documents k)
      by_rest (some item) = refl
      by_rest none = elim (Bool-cases (str_eq c.uri k)) [
        | inl e ↦ rw (get-put w.text_documents c.uri k made, e) refl
        | inr e ↦ rw (get-put w.text_documents c.uri k made, e) refl
      ]

  pub stored_cells-cell_in_notebook :
      (cs : List TextDocumentItem) (uri k : String) (w : Workspace A)
      → str_eq uri "" ≡ false
      → Dict.get (stored_cells cs uri w).cell_in_notebook k
        ≡ owner_or uri (last_with k cs) (Dict.get w.cell_in_notebook k)
  unfolding stored_cells
  stored_cells-cell_in_notebook [] uri k w n = refl
  stored_cells-cell_in_notebook (c ∷ cs) uri k w n =
      ap (λ v. Dict.get (stored_cells cs uri v).cell_in_notebook k) (stored_document-eq c uri w n)
      ∙ stored_cells-cell_in_notebook cs uri k put n
      ∙ by_rest (last_with k cs)
    where
      put : Workspace A
      put = with_cell c uri w

      by_rest :
          (o : Option TextDocumentItem)
          → owner_or uri o (Dict.get put.cell_in_notebook k)
            ≡ owner_or uri
                (elim o [ some item ↦ some item | none ↦ if str_eq c.uri k then some c else none ])
                (Dict.get w.cell_in_notebook k)
      by_rest (some item) = refl
      by_rest none = elim (Bool-cases (str_eq c.uri k)) [
        | inl e ↦ rw (get-put w.cell_in_notebook c.uri k uri, e) refl
        | inr e ↦ rw (get-put w.cell_in_notebook c.uri k uri, e) refl
      ]

  pub remove_cells-fields :
      (us : List String) (k : String) (w : Workspace A)
      → (Dict.get (remove_cells us w).text_documents k
          ≡ (if mentions k us then none else Dict.get w.text_documents k))
        × (Dict.get (remove_cells us w).cell_in_notebook k
            ≡ (if mentions k us then none else Dict.get w.cell_in_notebook k))
  unfolding remove_cells remove_text_document
  remove_cells-fields [] k w = (refl, refl)
  remove_cells-fields (u ∷ us) k w =
      let (texts, cells) = remove_cells-fields us k (remove_text_document u w) in
      (
        texts
            ∙ gone (Dict.get w.text_documents k) (mentions k us) (get-remove w.text_documents u k),
        cells
            ∙ gone (Dict.get w.cell_in_notebook k) (mentions k us)
                (get-remove w.cell_in_notebook u k),
      )
    where
      gone :
          {V : Type 0} {now : Option V} (before : Option V) (b : Bool)
          → now ≡ (if str_eq u k then none else before)
          → (if b then none else now) ≡ (if (if str_eq u k then true else b) then none else before)
      gone before b e = ground (arith, e)

  pub remove_cells-notebook_documents :
      (us : List String) (w : Workspace A)
      → (remove_cells us w).notebook_documents ≡ w.notebook_documents
  unfolding remove_cells remove_text_document
  remove_cells-notebook_documents [] w = refl
  remove_cells-notebook_documents (u ∷ us) w =
      remove_cells-notebook_documents us (remove_text_document u w)
