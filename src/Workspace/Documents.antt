-- ===== src/Workspace/Documents.antt =====
-- What can be read back from the workspace after its operations.
use pygls.Prelude.{
  String, ◌≡◌, ◌≢◌, refl, ◌∙◌, Bool, false, List, [], ◌∷◌, Option, none, some, if◌then◌else◌,
  Bool-cases, Option-cases, inl, inr,
}
use pygls.Prelude.Eq.{string_eq}
use pygls.Prelude.Dict
use pygls.Prelude.Dict.{Dict, get-put, get-remove, dict_laws}
use text.Mathlib.Text.{◌==◌ as str_eq}
use pygls.Outcome.{returned, raised, key_error, value_error}
use pygls.Document.{
  Disk, TextDocument, SyncKind, ContentChange, partial, whole, apply_change, apply_change_at,
  edited, text_of, none_, full, incremental, apply_incremental_change, source,
}
use pygls.Workspace.{
  Workspace, TextDocumentItem, VersionedId, make_document, create_text_document, found_or_created,
  get_text_document, put_text_document, update_text_document,
}
use pygls.Workspace.Stored.{
  stored_document, stored_cells, put_text_document-parsed, put_text_document-refused,
}
use pygls.Workspace.Consistency.{IsConsistent}

module _ {A : Type 0} where
  -- After a document is opened whose uri parses, with or without a notebook, `get_text_document` returns
  -- it under its uri with the text, version and language given, and every other uri is as it was. For a uri
  -- that does not parse the opening raises a ValueError, and all uris are as they were.
  pub get-put_text_document :
      (parses : String → Bool) (item : TextDocumentItem) (notebook_uri : Option String)
      (w : Workspace A) (k : String)
      → ((put_text_document parses item notebook_uri w).0
          ≡ (if parses item.uri then returned tt else raised value_error))
        × (get_text_document parses (put_text_document parses item notebook_uri w).1 k ≡ (
            if (if parses item.uri then str_eq item.uri k else false)
            then returned (record {
              uri = item.uri;
              source = some item.text;
              version = some item.version;
              language_id = some item.language_id;
              sync_kind = w.sync_kind;
              encoding = w.position_encoding;
            })
            else get_text_document parses w k))
  unfolding get_text_document found_or_created create_text_document stored_document make_document
  get-put_text_document parses item n w k = elim (Bool-cases (parses item.uri)) [
    | inl p ↦ (
      rw (put_text_document-parsed parses item n w p, p) refl,
      rw (put_text_document-parsed parses item n w p, p) (stored n),
    )
    | inr p ↦ (
      rw (put_text_document-refused parses item n w p, p) refl,
      rw (put_text_document-refused parses item n w p, p) refl,
    )
  ]
    where
      stored :
          (n : Option String)
          → get_text_document parses (stored_document item n w) k ≡ (
              if str_eq item.uri k
              then returned (record {
                uri = item.uri;
                source = some item.text;
                version = some item.version;
                language_id = some item.language_id;
                sync_kind = w.sync_kind;
                encoding = w.position_encoding;
              })
              else get_text_document parses w k)
      stored none = elim (Bool-cases (str_eq item.uri k)) [
        | inl e ↦ rw (get-put, e) refl
        | inr e ↦ rw (get-put, e) refl
      ]
      stored (some n) = elim (Bool-cases (str_eq item.uri k)) [
        | inl e ↦ elim (Bool-cases (str_eq n "")) [
          | inl m ↦ rw (m, get-put, e) refl
          | inr m ↦ rw (m, get-put, e) refl
        ]
        | inr e ↦ elim (Bool-cases (str_eq n "")) [
          | inl m ↦ rw (m, get-put, e) refl
          | inr m ↦ rw (m, get-put, e) refl
        ]
      ]

  pub notebooks-stored_cells :
      (cells : List TextDocumentItem) (n : String) (w : Workspace A)
      → (stored_cells cells n w).notebook_documents ≡ w.notebook_documents
  unfolding stored_cells stored_document
  notebooks-stored_cells [] n w = refl
  notebooks-stored_cells (c ∷ cs) n w =
      notebooks-stored_cells cs n (stored_document c (some n) w)
      ∙ elim (Bool-cases (str_eq n "")) [ inl e ↦ rw e refl | inr e ↦ rw e refl ]

-- A document that holds its own text can always be edited.
apply_change_total :
    (disk : Disk) (d : TextDocument) (change : ContentChange)
    → d.source ≢ none
    → (d' : TextDocument) × (apply_change disk d change ≡ some d')
unfolding apply_change
apply_change_total disk d change own = by_kind d.sync_kind change
  where
    by_kind :
        (k : SyncKind) (c : ContentChange)
        → (d' : TextDocument) × (apply_change_at k disk d c ≡ some d')
    by_kind incremental (partial r t) = elim (Option-cases d.source) [
      | inl e ↦ absurd (own e)
      | inr (src, e) ↦ (
        record d { source = some (edited d.encoding src r t) },
        unfold apply_incremental_change source in rw e refl,
      )
    ]
    by_kind incremental (whole t) = (record d { source = some t }, refl)
    by_kind none_ c = (d, refl)
    by_kind full c = (record d { source = some (text_of c) }, refl)

module _ {A : Type 0} (disk : Disk) (id : VersionedId) (change : ContentChange)
    (w : Workspace A) where
  -- In a consistent workspace a change of a managed document never raises: it stores the changed
  -- document with the new version, and leaves every other document and the notebooks as they were.
  pub update_text_document-managed :
      {d : TextDocument}
      → IsConsistent w
      → Dict.get w.text_documents id.uri ≡ some d
      → (d' : TextDocument) × (apply_change disk d change ≡ some d')
        × ((update_text_document disk id change w).0 ≡ returned tt)
        × ((k : String)
            → Dict.get (update_text_document disk id change w).1.text_documents k ≡ (
                if str_eq id.uri k
                then some (record d' { version = some id.version })
                else Dict.get w.text_documents k))
        × ((update_text_document disk id change w).1.notebook_documents ≡ w.notebook_documents)
  unfolding update_text_document
  update_text_document-managed {d} h e =
      let (d', changed) = apply_change_total disk d change ((h.documents id.uri d e).own_source) in
      (d', changed, rw (e, changed) refl, λ k. rw (e, changed, get-put) refl, rw (e, changed) refl)

  -- A change of a document does not touch what was agreed on with the client.
  pub update_text_document-setup :
      {d : TextDocument}
      → IsConsistent w
      → Dict.get w.text_documents id.uri ≡ some d
      → ((update_text_document disk id change w).1.sync_kind ≡ w.sync_kind)
        × ((update_text_document disk id change w).1.position_encoding ≡ w.position_encoding)
  unfolding update_text_document
  update_text_document-setup {d} h e =
      let (d', changed) = apply_change_total disk d change ((h.documents id.uri d e).own_source) in
      (rw (e, changed) refl, rw (e, changed) refl)

  -- A change of a document that is not managed raises a KeyError and changes nothing.
  pub update_text_document-unknown :
      Dict.get w.text_documents id.uri ≡ none
      → update_text_document disk id change w ≡ (raised key_error, w)
  unfolding update_text_document
  update_text_document-unknown e = rw e refl
