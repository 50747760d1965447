-- ===== src/Workspace.antt =====
-- pygls/workspace/workspace.py: `Workspace`. The dicts keep their insertion order. lsprotocol's
-- values that the workspace only stores (metadata, execution summaries) are of a type `A`;
-- `truthy` is the truth value of such an object. `_docs`, which nothing uses, is left out. `parses` is
-- whether `urlparse` accepts the uri of a document, where it raises a ValueError for the others.
use pygls.Prelude.{
  ℕ, ◌+◌, String, Bool, true, false, List, [], ◌∷◌, ◌++◌, Option, none, some, if◌then◌else◌, take,
  drop,
}
use mathlib.Core.Option
use pygls.Prelude.Eq.{string_eq}
use pygls.Prelude.Dict
use pygls.Prelude.Dict.{Dict}
use text.Mathlib.Text.{◌==◌ as str_eq}
use pygls.Codec.{Text, Encoding, utf16}
use pygls.Outcome.{
  Fault, key_error, os_error, value_error, Outcome, returned, raised, Exec, pure, raise, modify,
  ◌>>=◌, ◌>>◌, for_each,
}
use pygls.Uris.{Urllib, Answer, answers, raises, uri_scheme, to_fs_path}
use pygls.Document.{Disk, SyncKind, TextDocument, ContentChange, apply_change}
pub mod Stored
pub mod Notebook
pub mod Consistency
pub mod Invariant
pub mod Documents
pub mod Cells
pub mod Structure

pub record WorkspaceFolder : Type 0 where
  pub uri : String
  pub name : String

-- types.TextDocumentItem
pub record TextDocumentItem : Type 0 where
  pub uri : String
  pub language_id : String
  pub version : ℕ
  pub text : Text

-- types.VersionedTextDocumentIdentifier
pub record VersionedId : Type 0 where
  pub uri : String
  pub version : ℕ

pub record NotebookCell (A : Type 0) : Type 0 where
  pub document : String
  pub kind : ℕ
  pub metadata : Option A
  pub execution_summary : Option A

pub record NotebookDocument (A : Type 0) : Type 0 where
  pub uri : String
  pub notebook_type : String
  pub version : ℕ
  pub metadata : Option A
  pub cells : List (NotebookCell A)

-- NotebookDocumentCellChangeStructure, with the fields of its `array`
pub record CellStructure (A : Type 0) : Type 0 where
  pub start : ℕ
  pub delete_count : ℕ
  pub cells : Option (List (NotebookCell A))
  pub did_open : Option (List TextDocumentItem)
  pub did_close : Option (List String)

-- NotebookDocumentCellContentChanges
pub record CellText : Type 0 where
  pub document : VersionedId
  pub changes : List ContentChange

-- NotebookDocumentCellChanges
pub record CellChanges (A : Type 0) : Type 0 where
  pub structure : Option (CellStructure A)
  pub cell_data : Option (List (NotebookCell A))
  pub text_content : Option (List CellText)

-- NotebookDocumentChangeEvent
pub record NotebookChange (A : Type 0) : Type 0 where
  pub metadata : Option A
  pub cells : Option (CellChanges A)

pub record Workspace (A : Type 0) : Type 0 where
  pub root_uri : Option Text
  pub sync_kind : SyncKind
  pub text_documents : Dict String TextDocument
  pub notebook_documents : Dict String (NotebookDocument A)
  pub cell_in_notebook : Dict String String
  pub folders : Dict String WorkspaceFolder
  pub position_encoding : Encoding

abbrev pub items {ℓ} : {A : Type ℓ} → Option (List A) → List A
items none = []
items (some l) = l

module _ {A : Type 0} where
  unfoldable pub add_folder : WorkspaceFolder → Workspace A → Workspace A
  add_folder folder w = record w { folders = Dict.put w.folders folder.uri folder }

  -- `pop` has removed the key, so the `del` after it always raises, which is ignored.
  unfoldable pub remove_folder : String → Workspace A → Workspace A
  remove_folder folder_uri w = record w { folders = Dict.remove w.folders folder_uri }

  pub add_folders : List WorkspaceFolder → Workspace A → Workspace A
  add_folders [] w = w
  add_folders (f ∷ fs) w = add_folders fs (add_folder f w)

  -- What `__init__` leaves when it returns.
  unfoldable pub new_workspace :
      Option Text → SyncKind → Option (List WorkspaceFolder) → Encoding → Workspace A
  unfolding add_folders add_folder
  new_workspace root_uri sync_kind workspace_folders position_encoding =
      add_folders (items workspace_folders) (record {
        root_uri = root_uri;
        sync_kind = sync_kind;
        text_documents = Dict.empty;
        notebook_documents = Dict.empty;
        cell_in_notebook = Dict.empty;
        folders = Dict.empty;
        position_encoding = position_encoding;
      })

  abbrev pub with_root : Answer Text → Answer (Option Text) → Workspace A → Outcome (Workspace A)
  with_root (raises e) path w = raised value_error
  with_root (answers scheme) (raises e) w = raised value_error
  with_root (answers scheme) (answers path) w = returned w

  abbrev pub at_root : Urllib → Bool → Option Text → Workspace A → Outcome (Workspace A)
  at_root url is_win none w = returned w
  at_root url is_win (some root_uri) w =
      with_root (uri_scheme url root_uri) (to_fs_path url is_win root_uri) w

  -- __init__, which raises for a root uri that does not parse
  unfoldable pub init :
      Urllib
      → Bool
      → Option Text
      → SyncKind
      → Option (List WorkspaceFolder)
      → Encoding
      → Outcome (Workspace A)
  init url is_win root_uri sync_kind workspace_folders position_encoding =
      at_root url is_win root_uri
        (new_workspace root_uri sync_kind workspace_folders position_encoding)

  -- The document that `TextDocument.__init__` makes.
  unfoldable pub make_document :
      Workspace A → String → Option Text → Option ℕ → Option String → TextDocument
  make_document w doc_uri text version language_id = record {
    uri = doc_uri;
    source = text;
    version = version;
    language_id = language_id;
    sync_kind = w.sync_kind;
    encoding = w.position_encoding;
  }

  -- `TextDocument.__init__` takes the uri apart first.
  unfoldable pub create_text_document :
      (String → Bool)
      → Workspace A
      → String
      → Option Text
      → Option ℕ
      → Option String
      → Outcome TextDocument
  unfolding make_document
  create_text_document parses w doc_uri text version language_id =
      if parses doc_uri
      then returned (make_document w doc_uri text version language_id)
      else raised value_error

  unfoldable pub notebook_of_cell : Workspace A → Option String → Option (NotebookDocument A)
  notebook_of_cell w none = none
  notebook_of_cell w (some uri) = Dict.get w.notebook_documents uri

  unfoldable pub get_notebook_document :
      Workspace A → Option String → Option String → Option (NotebookDocument A)
  unfolding notebook_of_cell
  get_notebook_document w (some notebook_uri) cell_uri = Dict.get w.notebook_documents notebook_uri
  get_notebook_document w none (some cell_uri) =
      notebook_of_cell w (Dict.get w.cell_in_notebook cell_uri)
  get_notebook_document w none none = none

  unfoldable pub found_or_created :
      (String → Bool) → Workspace A → String → Option TextDocument → Outcome TextDocument
  unfolding create_text_document
  found_or_created parses w doc_uri (some document) = returned document
  found_or_created parses w doc_uri none = create_text_document parses w doc_uri none none none

  unfoldable pub get_text_document : (String → Bool) → Workspace A → String → Outcome TextDocument
  unfolding found_or_created
  get_text_document parses w doc_uri =
      found_or_created parses w doc_uri (Dict.get w.text_documents doc_uri)

  -- `if notebook_uri:` is false for `None` and for the empty string.
  abbrev pub note_cell : String → Option String → Workspace A → Workspace A
  note_cell doc_uri none w = w
  note_cell doc_uri (some uri) w =
      if str_eq uri ""
      then w
      else record w { cell_in_notebook = Dict.put w.cell_in_notebook doc_uri uri }

  -- The document is made before it is stored: an exception leaves the workspace.
  unfoldable pub store_document :
      String → Option String → Outcome TextDocument → Exec (Workspace A) (Unit {0})
  store_document doc_uri notebook_uri (raised e) = raise e
  store_document doc_uri notebook_uri (returned document) = modify λ w.
      note_cell doc_uri notebook_uri
        (record w { text_documents = Dict.put w.text_documents doc_uri document })

  unfoldable pub put_text_document :
      (String → Bool) → TextDocumentItem → Option String → Exec (Workspace A) (Unit {0})
  unfolding create_text_document store_document
  put_text_document parses item notebook_uri w =
      store_document item.uri notebook_uri
        (create_text_document parses w item.uri (some item.text) (some item.version)
          (some item.language_id))
        w

  unfoldable pub put_cells :
      (String → Bool) → List TextDocumentItem → String → Exec (Workspace A) (Unit {0})
  unfolding ◌>>◌
  put_cells parses [] notebook_uri = pure tt
  put_cells parses (c ∷ cs) notebook_uri =
      put_text_document parses c (some notebook_uri) >> put_cells parses cs notebook_uri

  unfoldable pub put_notebook_document :
      (String → Bool) → NotebookDocument A → List TextDocumentItem → Exec (Workspace A) (Unit {0})
  unfolding put_cells
  put_notebook_document parses notebook cell_text_documents =
      modify
        (λ w. record w { notebook_documents = Dict.put w.notebook_documents notebook.uri notebook })
      >> put_cells parses cell_text_documents notebook.uri

  unfoldable pub remove_text_document : String → Workspace A → Workspace A
  remove_text_document doc_uri w = record w {
    text_documents = Dict.remove w.text_documents doc_uri;
    cell_in_notebook = Dict.remove w.cell_in_notebook doc_uri;
  }

  unfoldable pub remove_cells : List String → Workspace A → Workspace A
  remove_cells [] w = w
  remove_cells (c ∷ cs) w = remove_cells cs (remove_text_document c w)

  unfoldable pub remove_notebook_document : String → List String → Workspace A → Workspace A
  unfolding remove_cells
  remove_notebook_document notebook_uri cell_text_documents w =
      remove_cells cell_text_documents
        (record w { notebook_documents = Dict.remove w.notebook_documents notebook_uri })

  -- The document is the object in the dict; `os_error` is its source failing to be read from disk.
  store_changed : VersionedId → Option TextDocument → Exec (Workspace A) (Unit {0})
  store_changed id none = raise os_error
  store_changed id (some doc) = modify λ w. record w {
    text_documents = Dict.put w.text_documents id.uri (record doc { version = some id.version });
  }

  change_document :
      Disk → VersionedId → ContentChange → Option TextDocument → Exec (Workspace A) (Unit {0})
  unfolding store_changed
  change_document disk id change none = raise key_error
  change_document disk id change (some doc) = store_changed id (apply_change disk doc change)

  unfoldable pub update_text_document :
      Disk → VersionedId → ContentChange → Exec (Workspace A) (Unit {0})
  unfolding change_document
  update_text_document disk id change w =
      change_document disk id change (Dict.get w.text_documents id.uri) w
