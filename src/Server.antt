-- ===== src/Server.antt =====
-- pygls/protocol/language_server.py: the built-in features of `LanguageServerProtocol` that keep the
-- workspace and the life cycle. A built-in feature is a generator, which `_run_generator`
-- (pygls/protocol/json_rpc.py) runs up to the call of the user's handler for the same method, if
-- there is one, and on with its result; an exception of the handler ends it there. `user` is all
-- that happens from that call until its end.
use pygls.Prelude.{ℕ, String, Bool, true, false, List, [], ◌∷◌, Option, none, some, if◌then◌else◌}
use pygls.Codec.{Encoding, Text}
use pygls.Uris.{Urllib, Answer, answers, raises, from_fs_path}
use pygls.Outcome.{
  Fault, runtime_error, value_error, Outcome, returned, raised, Exec, pure, raise, modify, ◌>>=◌,
  ◌>>◌, for_each,
}
use pygls.Document.{Disk, SyncKind, ContentChange}
use pygls.Client.{choose_position_encoding}
use pygls.Workspace.{
  Workspace, WorkspaceFolder, TextDocumentItem, VersionedId, NotebookDocument, NotebookChange, init,
  add_folder, remove_folder, put_text_document, remove_text_document, update_text_document,
  put_notebook_document, remove_notebook_document, items,
}
use pygls.Workspace.Notebook.{update_notebook_document}
pub mod View
pub mod Changes
pub mod Mirror
pub mod Invariant

-- The params of the built-in features. `initialize` has the root path, the root uri, the folders and
-- the encodings of the client's capabilities.
pub data Params (A : Type 0) : Type 0 where
  initialize :
      Option Text
      → Option Text
      → Option (List WorkspaceFolder)
      → Option (Option (List String))
      → Params A
  initialized shutdown : Params A
  did_open : TextDocumentItem → Params A
  did_change : VersionedId → List ContentChange → Params A
  did_close : String → Params A
  notebook_did_open : NotebookDocument A → List TextDocumentItem → Params A
  notebook_did_change : VersionedId → NotebookChange A → Params A
  notebook_did_close : String → List String → Params A
  set_trace : String → Params A
  did_change_workspace_folders :
      Option (List WorkspaceFolder) → Option (List WorkspaceFolder) → Params A

-- What the server runs on: `urllib` and IS_WIN.
pub record Platform : Type 0 where
  pub url : Urllib
  pub is_win : Bool

-- LanguageServerProtocol, as far as these features go
pub record Server (A : Type 0) : Type 0 where
  pub workspace : Option (Workspace A)
  pub trace : String
  pub is_shutdown : Bool
  pub sync_kind : SyncKind
  pub platform : Platform

-- The uri of a root path; a ValueError is not caught by `from_fs_path`.
abbrev pub root_of_path : Answer Text → Outcome (Option Text)
root_of_path (answers uri) = returned (some uri)
root_of_path (raises e) = raised value_error

-- `root_path is not None and root_uri is None`
abbrev pub chosen_root : Platform → Option Text → Option Text → Outcome (Option Text)
chosen_root platform root_path (some uri) = returned (some uri)
chosen_root platform none none = returned none
chosen_root platform (some path) none =
    root_of_path (from_fs_path platform.url platform.is_win path)

module _ {A : Type 0} where
  in_workspace : Exec (Workspace A) (Unit {0}) → Option (Workspace A) → Exec (Server A) (Unit {0})
  in_workspace m none s = raise runtime_error s
  in_workspace m (some w) s = let (r, w') = m w in (r, record s { workspace = some w' })

  -- self.workspace, and a call of one of its methods
  unfoldable pub on_workspace : Exec (Workspace A) (Unit {0}) → Exec (Server A) (Unit {0})
  unfolding in_workspace
  on_workspace m s = in_workspace m s.workspace s

  -- for f_add, f_remove in zip_longest(added_folders, removed_folders)
  unfoldable pub change_folders :
      List WorkspaceFolder → List WorkspaceFolder → Exec (Workspace A) (Unit {0})
  change_folders [] [] = pure tt
  change_folders (f ∷ added) [] = modify (add_folder f) >> change_folders added []
  change_folders [] (g ∷ removed) = modify (remove_folder g.uri) >> change_folders [] removed
  change_folders (f ∷ added) (g ∷ removed) =
      modify (add_folder f) >> modify (remove_folder g.uri) >> change_folders added removed

  abbrev pub place_workspace : Outcome (Workspace A) → Exec (Server A) (Unit {0})
  place_workspace (raised e) = raise e
  place_workspace (returned w) = modify λ s. record s { workspace = some w }

  unfoldable pub set_workspace :
      Option (List WorkspaceFolder)
      → Option (Option (List String))
      → Outcome (Option Text)
      → Exec (Server A) (Unit {0})
  set_workspace folders encodings (raised e) s = raise e s
  set_workspace folders encodings (returned root_uri) s =
      place_workspace
        (init s.platform.url s.platform.is_win root_uri s.sync_kind folders
          (choose_position_encoding encodings))
        s

  module _ (truthy : A → Bool) (parses : String → Bool) (disk : Disk) where
    -- What a feature does before it yields to the user's handler.
    unfoldable pub before : Params A → Exec (Server A) (Unit {0})
    unfolding on_workspace change_folders set_workspace
    before (initialize root_path root_uri folders encodings) =
        λ s. set_workspace folders encodings (chosen_root s.platform root_path root_uri) s
    before initialized = pure tt
    before shutdown = pure tt
    before (did_open item) = on_workspace (put_text_document parses item none)
    before (did_change id changes) =
        for_each (λ change. on_workspace (update_text_document disk id change)) changes
    before (did_close uri) = on_workspace (modify (remove_text_document uri))
    before (notebook_did_open notebook cells) =
        on_workspace (put_notebook_document parses notebook cells)
    before (notebook_did_change id change) =
        on_workspace (update_notebook_document truthy parses disk id change)
    before (notebook_did_close uri cells) =
        on_workspace (modify (remove_notebook_document uri cells))
    before (set_trace value) = modify λ s. record s { trace = value }
    before (did_change_workspace_folders added removed) =
        on_workspace (change_folders (items added) (items removed))

    -- What it does when the user's handler has returned, to this state: the capabilities that are
    -- computed for the answer to `initialize` (Capabilities) and the cancellation of the other
    -- requests at the shutdown (Rpc/Shutdown) are left out.
    unfoldable pub afterwards : Params A → Exec (Server A) (Unit {0})
    afterwards shutdown = modify λ s. record s { is_shutdown = true }
    afterwards _ = pure tt

    unfoldable pub feature :
        (Params A → Exec (Server A) (Unit {0})) → Params A → Exec (Server A) (Unit {0})
    unfolding before afterwards
    feature user p = before p >> user p >> afterwards p

    -- Features one after the other; an exception ends its own feature only.
    unfoldable pub serve :
        (Params A → Exec (Server A) (Unit {0})) → List (Params A) → Server A → Server A
    unfolding feature
    serve user [] s = s
    serve user (p ∷ ps) s = serve user ps (feature user p s).1
