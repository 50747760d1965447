-- ===== src/Workspace/Invariant.antt =====
-- Every operation of the workspace keeps its documents consistent.
use pygls.Prelude.{◌≡◌, String, Bool, List, [], ◌∷◌, Option, none, some, arith}
use pygls.Prelude.Eq.{string_eq}
use mathlib.Core.Path.{subst}
use pygls.Prelude.Dict
use pygls.Prelude.Dict.{Dict, AllValues, Covers}
use pygls.Codec.{Encoding, Text}
use pygls.Outcome.{returned, Exec, Keeps, Keeps-modify_then, modify}
use pygls.Uris.{Urllib, Answer, answers, raises, uri_scheme, to_fs_path}
use pygls.Document.{Disk, SyncKind, TextDocument, ContentChange}
use pygls.Workspace.{
  Workspace, WorkspaceFolder, TextDocumentItem, VersionedId, NotebookDocument, NotebookChange,
  items, add_folder, add_folders, remove_folder, put_text_document, put_notebook_document,
  remove_text_document, remove_notebook_document, update_text_document, init, new_workspace,
  at_root, with_root,
}
use pygls.Workspace.Notebook.{update_notebook_document}
use pygls.Workspace.Consistency.{
  IsConsistent, put_text_document-IsConsistent, remove_text_document-IsConsistent,
  put_cells-IsConsistent, remove_cells-IsConsistent, store_notebook-IsConsistent,
  update_text_document-IsConsistent, update_notebook_document-IsConsistent,
}

returned-injective : {X : Type 0} {a b : X} → returned a ≡ returned b → a ≡ b
returned-injective {X} {a} {b} e = cc

-- What the built-in handlers call on the workspace.
pub data Operation (A : Type 0) : Type 0 where
  folder_added : WorkspaceFolder → Operation A
  folder_removed : String → Operation A
  text_put : TextDocumentItem → Option String → Operation A
  text_removed : String → Operation A
  text_updated : VersionedId → ContentChange → Operation A
  notebook_put : NotebookDocument A → List TextDocumentItem → Operation A
  notebook_removed : String → List String → Operation A
  notebook_updated : VersionedId → NotebookChange A → Operation A

module _ {A : Type 0} (truthy : A → Bool) (parses : String → Bool) (disk : Disk) where
  unfoldable pub perform : Operation A → Exec (Workspace A) (Unit {0})
  perform (folder_added f) = modify (add_folder f)
  perform (folder_removed uri) = modify (remove_folder uri)
  perform (text_put item n) = put_text_document parses item n
  perform (text_removed uri) = modify (remove_text_document uri)
  perform (text_updated id change) = update_text_document disk id change
  perform (notebook_put n cells) = put_notebook_document parses n cells
  perform (notebook_removed uri cells) = modify (remove_notebook_document uri cells)
  perform (notebook_updated id change) = update_notebook_document truthy parses disk id change

  -- An exception ends its own operation only.
  unfoldable pub perform_all : List (Operation A) → Workspace A → Workspace A
  unfolding perform
  perform_all [] w = w
  perform_all (o ∷ os) w = perform_all os (perform o w).1

  pub perform-IsConsistent : (o : Operation A) → Keeps IsConsistent (perform o)
  unfolding perform add_folder remove_folder put_notebook_document remove_notebook_document
  perform-IsConsistent (folder_added f) = record {
    kept = λ w h. record { documents = h.documents; cells = h.cells };
  }
  perform-IsConsistent (folder_removed uri) = record {
    kept = λ w h. record { documents = h.documents; cells = h.cells };
  }
  perform-IsConsistent (text_put item n) = put_text_document-IsConsistent parses item n
  perform-IsConsistent (text_removed uri) = record { kept = remove_text_document-IsConsistent uri }
  perform-IsConsistent (text_updated id change) = update_text_document-IsConsistent disk id change
  perform-IsConsistent (notebook_put n cells) =
      Keeps-modify_then _ _ (store_notebook-IsConsistent n.uri n)
        (put_cells-IsConsistent parses cells n.uri)
  perform-IsConsistent (notebook_removed uri cells) = record {
    kept = λ w h. remove_cells-IsConsistent cells _ (
        let h' : IsConsistent
            (record w { notebook_documents = Dict.remove w.notebook_documents uri }) =
          record { documents = h.documents; cells = h.cells } in
        h');
  }
  perform-IsConsistent (notebook_updated id change) =
      update_notebook_document-IsConsistent truthy parses disk id change

  perform_all-IsConsistent :
      (os : List (Operation A)) (w : Workspace A) → IsConsistent w → IsConsistent (perform_all os w)
  unfolding perform_all
  perform_all-IsConsistent [] w h = h
  perform_all-IsConsistent (o ∷ os) w h =
      perform_all-IsConsistent os (perform o w).1 ((perform-IsConsistent o).kept w h)

  add_folders-IsConsistent :
      (fs : List WorkspaceFolder) (w : Workspace A)
      → IsConsistent w
      → IsConsistent (add_folders fs w)
  unfolding add_folders add_folder
  add_folders-IsConsistent [] w h = h
  add_folders-IsConsistent (f ∷ fs) w h =
      add_folders-IsConsistent fs (add_folder f w)
        (record { documents = h.documents; cells = h.cells })

  new_workspace-IsConsistent :
      (root_uri : Option Text) (kind : SyncKind) (fs : Option (List WorkspaceFolder))
      (enc : Encoding)
      → IsConsistent (new_workspace {A = A} root_uri kind fs enc)
  unfolding new_workspace
  new_workspace-IsConsistent root_uri kind fs enc = add_folders-IsConsistent (items fs) _ (record {
    documents = λ k d e. absurd (ground (arith, Dict.get-empty {V = TextDocument} k));
    cells = λ k h. absurd (h (Dict.get-empty k));
  })

  with_root-kept :
      (scheme : Answer Text) (path : Answer (Option Text)) (v w : Workspace A)
      → IsConsistent v
      → with_root scheme path v ≡ returned w
      → IsConsistent w
  with_root-kept (raises e) path v w h eq = cc
  with_root-kept (answers s) (raises e) v w h eq = cc
  with_root-kept (answers s) (answers p) v w h eq = subst IsConsistent (returned-injective eq) h

  at_root-kept :
      (url : Urllib) (is_win : Bool) (root : Option Text) (v w : Workspace A)
      → IsConsistent v
      → at_root url is_win root v ≡ returned w
      → IsConsistent w
  at_root-kept url is_win none v w h eq = subst IsConsistent (returned-injective eq) h
  at_root-kept url is_win (some root) v w h eq =
      with_root-kept (uri_scheme url root) (to_fs_path url is_win root) v w h eq

  -- Whatever a new workspace is put through, whether the operations return or raise: every managed
  -- document knows its uri, counts columns and synchronises as the workspace does, and never reads
  -- the disk; and every cell with a notebook is managed.
  pub reached-IsConsistent :
      (url : Urllib) (is_win : Bool) (root_uri : Option Text) (kind : SyncKind)
      (fs : Option (List WorkspaceFolder)) (enc : Encoding) (os : List (Operation A))
      (w : Workspace A)
      → init url is_win root_uri kind fs enc ≡ returned w
      → IsConsistent (perform_all os w)
  unfolding init
  reached-IsConsistent url is_win root_uri kind fs enc os w e = perform_all-IsConsistent os w (
      at_root-kept url is_win root_uri (new_workspace root_uri kind fs enc) w
        (new_workspace-IsConsistent root_uri kind fs enc) e)
