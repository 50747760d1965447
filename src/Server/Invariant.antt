-- ===== src/Server/Invariant.antt =====
-- The workspace of the server stays consistent, whatever features are served.
use pygls.Prelude.{◌≡◌, refl, String, Bool, List, [], ◌∷◌, Option, none, some}
use pygls.Codec.{Text}
use pygls.Outcome.{
  Outcome, returned, raised, Keeps-raise, Exec, modify, Keeps, Keeps-pure, Keeps-then,
  Keeps-for_each,
}
use pygls.Document.{Disk}
use pygls.Workspace.{Workspace, WorkspaceFolder, add_folder, remove_folder, items}
use pygls.Workspace.Consistency.{IsConsistent}
use pygls.Workspace.Invariant.{
  Operation, folder_added, folder_removed, text_put, text_removed, text_updated, notebook_put,
  notebook_removed, notebook_updated, perform, perform-IsConsistent, perform_all,
  reached-IsConsistent,
}
use pygls.Client.{choose_position_encoding}
use pygls.Server.{
  Server, Params, chosen_root, place_workspace, set_workspace, initialize, initialized, shutdown,
  did_open, did_change, did_close, notebook_did_open, notebook_did_change, notebook_did_close,
  set_trace, did_change_workspace_folders, in_workspace, on_workspace, change_folders, before,
  afterwards, feature, serve,
}

-- Before the initialization there is no workspace.
abbrev pub Sound : {A : Type 0} → Option (Workspace A) → Type 0
Sound none = Unit
Sound (some w) = IsConsistent w

-- The workspace of the server, if there is one, is consistent.
abbrev pub IsSound : {A : Type 0} → Server A → Type 0
IsSound s = Sound s.workspace

module _ {A : Type 0} where
  on_workspace-IsSound :
      (m : Exec (Workspace A) (Unit {0})) → Keeps IsConsistent m → Keeps IsSound (on_workspace m)
  unfolding on_workspace in_workspace
  on_workspace-IsSound m h = record { kept = λ s k. at s.workspace s k k }
    where
      at :
          (o : Option (Workspace A)) (s : Server A)
          → Sound o
          → Sound s.workspace
          → Sound (in_workspace m o s).1.workspace
      at none s k all = all
      at (some w) s k all = h.kept w k

  module _ (truthy : A → Bool) (parses : String → Bool) (disk : Disk) where
    add : (f : WorkspaceFolder) → Keeps (IsConsistent {A = A}) (modify (add_folder f))
    unfolding perform
    add f = perform-IsConsistent truthy parses disk (folder_added f)

    remove : (uri : String) → Keeps (IsConsistent {A = A}) (modify (remove_folder uri))
    unfolding perform
    remove uri = perform-IsConsistent truthy parses disk (folder_removed uri)

    change_folders-IsConsistent :
        (added removed : List WorkspaceFolder)
        → Keeps (IsConsistent {A = A}) (change_folders added removed)
    unfolding change_folders
    change_folders-IsConsistent [] [] = Keeps-pure tt
    change_folders-IsConsistent (f ∷ added) [] =
        Keeps-then _ _ (add f) (change_folders-IsConsistent added [])
    change_folders-IsConsistent [] (g ∷ removed) =
        Keeps-then _ _ (remove g.uri) (change_folders-IsConsistent [] removed)
    change_folders-IsConsistent (f ∷ added) (g ∷ removed) =
        Keeps-then _ _ (Keeps-then _ _ (add f) (remove g.uri))
          (change_folders-IsConsistent added removed)

    op-IsSound : (o : Operation A) → Keeps IsSound (on_workspace (perform truthy parses disk o))
    op-IsSound o =
        on_workspace-IsSound (perform truthy parses disk o)
          (perform-IsConsistent truthy parses disk o)

    set_workspace-IsSound :
        (folders : Option (List WorkspaceFolder)) (encodings : Option (Option (List String)))
        (root : Outcome (Option Text))
        → Keeps (IsSound {A = A}) (set_workspace folders encodings root)
    unfolding set_workspace perform_all
    set_workspace-IsSound folders encodings (raised e) = Keeps-raise e
    set_workspace-IsSound folders encodings (returned root_uri) = record {
      kept = λ s h.
          placed _
            (λ w e.
              reached-IsConsistent truthy parses disk s.platform.url s.platform.is_win root_uri
                s.sync_kind folders (choose_position_encoding encodings) [] w e)
            s h;
    }
      where
        placed :
            (r : Outcome (Workspace A))
            → ((w : Workspace A) → r ≡ returned w → IsConsistent w)
            → (s : Server A) → IsSound s
            → IsSound (place_workspace r s).1
        placed (raised e) h s k = k
        placed (returned w) h s k = h w refl

    before-IsSound : (p : Params A) → Keeps IsSound (before truthy parses disk p)
    unfolding before perform perform_all
    before-IsSound (initialize root_path root_uri folders encodings) = record {
      kept = λ s h.
          (set_workspace-IsSound folders encodings (chosen_root s.platform root_path root_uri)).kept
            s h;
    }
    before-IsSound initialized = Keeps-pure tt
    before-IsSound shutdown = Keeps-pure tt
    before-IsSound (did_open item) = op-IsSound (text_put item none)
    before-IsSound (did_change id changes) =
        Keeps-for_each _ (λ c. op-IsSound (text_updated id c)) changes
    before-IsSound (did_close uri) = op-IsSound (text_removed uri)
    before-IsSound (notebook_did_open n cells) = op-IsSound (notebook_put n cells)
    before-IsSound (notebook_did_change id change) = op-IsSound (notebook_updated id change)
    before-IsSound (notebook_did_close uri cells) = op-IsSound (notebook_removed uri cells)
    before-IsSound (set_trace value) = record { kept = λ s h. h }
    before-IsSound (did_change_workspace_folders added removed) =
        on_workspace-IsSound _ (change_folders-IsConsistent (items added) (items removed))

    afterwards-IsSound : (p : Params A) → Keeps IsSound (afterwards truthy parses disk p)
    unfolding afterwards
    afterwards-IsSound shutdown = record { kept = λ s h. h }
    afterwards-IsSound (initialize root_path root_uri folders encodings) = Keeps-pure tt
    afterwards-IsSound initialized = Keeps-pure tt
    afterwards-IsSound (did_open item) = Keeps-pure tt
    afterwards-IsSound (did_change id changes) = Keeps-pure tt
    afterwards-IsSound (did_close uri) = Keeps-pure tt
    afterwards-IsSound (notebook_did_open n cells) = Keeps-pure tt
    afterwards-IsSound (notebook_did_change id change) = Keeps-pure tt
    afterwards-IsSound (notebook_did_close uri cells) = Keeps-pure tt
    afterwards-IsSound (set_trace value) = Keeps-pure tt
    afterwards-IsSound (did_change_workspace_folders added removed) = Keeps-pure tt

    -- Whatever features are served, in any order, and whether they return or raise, the workspace of
    -- the server, if there is one, is consistent, as long as the user's handlers keep it so.
    pub serve-IsSound :
        (user : Params A → Exec (Server A) (Unit {0}))
        → ((p : Params A) → Keeps IsSound (user p))
        → (ps : List (Params A)) (s : Server A) → IsSound s
        → IsSound (serve truthy parses disk user ps s)
    unfolding serve feature
    serve-IsSound user keeps [] s h = h
    serve-IsSound user keeps (p ∷ ps) s h = serve-IsSound user keeps ps _ (
        (Keeps-then _ _ (Keeps-then _ _ (before-IsSound p) (keeps p)) (afterwards-IsSound p)).kept s
          h)
