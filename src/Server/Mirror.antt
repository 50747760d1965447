-- ===== src/Server/Mirror.antt =====
-- The documents of the server follow the client's: opening, changing and closing them in any order.

use pygls.Prelude.{
  String, ◌≡◌, refl, ap, ◌∙◌, Bool, Bool-cases, inl, inr, List, [], ◌∷◌, map, none, some,
}
use pygls.Prelude.Eq.{string_eq}
use pygls.Prelude.Dict
use pygls.Prelude.Dict.{get-put, get-remove}
use pygls.Outcome.{Exec, modify, ◌>>◌}
use pygls.Document.{Disk}
use pygls.Workspace.{
  Workspace, TextDocumentItem, put_text_document, remove_text_document, make_document,
}
use pygls.Workspace.Stored.{stored_document, put_text_document-parsed, put_text_document-refused}
use pygls.Workspace.Consistency.{IsConsistent, stored_document-IsConsistent}
use pygls.Workspace.Invariant.{text_removed, perform, perform-IsConsistent}
use pygls.Workspace.Documents.{}
use pygls.Server.View.{
  TextEvent, opened, changed, closed, params_of, follow, follow_all, follow_all-cong,
}
use pygls.Server.{Server, Params, before, afterwards, feature, serve}
use pygls.Server.Changes.{on_workspace-some, then-quiet, changed-Leads, Holds, Leads}

module _ {A : Type 0} where
  module _ (truthy : A → Bool) (parses : String → Bool) (disk : Disk) where
    opened-Holds :
        (item : TextDocumentItem) (w : Workspace A)
        → IsConsistent w
        → Holds w
            (follow w.sync_kind w.position_encoding parses disk
              (opened item)
              (Dict.get w.text_documents))
            (put_text_document parses item none w).1
    unfolding stored_document make_document
    opened-Holds item w h = elim (Bool-cases (parses item.uri)) [
      | inl e ↦ rw (put_text_document-parsed parses item none w e) (record {
        consistent = stored_document-IsConsistent item none w h;
        kind = refl;
        enc = refl;
        documents = λ k. rw e (get-put w.text_documents item.uri k _);
      })
      | inr e ↦
          rw (put_text_document-refused parses item none w e)
            (record { consistent = h; kind = refl; enc = refl; documents = λ k. rw e refl })
    ]

    closed-Holds :
        (uri : String) (w : Workspace A)
        → IsConsistent w
        → Holds w
            (follow w.sync_kind w.position_encoding parses disk
              (closed uri)
              (Dict.get w.text_documents))
            (remove_text_document uri w)
    unfolding perform remove_text_document
    closed-Holds uri w h = record {
      consistent = (perform-IsConsistent truthy parses disk (text_removed uri)).kept w h;
      kind = refl;
      enc = refl;
      documents = λ k. get-remove w.text_documents uri k;
    }

    event-Leads :
        (e : TextEvent) (s : Server A) (w : Workspace A)
        → s.workspace ≡ some w
        → IsConsistent w
        → Leads w
            (follow w.sync_kind w.position_encoding parses disk e (Dict.get w.text_documents))
            (before truthy parses disk (params_of e) s).1.workspace
    unfolding before
    event-Leads (changed id cs) s w e h = changed-Leads truthy parses disk id cs s w e h
    event-Leads (opened item) s w e h = (
      _,
      ap (λ r. r.1.workspace) (on_workspace-some (put_text_document parses item none) s w e),
      opened-Holds item w h,
    )
    event-Leads (closed uri) s w e h = (
      _,
      ap (λ r. r.1.workspace) (on_workspace-some (modify (remove_text_document uri)) s w e),
      closed-Holds uri w h,
    )

    afterwards-quiet :
        (ev : TextEvent) (t : Server A)
        → (afterwards truthy parses disk (params_of ev) t).1.workspace ≡ t.workspace
    unfolding afterwards
    afterwards-quiet (opened item) t = refl
    afterwards-quiet (changed id cs) t = refl
    afterwards-quiet (closed uri) t = refl

    -- On an initialized server with a consistent workspace: whatever the client opens, changes and closes, in any order and with
    -- changes of documents that are not open among it, the managed documents are exactly those that
    -- are open, each with all its changes, as long as the user's handlers leave the workspace alone;
    -- they may raise. A document whose uri does not parse is not opened.
    pub serve-follows :
        (user : Params A → Exec (Server A) (Unit {0}))
        → ((p : Params A) (t : Server A) → (user p t).1.workspace ≡ t.workspace)
        → (es : List TextEvent) (s : Server A) (w : Workspace A) → s.workspace ≡ some w
        → IsConsistent w
        → (w' : Workspace A) × ((serve truthy parses disk user (map params_of es) s).workspace
            ≡ some w')
          × ((k : String)
              → Dict.get w'.text_documents k
                ≡ follow_all w.sync_kind w.position_encoding parses disk es
                    (Dict.get w.text_documents)
                    k)
    unfolding serve feature
    serve-follows user quiet [] s w e h = (w, e, λ k. refl)
    serve-follows user quiet (ev ∷ es) s w e h =
        let (w1, here, held) = event-Leads ev s w e h in
        let still : (feature truthy parses disk user (params_of ev) s).1.workspace
            ≡ (before truthy parses disk (params_of ev) s).1.workspace =
          then-quiet (before truthy parses disk (params_of ev) >> user (params_of ev))
            (afterwards truthy parses disk (params_of ev)) s (afterwards-quiet ev)
          ∙ then-quiet (before truthy parses disk (params_of ev)) (user (params_of ev)) s
              (quiet (params_of ev)) in
        let (w', there, documents) =
          serve-follows user quiet es (feature truthy parses disk user (params_of ev) s).1 w1
            (still ∙ here) held.consistent in
        (
          w',
          there,
          λ k.
              documents k
              ∙ ap
                  (λ x.
                    follow_all x w1.position_encoding parses disk es (Dict.get w1.text_documents) k)
                  held.kind
              ∙ ap (λ x. follow_all w.sync_kind x parses disk es (Dict.get w1.text_documents) k)
                  held.enc
              ∙ follow_all-cong w.sync_kind w.position_encoding parses disk es _ _ held.documents k,
        )
