-- ===== src/Server/Changes.antt =====
-- The changes of one document of the server.
use text.Mathlib.Text.{◌==◌ as str_eq}
use text.Mathlib.TextEquality.{eq_iff}
use mathlib.Core.Option
use mathlib.Core.Path.{subst}
use pygls.Prelude.{
  ℕ, String, ◌≡◌, refl, ap, ◌∙◌, sym, Bool, true, false, List, [], ◌∷◌, Option, none, some,
  if◌then◌else◌, Option-cases, Bool-cases, inl, inr,
}
use pygls.Prelude.Eq.{string_eq}
use pygls.Prelude.Dict
use pygls.Prelude.Dict.{get-put, get-remove}
use pygls.Outcome.{Fault, key_error, Outcome, returned, raised, Exec, resume, ◌>>=◌, ◌>>◌, for_each}
use pygls.Document.{Disk, TextDocument, ContentChange}
use pygls.Workspace.{Workspace, VersionedId, update_text_document}
use pygls.Workspace.Consistency.{IsConsistent}
use pygls.Workspace.Invariant.{text_updated, perform, perform-IsConsistent}
use pygls.Workspace.Documents.{
  update_text_document-managed, update_text_document-unknown, update_text_document-setup,
}
use pygls.Server.View.{changed, View, edit_all, follow}
use pygls.Server.{Server, on_workspace, in_workspace}

pub then-returned :
    {S : Type 0} (m k : Exec S (Unit {0})) (s s' : S) → m s ≡ (returned tt, s') → (m >> k) s ≡ k s'
unfolding ◌>>◌ ◌>>=◌ resume
then-returned m k s s' e = rw e refl

pub then-raised :
    {S : Type 0} (m k : Exec S (Unit {0})) (s s' : S) (f : Fault)
    → m s ≡ (raised f, s')
    → (m >> k) s ≡ (raised f, s')
unfolding ◌>>◌ ◌>>=◌ resume
then-raised m k s s' f e = rw e refl

module _ {A : Type 0} where
  -- The workspace `w'` is consistent, as `w` is set up, and holds the documents of the view.
  pub record Holds (w : Workspace A) (view : View) (w' : Workspace A) : Type 0 where
    pub consistent : IsConsistent w'
    pub kind : w'.sync_kind ≡ w.sync_kind
    pub enc : w'.position_encoding ≡ w.position_encoding
    pub documents : (k : String) → Dict.get w'.text_documents k ≡ view k

  abbrev pub Leads : Workspace A → View → Option (Workspace A) → Type 0
  Leads w view o = (w' : Workspace A) × (o ≡ some w') × Holds w view w'

  pub on_workspace-some :
      (m : Exec (Workspace A) (Unit {0})) (s : Server A) (w : Workspace A)
      → s.workspace ≡ some w
      → on_workspace m s ≡ ((m w).0, record s { workspace = some (m w).1 })
  unfolding on_workspace in_workspace
  on_workspace-some m s w e = ap (λ o. in_workspace m o s) e

  -- What leaves the workspace as it is may follow.
  pub then-quiet :
      (m k : Exec (Server A) (Unit {0})) (s : Server A)
      → ((t : Server A) → (k t).1.workspace ≡ t.workspace)
      → ((m >> k) s).1.workspace ≡ (m s).1.workspace
  unfolding ◌>>◌ ◌>>=◌ resume
  then-quiet m k s quiet = go (m s).0 (m s).1
    where
      go : (r : Outcome (Unit {0})) (t : Server A) → (resume (λ u. k) r t).1.workspace ≡ t.workspace
      go (returned u) t = quiet t
      go (raised f) t = refl

  module _ (truthy : A → Bool) (parses : String → Bool) (disk : Disk) where
    edit_none :
        (version : ℕ) (b : Bool) (o : Option TextDocument)
        → (if b then Option.map (edit_all disk version []) o else o) ≡ o
    edit_none version false o = refl
    edit_none version true none = refl
    edit_none version true (some d) = refl

    pub changed_consistent :
        (id : VersionedId) (c : ContentChange) (w : Workspace A)
        → IsConsistent w
        → IsConsistent (update_text_document disk id c w).1
    unfolding perform
    changed_consistent id c w h =
        (perform-IsConsistent truthy parses disk (text_updated id c)).kept w h

    pub changed-Leads :
        (id : VersionedId) (cs : List ContentChange) (s : Server A) (w : Workspace A)
        → s.workspace ≡ some w
        → IsConsistent w
        → Leads w
            (follow w.sync_kind w.position_encoding parses disk
              (changed id cs)
              (Dict.get w.text_documents))
            (for_each
              (λ change. on_workspace (update_text_document disk id change))
              cs
              s).1.workspace
    unfolding for_each
    changed-Leads id [] s w e h = (
      w,
      e,
      record {
        consistent = h;
        kind = refl;
        enc = refl;
        documents = λ k. sym (edit_none id.version (str_eq id.uri k) (Dict.get w.text_documents k));
      },
    )
    changed-Leads id (c ∷ cs) s w e h = elim (Option-cases (Dict.get w.text_documents id.uri)) [
      | inl unknown ↦
          let stopped = update_text_document-unknown disk id c w unknown in
          let m : Exec (Workspace A) (Unit {0}) = update_text_document disk id c in
          let first : on_workspace m s ≡ (raised key_error, record s { workspace = some w }) =
            on_workspace-some m s w e
            ∙ ap (λ r. (r.0, record s { workspace = some r.1 })) stopped in
          (
            w,
            ap (λ r. r.1.workspace)
                (then-raised (on_workspace m)
                  (for_each (λ change. on_workspace (update_text_document disk id change)) cs) s _
                  key_error first),
            record {
              consistent = h;
              kind = refl;
              enc = refl;
              documents = λ k. elim (Bool-cases (str_eq id.uri k)) [
                | inl here ↦
                    let at_k : Dict.get w.text_documents k ≡ none =
                      subst (λ u. Dict.get w.text_documents u ≡ none) ((eq_iff id.uri k).0 here)
                        unknown in
                    rw (here, at_k) refl
                | inr there ↦ rw there refl
              ];
            },
          )
      | inr (d, known) ↦
          let m : Exec (Workspace A) (Unit {0}) = update_text_document disk id c in
          let (d', edited, returns, documents, _) =
            update_text_document-managed disk id c w h known in
          let (kind, enc) = update_text_document-setup disk id c w h known in
          let first : on_workspace m s ≡ (returned tt, record s { workspace = some (m w).1 }) =
            on_workspace-some m s w e
            ∙ ap (λ r. (r, record s { workspace = some (m w).1 })) returns in
          let next_view : (k : String)
              → follow w.sync_kind w.position_encoding parses disk (changed id cs)
                  (Dict.get (m w).1.text_documents) k
                ≡ follow w.sync_kind w.position_encoding parses disk (changed id (c ∷ cs))
                    (Dict.get w.text_documents) k =
            λ k. elim (Bool-cases (str_eq id.uri k)) [
              | inl here ↦
                  let at_k : Dict.get w.text_documents k ≡ some d =
                    subst (λ u. Dict.get w.text_documents u ≡ some d) ((eq_iff id.uri k).0 here)
                      known in
                  rw (documents k, here, at_k, edited) refl
              | inr there ↦ rw (documents k, there) refl
            ] in
          let (w', here, held) =
            changed-Leads id cs (record s { workspace = some (m w).1 }) (m w).1 refl
              (changed_consistent id c w h) in
          let now =
            then-returned (on_workspace m)
              (for_each (λ change. on_workspace (update_text_document disk id change)) cs) s _
              first in
          (
            w',
            ap (λ r. r.1.workspace) now ∙ here,
            record {
              consistent = held.consistent;
              kind = held.kind ∙ kind;
              enc = held.enc ∙ enc;
              documents = λ k. held.documents k ∙ next_view k;
            },
          )
    ]
