-- ===== src/Server/View.antt =====
-- The client's view of its open text documents, and what it tells the server of them.
use text.Mathlib.Text.{◌==◌ as str_eq}
use mathlib.Core.Option
use pygls.Prelude.{
  ℕ, Bool, false, String, ◌≡◌, refl, List, [], ◌∷◌, Option, none, some, if◌then◌else◌,
}
use pygls.Prelude.Eq.{string_eq}
use pygls.Codec.{Encoding}
use pygls.Document.{Disk, SyncKind, TextDocument, ContentChange, apply_change}
use pygls.Workspace.{TextDocumentItem, VersionedId}
use pygls.Server.{Params, did_open, did_change, did_close}

-- What a client tells of its text documents.
pub data TextEvent : Type 0 where
  opened : TextDocumentItem → TextEvent
  changed : VersionedId → List ContentChange → TextEvent
  closed : String → TextEvent

abbrev pub params_of : {A : Type 0} → TextEvent → Params A
params_of (opened item) = did_open item
params_of (changed id changes) = did_change id changes
params_of (closed uri) = did_close uri

-- The documents that are open, by their uri.
abbrev pub View : Type 0
View = String → Option TextDocument

-- Changes one after the other, each with the version that they lead to.
abbrev pub edit_all : Disk → ℕ → List ContentChange → TextDocument → TextDocument
edit_all disk version [] d = d
edit_all disk version (c ∷ cs) d =
    edit_all disk version cs
      (record (Option.get_or (apply_change disk d c) d) { version = some version })

module _ (kind : SyncKind) (enc : Encoding) (parses : String → Bool) (disk : Disk) where
  -- What is open after an event; a document whose uri does not parse is not opened.
  abbrev pub follow : TextEvent → View → View
  follow (opened item) view k =
      if (if parses item.uri then str_eq item.uri k else false)
      then some (record {
        uri = item.uri;
        source = some item.text;
        version = some item.version;
        language_id = some item.language_id;
        sync_kind = kind;
        encoding = enc;
      })
      else view k
  follow (changed id changes) view k =
      if str_eq id.uri k then Option.map (edit_all disk id.version changes) (view k) else view k
  follow (closed uri) view k = if str_eq uri k then none else view k

  abbrev pub follow_all : List TextEvent → View → View
  follow_all [] view = view
  follow_all (e ∷ es) view = follow_all es (follow e view)

follow-cong :
    (kind : SyncKind) (enc : Encoding) (parses : String → Bool) (disk : Disk) (e : TextEvent)
    (v u : View)
    → ((k : String) → v k ≡ u k)
    → (k : String) → follow kind enc parses disk e v k ≡ follow kind enc parses disk e u k
follow-cong kind enc parses disk (opened item) v u h k = rw (h k) refl
follow-cong kind enc parses disk (changed id cs) v u h k = rw (h k) refl
follow-cong kind enc parses disk (closed uri) v u h k = rw (h k) refl

pub follow_all-cong :
    (kind : SyncKind) (enc : Encoding) (parses : String → Bool) (disk : Disk) (es : List TextEvent)
    (v u : View)
    → ((k : String) → v k ≡ u k)
    → (k : String) → follow_all kind enc parses disk es v k ≡ follow_all kind enc parses disk es u k
follow_all-cong kind enc parses disk [] v u h k = h k
follow_all-cong kind enc parses disk (e ∷ es) v u h k =
    follow_all-cong kind enc parses disk es _ _ (follow-cong kind enc parses disk e v u h) k
